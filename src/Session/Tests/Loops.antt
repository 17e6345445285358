-- ===== src/Session/Tests/Loops.antt =====
-- The loops of src/ProxySession.cpp on the kernel of `Session.Tests`.
use flux_gate.Base.{◌≡◌, true, false, [], ◌∷◌, some, arith}
use flux_gate.Buffer.{new_buffer}
use flux_gate.Session.Loops.{read_into, write_from, read_loop, write_loop, fuel_for, Transfer}
use flux_gate.Buffer.Content.{new_buffer-IsValid}
use flux_gate.Session.Loops.Reading.{ReadFrom, read_into-ReadFrom}
use flux_gate.Session.Loops.Writing.{WroteTo, write_from-WroteTo}
use flux_gate.Session.Tests.{script, script-IsKernel, world, Script}

abbrev reading : Transfer Script
reading = record { buffer = new_buffer 4; last_activity = 0; world = world }

read_into-ReadFrom_example :
    (read_loop script 3 (fuel_for script reading) true false reading
      ≡ some (read_into script 3 true reading))
    × ReadFrom 3 reading (read_into script 3 true reading).1
read_into-ReadFrom_example =
    read_into-ReadFrom script script-IsKernel 3 true reading (new_buffer-IsValid 4 (omega arith))

abbrev writing : Transfer Script
writing = record {
  buffer = record { storage = 1 ∷ 2 ∷ 3 ∷ []; read_index = 1; write_index = 3 };
  last_activity = 0;
  world = world;
}

write_from-WroteTo_example :
    (write_loop script 4 (fuel_for script writing) false writing
      ≡ some (write_from script 4 writing))
    × WroteTo 4 writing (write_from script 4 writing).1
write_from-WroteTo_example = write_from-WroteTo script script-IsKernel 4 writing (record {
  ordered = omega arith;
  fits = omega arith;
  small = omega arith;
  reset = λ h. absurd (omega arith);
})
