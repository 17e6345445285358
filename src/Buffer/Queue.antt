-- ===== src/Buffer/Queue.antt =====
-- ByteBuffer.h as a bounded first-in first-out queue of bytes.
use flux_gate.Base.{ℕ, ◌≤◌, ◌<◌, ◌≡◌, ap, ◌∙◌, List, [], ◌∷◌, ◌++◌, length, drop, arith, word_mod}
use flux_gate.Buffer.{
  ByteBuffer, new_buffer, readable_bytes, writable_bytes, fill, has_written, consume, make_writable,
}
use flux_gate.Buffer.Content.{
  IsValid, capacity, content, received-IsValid, capacity-received, content-received,
  consume-IsValid, capacity-consume, content-consume, make_writable-IsValid, capacity-make_writable,
  content-make_writable, new_buffer-IsValid, content-new_buffer, capacity-new_buffer,
  length-content,
}

-- The calls that a session makes of a buffer.
pub data Call : Type 0 where
  receives : List ℕ → Call
  sends : ℕ → Call
  compacts : Call

unfoldable pub call : ByteBuffer → Call → ByteBuffer
call b (receives xs) = has_written (fill b xs) (length xs)
call b (sends n) = consume b n
call b compacts = make_writable b

-- What the header asks of the caller.
abbrev pub Allowed : ByteBuffer → Call → Type 0
Allowed b (receives xs) = length xs ≤ writable_bytes b
Allowed b (sends n) = n ≤ readable_bytes b
Allowed b compacts = Unit

-- The queue that the buffer stands for.
abbrev pub queue_call : List ℕ → Call → List ℕ
queue_call q (receives xs) = q ++ xs
queue_call q (sends n) = drop n q
queue_call q compacts = q

abbrev pub AllAllowed : ByteBuffer → List Call → Type 0
AllAllowed b [] = Unit
AllAllowed b (c ∷ cs) = Allowed b c × AllAllowed (call b c) cs

unfoldable pub run_calls : ByteBuffer → List Call → ByteBuffer
run_calls b [] = b
run_calls b (c ∷ cs) = run_calls (call b c) cs

abbrev pub run_queue : List ℕ → List Call → List ℕ
run_queue q [] = q
run_queue q (c ∷ cs) = run_queue (queue_call q c) cs

pub record Refines (b : ByteBuffer) (size : ℕ) (q : List ℕ) : Type 0 where
  pub valid : IsValid b
  pub holds : content b ≡ q
  pub sized : capacity b ≡ size

-- One allowed call.
pub call-Refines :
    (b : ByteBuffer) (c : Call) (size : ℕ) (q : List ℕ)
    → Allowed b c
    → Refines b size q
    → Refines (call b c) size (queue_call q c)
unfolding call
call-Refines b (receives xs) size q h r = record {
  valid = received-IsValid b r.valid xs h;
  holds = content-received b r.valid xs h ∙ ap (λ t. t ++ xs) r.holds;
  sized = capacity-received b r.valid xs h ∙ r.sized;
}
call-Refines b (sends n) size q h r = record {
  valid = consume-IsValid b r.valid n h;
  holds = content-consume b r.valid n h ∙ ap (drop n) r.holds;
  sized = capacity-consume b r.valid n h ∙ r.sized;
}
call-Refines b compacts size q h r = record {
  valid = make_writable-IsValid b r.valid;
  holds = content-make_writable b r.valid ∙ r.holds;
  sized = capacity-make_writable b r.valid ∙ r.sized;
}

run_calls-Refines_from :
    (cs : List Call) (b : ByteBuffer) (size : ℕ) (q : List ℕ)
    → AllAllowed b cs
    → Refines b size q
    → Refines (run_calls b cs) size (run_queue q cs)
unfolding run_calls
run_calls-Refines_from [] b size q h r = r
run_calls-Refines_from (c ∷ cs) b size q h r =
    run_calls-Refines_from cs (call b c) size (queue_call q c) h.1 (call-Refines b c size q h.0 r)

-- A new buffer of less than 2 ^ 64 bytes, after any calls that its header allows, is valid and
-- holds the bytes of the queue that they describe, in order, at most as many as the buffer's
-- size.
pub run_calls-Refines :
    (size : ℕ) (cs : List Call)
    → size < word_mod
    → AllAllowed (new_buffer size) cs
    → (content (run_calls (new_buffer size) cs) ≡ run_queue [] cs)
      × (length (run_queue [] cs) ≤ size)
      × IsValid (run_calls (new_buffer size) cs)
run_calls-Refines size cs h allowed =
    let start : Refines (new_buffer size) size [] = record {
      valid = new_buffer-IsValid size h;
      holds = content-new_buffer size;
      sized = capacity-new_buffer size;
    } in
    let r = run_calls-Refines_from cs (new_buffer size) size [] allowed start in
    (
      r.holds,
      omega (
        arith,
        r.valid.ordered,
        r.valid.fits,
        r.sized,
        length-content _ r.valid,
        ap length r.holds,
      ),
      r.valid,
    )
