-- ===== src/UniqueFd.antt =====
-- include/fluxgate/UniqueFd.h: the owner of a file descriptor.
pub mod Ledger
mod Tests
use flux_gate.Base.{ℕ, List, [], ◌∷◌, Option, none, some, get_elem?, set, ◌==◌, if◌then◌else◌}
use flux_gate.Pool.System.{remove_at}

-- A `UniqueFd` by its descriptor; none stands for the negative numbers.
abbrev pub UniqueFd : Type 0
UniqueFd = Option ℕ

-- `UniqueFd::release`: what it returns, and what is left.
unfoldable pub release : UniqueFd → UniqueFd × UniqueFd
release this = (this, none)

-- `UniqueFd::reset`, with the descriptors closed so far.
unfoldable pub reset : UniqueFd → UniqueFd → List ℕ → UniqueFd × List ℕ
reset none fd closed = (fd, closed)
reset (some old) fd closed = (fd, old ∷ closed)

-- The move constructor: the new owner, and what is left of the other.
unfoldable pub move_from : UniqueFd → UniqueFd × UniqueFd
unfolding release
move_from other = release other

-- Move assignment between two distinct owners.
unfoldable pub move_assign : UniqueFd → UniqueFd → List ℕ → UniqueFd × UniqueFd × List ℕ
unfolding release reset
move_assign this other closed =
    let (fd, left) = release other in
    let (now, closed') = reset this fd closed in (now, left, closed')

-- The owners that are alive, the descriptors closed, and those given back to a caller.
pub record Owners : Type 0 where
  pub alive : List UniqueFd
  pub closed : List ℕ
  pub released : List UniqueFd

-- The calls on the owners, by their places: a constructor, `release`, `reset`, a move, an
-- assignment, the destructor.
pub data Call : Type 0 where
  adopts : UniqueFd → Call
  releases : ℕ → Call
  resets : ℕ → UniqueFd → Call
  moves : ℕ → Call
  assigns : ℕ → ℕ → Call
  destroys : ℕ → Call

unfoldable pub reset_at : ℕ → Option UniqueFd → UniqueFd → Owners → Owners
unfolding reset
reset_at i none fd o = o
reset_at i (some this) fd o =
    let (now, closed') = reset this fd o.closed in
    record o { alive = set o.alive i now; closed = closed' }

unfoldable pub release_at : ℕ → Option UniqueFd → Owners → Owners
unfolding release
release_at i none o = o
release_at i (some this) o =
    let (fd, left) = release this in
    record o { alive = set o.alive i left; released = fd ∷ o.released }

unfoldable pub move_at : ℕ → Option UniqueFd → Owners → Owners
unfolding move_from
move_at i none o = o
move_at i (some other) o =
    let (fd, left) = move_from other in record o { alive = fd ∷ set o.alive i left }

unfoldable pub assign_at : ℕ → ℕ → Option UniqueFd → Option UniqueFd → Owners → Owners
unfolding move_assign
assign_at i j (some this) (some other) o =
    let (now, left, closed') = move_assign this other o.closed in
    record o { alive = set (set o.alive i now) j left; closed = closed' }
assign_at i j _ _ o = o

-- The destructor is a reset.
unfoldable pub destroy_at : ℕ → Option UniqueFd → Owners → Owners
unfolding reset
destroy_at i none o = o
destroy_at i (some this) o = record o {
  alive = remove_at i o.alive;
  closed = (reset this none o.closed).1;
}

unfoldable pub call : Owners → Call → Owners
unfolding reset_at release_at move_at assign_at destroy_at
call o (adopts fd) = record o { alive = fd ∷ o.alive }
call o (releases i) = release_at i (get_elem? o.alive i) o
call o (resets i fd) = reset_at i (get_elem? o.alive i) fd o
call o (moves i) = move_at i (get_elem? o.alive i) o
call o (assigns i j) =
    if i == j then o else assign_at i j (get_elem? o.alive i) (get_elem? o.alive j) o
call o (destroys i) = destroy_at i (get_elem? o.alive i) o

unfoldable pub run_calls : List Call → Owners → Owners
unfolding call
run_calls [] o = o
run_calls (c ∷ cs) o = run_calls cs (call o c)
