-- ===== src/UniqueFd/Ledger.antt =====
-- Where the descriptors of include/fluxgate/UniqueFd.h go.
use flux_gate.Base.{
  ℕ, ◌+◌, ◌≡◌, ◌≢◌, refl, ◌∙◌, inl, inr, List, [], ◌∷◌, Option, none, some, get_elem?, set, ◌==◌,
  ==_iff, arith, Bool-cases, get_elem?-set_ne,
}
use flux_gate.Pool.System.{points, count, count-set, count-remove_at}
use flux_gate.UniqueFd.{
  UniqueFd, Owners, Call, adopts, releases, resets, moves, assigns, destroys, reset, release,
  move_from, move_assign, reset_at, release_at, move_at, assign_at, destroy_at, call, run_calls,
}

abbrev pub times_closed : ℕ → List ℕ → ℕ
times_closed f [] = 0
times_closed f (g ∷ gs) = points f (some g) + times_closed f gs

-- How often a descriptor is with an owner, closed, or given back.
abbrev pub held : ℕ → Owners → ℕ
held f o = count f o.alive + times_closed f o.closed + count f o.released

-- How often a call hands a descriptor to an owner: a reset of an owner that is alive, too.
abbrev pub handed_to : ℕ → UniqueFd → Option UniqueFd → ℕ
handed_to f fd none = 0
handed_to f fd (some this) = points f fd

abbrev pub handed : ℕ → Owners → Call → ℕ
handed f o (adopts fd) = points f fd
handed f o (resets i fd) = handed_to f fd (get_elem? o.alive i)
handed f o _ = 0

abbrev pub all_handed : ℕ → Owners → List Call → ℕ
all_handed f o [] = 0
all_handed f o (c ∷ cs) = handed f o c + all_handed f (call o c) cs

module _ (f : ℕ) (o : Owners) where
  reset-held :
      (this fd : UniqueFd)
      → times_closed f (reset this fd o.closed).1 ≡ points f this + times_closed f o.closed
  unfolding reset
  reset-held none fd = omega arith
  reset-held (some old) fd = refl

  reset-now : (this fd : UniqueFd) → (reset this fd o.closed).0 ≡ fd
  unfolding reset
  reset-now none fd = refl
  reset-now (some old) fd = refl

  reset_at-held :
      (i : ℕ) (fd : UniqueFd) (t : Option UniqueFd)
      → get_elem? o.alive i ≡ t
      → held f (reset_at i t fd o) ≡ held f o + handed_to f fd t
  unfolding reset_at
  reset_at-held i fd none at = omega arith
  reset_at-held i fd (some this) at =
      rw (reset-now this fd) (omega (arith, reset-held this fd, count-set f i o.alive this fd at))

  release_at-held :
      (i : ℕ) (t : Option UniqueFd) → get_elem? o.alive i ≡ t → held f (release_at i t o) ≡ held f o
  unfolding release_at release
  release_at-held i none at = refl
  release_at-held i (some this) at = omega (arith, count-set f i o.alive this none at)

  move_at-held :
      (i : ℕ) (t : Option UniqueFd) → get_elem? o.alive i ≡ t → held f (move_at i t o) ≡ held f o
  unfolding move_at move_from release
  move_at-held i none at = refl
  move_at-held i (some this) at = omega (arith, count-set f i o.alive this none at)

  assign_at-held :
      (i j : ℕ) (t u : Option UniqueFd)
      → i ≢ j
      → get_elem? o.alive i ≡ t
      → get_elem? o.alive j ≡ u
      → held f (assign_at i j t u o) ≡ held f o
  unfolding assign_at move_assign release
  assign_at-held i j none u ne at at' = refl
  assign_at-held i j (some this) none ne at at' = refl
  assign_at-held i j (some this) (some other) ne at at' = rw (reset-now this other) (
      omega (
        arith,
        reset-held this other,
        count-set f i o.alive this other at,
        count-set f j (set o.alive i other) other none
            (get_elem?-set_ne o.alive i j other ne ∙ at'),
      ))

  destroy_at-held :
      (i : ℕ) (t : Option UniqueFd) → get_elem? o.alive i ≡ t → held f (destroy_at i t o) ≡ held f o
  unfolding destroy_at
  destroy_at-held i none at = refl
  destroy_at-held i (some this) at =
      omega (arith, reset-held this none, count-remove_at f i o.alive this at)

  call-held : (c : Call) → held f (call o c) ≡ held f o + handed f o c
  unfolding call
  call-held (adopts fd) = omega arith
  call-held (releases i) = release_at-held i _ refl ∙ omega arith
  call-held (resets i fd) = reset_at-held i fd _ refl
  call-held (moves i) = move_at-held i _ refl ∙ omega arith
  call-held (assigns i j) = elim (Bool-cases (i == j)) [
    | inl same ↦ rw same (omega arith)
    | inr other ↦
        rw other
          (assign_at-held i j _ _ (λ e. cc ((==_iff i j).1 e, other)) refl refl ∙ omega arith)
  ]
  call-held (destroys i) = destroy_at-held i _ refl ∙ omega arith

-- Over any sequence of constructions, releases, resets, moves, assignments and destructions of
-- owners, each descriptor stands as often with an owner, among the closed or among the released
-- ones as before, and once more for each time that it is handed to an owner.
pub run_calls-held :
    (f : ℕ) (cs : List Call) (o : Owners)
    → count f (run_calls cs o).alive
        + times_closed f (run_calls cs o).closed
        + count f (run_calls cs o).released
      ≡ count f o.alive + times_closed f o.closed + count f o.released + all_handed f o cs
unfolding run_calls
run_calls-held f [] o = omega arith
run_calls-held f (c ∷ cs) o = omega (arith, run_calls-held f cs (call o c), call-held f o c)
