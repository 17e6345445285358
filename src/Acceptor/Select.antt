-- ===== src/Acceptor/Select.antt =====
-- The choice that `selectWorker` (src/main.cpp) makes.
use native.Mathlib.Nat.{mod-lt}
use flux_gate.Base.{
  sym, ℕ, zero, suc, ◌+◌, ◌%◌, ◌≤◌, ◌<◌, ◌≡◌, ◌⊎◌, inl, inr, refl, ltb, ltb→lt, ltb→le,
  if◌then◌else◌, add64, add64-eq, ap, arith, Bool-cases, ◌∙◌, word_mod,
}
use flux_gate.Acceptor.{Counts, scan_workers, select_worker}

lt_suc_cases : (j i : ℕ) → j < suc i → (j < i) ⊎ (j ≡ i)
lt_suc_cases j i h = ground arith

module _ (n : ℕ) (active : Counts) (cursor : ℕ) where
  -- The worker that round `j` looks at, and the count that it finds.
  abbrev pub visit : ℕ → ℕ
  visit j = add64 cursor j % n

  abbrev pub found : ℕ → ℕ
  found j = active j (visit j)

  -- Round `o` found the least count of the first `i` rounds, and was the first to find it.
  pub record IsFirstLeast (i o : ℕ) : Type 0 where
    pub met : o < i
    pub least : (j : ℕ) → j < i → found o ≤ found j
    pub first : (j : ℕ) → j < o → found o < found j

  abbrev best_at : ℕ → ℕ × ℕ
  best_at o = (visit o, found o)

  up_to :
      (i o : ℕ)
      → ((j : ℕ) → j < i → found o ≤ found j)
      → found o ≤ found i
      → (j : ℕ) → j < suc i
      → found o ≤ found j
  up_to i o h k j lt = elim (lt_suc_cases j i lt) [ inl below ↦ h j below | inr same ↦ rw same k ]

  scan_step :
      (i o : ℕ)
      → IsFirstLeast i o
      → (o' : ℕ) × IsFirstLeast (suc i) o'
        × ((if ltb (found i) (found o) then best_at i else best_at o) ≡ best_at o')
  scan_step i o h = elim (Bool-cases (ltb (found i) (found o))) [
    | inl less ↦
        let lt = ltb→lt (found i) (found o) less in
        (
          i,
          record {
            met = omega arith;
            least = up_to i i (λ j k. omega (arith, lt, h.least j k)) (omega arith);
            first = λ j k. omega (arith, lt, h.least j k);
          },
          rw less refl,
        )
    | inr more ↦ (
      o,
      record {
        met = omega (arith, h.met);
        least = up_to i o h.least (ltb→le (found i) (found o) more);
        first = h.first;
      },
      rw more refl,
    )
  ]

  scan_workers-IsFirstLeast :
      (rounds i o m : ℕ)
      → i + rounds ≡ m
      → IsFirstLeast i o
      → (o' : ℕ) × IsFirstLeast m o'
        × (scan_workers n active cursor i rounds (best_at o) ≡ best_at o')
  unfolding scan_workers
  scan_workers-IsFirstLeast zero i o m s h =
      let e : i ≡ m = omega (arith, s) in (o, rw e at h, refl)
  scan_workers-IsFirstLeast (suc rounds) i o m s h =
      let (o', h', e) = scan_step i o h in
      let (o'', h'', e') = scan_workers-IsFirstLeast rounds (suc i) o' m (omega (arith, s)) h' in
      (o'', h'', rw e e')

-- Among at least one worker, with a cursor below 2 ^ 64: `selectWorker` returns the worker of the
-- round, in the order from the cursor, whose count is least of the counts that the rounds found,
-- and that is the first of these.
pub select_worker-IsFirstLeast :
    (n : ℕ) (active : Counts) (cursor : ℕ)
    → 0 < n
    → cursor < word_mod
    → (o : ℕ) × IsFirstLeast n active cursor n o
      × (select_worker n active cursor ≡ visit n active cursor o)
unfolding select_worker
select_worker-IsFirstLeast zero active cursor h k = absurd (omega arith)
select_worker-IsFirstLeast (suc n) active cursor h k =
    let plain : add64 cursor 0 ≡ cursor = add64-eq cursor 0 (omega arith) ∙ omega arith in
    let start : cursor % suc n ≡ visit (suc n) active cursor 0 = ap (λ c. c % suc n) (sym plain) in
    let only : IsFirstLeast (suc n) active cursor 1 0 = record {
      met = omega arith;
      least = up_to (suc n) active cursor 0 0 (λ j l. absurd (omega arith)) (omega arith);
      first = λ j l. absurd (omega arith);
    } in
    let (o, b, e) =
      scan_workers-IsFirstLeast (suc n) active cursor n 1 0 (suc n) (omega arith) only in
    (
      o,
      b,
      ap (λ s. (scan_workers (suc n) active cursor 1 n (s, active 0 s)).0) start ∙ ap (λ r. r.0) e,
    )

-- The index is that of a worker.
pub select_worker-lt :
    (n : ℕ) (active : Counts) (cursor : ℕ)
    → 0 < n
    → cursor < word_mod
    → select_worker n active cursor < n
select_worker-lt n active cursor h k =
    let (o, b, e) = select_worker-IsFirstLeast n active cursor h k in
    rw e (mod-lt (add64 cursor o) h)
