-- ===== src/Metrics/Snapshot.antt =====
-- `Metrics::snapshot` of src/Metrics.cpp: the counters as one line of text, and a reader of it. Each
-- counter is read once; the six reads are one step.
use flux_gate.Base.{
  ℕ, zero, suc, ◌+◌, ◌-◌, ◌*◌, ◌/◌, ◌%◌, ◌<◌, ◌≡◌, refl, sym, ap, ◌∙◌, inl, inr, Option, none, some,
  [], ◌∷◌, ◌++◌, ltb, ◌==◌, ==_refl, if◌then◌else◌, arith, Bool-cases, ltb→lt, ltb→le,
}
use flux_gate.Backend.{Bytes}
use flux_gate.Config.Text.{codes}
use flux_gate.Config.Number.{is_digit}
use flux_gate.Decimal.{to_digits, to_decimal, digit_test}
use flux_gate.Metrics.{Metrics}

-- `Metrics::snapshot`.
unfoldable pub snapshot : Metrics → Bytes
snapshot m =
    codes "accepted="
    ++ (to_decimal m.accepted
        ++ (codes " active="
            ++ (to_decimal m.active
                ++ (codes " rejected="
                    ++ (to_decimal m.rejected
                        ++ (codes " connect_failures="
                            ++ (to_decimal m.connect_failures
                                ++ (codes " c2b_bytes="
                                    ++ (to_decimal m.client_to_backend_bytes
                                        ++ (codes " b2c_bytes="
                                            ++ (to_decimal m.backend_to_client_bytes
                                                ++ [])))))))))))

-- The value of the digits at the front, after `v`, and what follows them.
take_number : Bytes → ℕ → ℕ × Bytes
take_number [] v = (v, [])
take_number (c ∷ cs) v =
    let more = take_number cs (10 * v + (c - b'0')) in if is_digit c then more else (v, c ∷ cs)

take_prefix : Bytes → Bytes → Option Bytes
take_prefix [] cs = some cs
take_prefix (k ∷ ks) [] = none
take_prefix (k ∷ ks) (c ∷ cs) = let more = take_prefix ks cs in if k == c then more else none

infixl 5 ◌>>=◌
abbrev ◌>>=◌ {ℓ κ} : {A : Type ℓ} {B : Type κ} → Option A → (A → Option B) → Option B
none >>= f = none
some a >>= f = f a

-- A field of the line: its name, and its number.
unfoldable pub read_field : Bytes → Bytes → Option (ℕ × Bytes)
unfolding take_number take_prefix
read_field name cs = do r ← take_prefix name cs; some (take_number r 0)

unfoldable pub read_snapshot : Bytes → Option Metrics
read_snapshot cs = do
  (accepted, cs1) ← read_field (codes "accepted=") cs
  (active, cs2) ← read_field (codes " active=") cs1
  (rejected, cs3) ← read_field (codes " rejected=") cs2
  (failures, cs4) ← read_field (codes " connect_failures=") cs3
  (sent, cs5) ← read_field (codes " c2b_bytes=") cs4
  (received, cs6) ← read_field (codes " b2c_bytes=") cs5
  some (record {
    accepted = accepted;
    active = active;
    rejected = rejected;
    connect_failures = failures;
    client_to_backend_bytes = sent;
    backend_to_client_bytes = received;
  })

to_digits-append :
    (fuel n : ℕ) (xs ys : Bytes) → to_digits fuel n (xs ++ ys) ≡ to_digits fuel n xs ++ ys
unfolding to_digits
to_digits-append zero n xs ys = refl
to_digits-append (suc fuel) n xs ys = elim (Bool-cases (ltb n 10)) [
  | inl small ↦ rw small refl
  | inr large ↦ rw large (to_digits-append fuel (n / 10) ((b'0' + n % 10) ∷ xs) ys)
]

take_number-to_digits :
    (fuel n : ℕ) (rest : Bytes)
    → n < fuel
    → take_number (to_digits fuel n rest) 0 ≡ take_number rest n
unfolding to_digits take_number
take_number-to_digits zero n rest h = elim h [ ]
take_number-to_digits (suc fuel) n rest h = elim (Bool-cases (ltb n 10)) [
  | inl small ↦
      let e : 10 * 0 + (b'0' + n - b'0') ≡ n = omega arith in
      rw (small, digit_test n (ltb→lt n 10 small), e) refl
  | inr large ↦
      let ge = ltb→le n 10 large in
      let d : ℕ = n % 10 in
      let e : 10 * (n / 10) + (b'0' + d - b'0') ≡ n = omega arith in
      let deeper = take_number-to_digits fuel (n / 10) ((b'0' + d) ∷ rest) (omega (arith, ge, h)) in
      rw large (deeper ∙ rw (digit_test d (omega arith), e) refl)
]

take_prefix-append : (ks cs : Bytes) → take_prefix ks (ks ++ cs) ≡ some cs
unfolding take_prefix
take_prefix-append [] cs = refl
take_prefix-append (k ∷ ks) cs = rw (==_refl k) (take_prefix-append ks cs)

-- A field is read up to a text that does not begin with a digit.
read_field-back :
    (name : Bytes) (n : ℕ) (rest : Bytes)
    → take_number rest n ≡ (n, rest)
    → read_field name (name ++ (to_decimal n ++ rest)) ≡ some (n, rest)
unfolding read_field to_decimal
read_field-back name n rest ends =
    let whole : take_number (to_digits (suc n) n [] ++ rest) 0 ≡ (n, rest) =
      ap (λ cs. take_number cs 0) (sym (to_digits-append (suc n) n [] rest))
      ∙ take_number-to_digits (suc n) n rest (omega arith)
      ∙ ends in
    rw (take_prefix-append name (to_digits (suc n) n [] ++ rest), whole) refl

-- Every counter is read back from the text of `snapshot`, by a reader that takes each field by
-- its name and the digits that follow.
pub read_snapshot-snapshot : (m : Metrics) → read_snapshot (snapshot m) ≡ some m
unfolding read_snapshot snapshot take_number
read_snapshot-snapshot m =
    rw
      (
        read_field-back (codes "accepted=") m.accepted _ refl,
        read_field-back (codes " active=") m.active _ refl,
        read_field-back (codes " rejected=") m.rejected _ refl,
        read_field-back (codes " connect_failures=") m.connect_failures _ refl,
        read_field-back (codes " c2b_bytes=") m.client_to_backend_bytes _ refl,
        read_field-back (codes " b2c_bytes=") m.backend_to_client_bytes [] refl,
      )
      refl
