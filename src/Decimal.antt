-- ===== src/Decimal.antt =====
-- `std::to_string` of an unsigned number, and its reading by `parseLong` (src/Config.cpp).
use flux_gate.Base.{
  ℕ, zero, suc, ◌+◌, ◌-◌, ◌*◌, ◌/◌, ◌%◌, ◌^◌, ◌<◌, ◌≤◌, ◌≡◌, refl, sym, ap, ◌∙◌, inl, inr, true,
  false, [], ◌∷◌, length, ltb, leb, ◌==◌, if◌then◌else◌, arith, ok, some, Bool-cases, ltb→lt,
  ltb→le, ==_refl,
}
use flux_gate.Backend.{Bytes}
use flux_gate.Config.Text.{is_space}
use flux_gate.Config.Number.{
  is_digit, read_digits, read_magnitude, read_sign, skip_spaces, stol, parse_long,
}

-- The digits of `n` before `rest`, the last one first; `fuel` bounds their number.
unfoldable pub to_digits : ℕ → ℕ → Bytes → Bytes
to_digits zero n rest = rest
to_digits (suc fuel) n rest =
    let more = to_digits fuel (n / 10) ((b'0' + n % 10) ∷ rest) in
    if ltb n 10 then (b'0' + n) ∷ rest else more

-- `std::to_string`: a number has fewer digits than its successor.
unfoldable pub to_decimal : ℕ → Bytes
unfolding to_digits
to_decimal n = to_digits (suc n) n []

-- The numbers' digits: `more` beyond the first, and their value when they are read.
record IsPrinted (n : ℕ) (rest : Bytes) (text : Bytes) : Type 0 where
  more : ℕ
  head : ℕ
  tail : Bytes
  shape : text ≡ head ∷ tail
  digit : is_digit head ≡ true
  size : length text ≡ suc more + length rest
  value : (c : ℕ) → read_digits text (0, c) ≡ read_digits rest (n, suc (more + c))

pub digit_test : (d : ℕ) → d < 10 → is_digit (b'0' + d) ≡ true
digit_test d h = ground arith

to_digits-IsPrinted :
    (fuel n : ℕ) (rest : Bytes) → n < fuel → IsPrinted n rest (to_digits fuel n rest)
unfolding to_digits read_digits
to_digits-IsPrinted zero n rest h = elim h [ ]
to_digits-IsPrinted (suc fuel) n rest h = elim (Bool-cases (ltb n 10)) [
  | inl small ↦
      let lt = ltb→lt n 10 small in
      rw small (record {
        more = 0;
        head = b'0' + n;
        tail = rest;
        shape = refl;
        digit = digit_test n lt;
        size = omega arith;
        value = λ c.
            let e : 10 * 0 + (b'0' + n - b'0') ≡ n = omega arith in
            let e' : suc (0 + c) ≡ suc c = omega arith in rw (digit_test n lt, e, e') refl;
      })
  | inr large ↦
      let ge = ltb→le n 10 large in
      let d : ℕ = n % 10 in
      let r = to_digits-IsPrinted fuel (n / 10) ((b'0' + d) ∷ rest) (omega (arith, ge, h)) in
      rw large (record {
        more = suc r.more;
        head = r.head;
        tail = r.tail;
        shape = r.shape;
        digit = r.digit;
        size = omega (arith, r.size);
        value = λ c.
            let e : 10 * (n / 10) + (b'0' + d - b'0') ≡ n = omega arith in
            let e' : suc (suc r.more + c) ≡ suc (suc (r.more + c)) = omega arith in
            r.value c ∙ rw (digit_test d (omega arith), e, e') refl;
      })
]

-- A text that begins with a digit is read from its first byte.
skip_spaces-digit :
    (head : ℕ) (tail : Bytes)
    → is_digit head ≡ true
    → skip_spaces 0 (head ∷ tail) ≡ (0, head ∷ tail)
skip_spaces-digit head tail h = let e : is_space head ≡ false = no_space in rw e refl
  where
    no_space : is_space head ≡ false
    no_space = ground (arith, h)

read_sign-digit :
    (head : ℕ) (tail : Bytes)
    → is_digit head ≡ true
    → read_sign 0 (head ∷ tail) ≡ read_magnitude false 0 (head ∷ tail)
read_sign-digit head tail h =
    let minus : (head == b'-') ≡ false = ground (arith, h) in
    let plus : (head == b'+') ≡ false = ground (arith, h) in rw (minus, plus) refl

stol-digit :
    (head : ℕ) (tail : Bytes)
    → is_digit head ≡ true
    → stol (head ∷ tail) ≡ read_magnitude false 0 (head ∷ tail)
unfolding stol
stol-digit head tail h =
    let first = skip_spaces-digit head tail h in rw first (read_sign-digit head tail h)

module _ (n : ℕ) (small : n < 2 ^ 63) where
  abbrev text : Bytes
  text = to_decimal n

  read_magnitude-to_decimal :
      read_magnitude false 0 text ≡ some (record { negative = false; magnitude = n }, length text)
  unfolding read_magnitude to_decimal read_digits
  read_magnitude-to_decimal =
      let p = to_digits-IsPrinted (suc n) n [] (omega arith) in
      let none_zero : (suc (p.more + 0) == 0) ≡ false = ground arith in
      let fits : leb n (2 ^ 63 - 1) ≡ true = ground (arith, small) in
      let count : 0 + suc (p.more + 0) ≡ length text = omega (arith, p.size) in
      rw (p.value 0, none_zero, fits, count) refl

  stol-to_decimal : stol text ≡ some (record { negative = false; magnitude = n }, length text)
  unfolding to_decimal
  stol-to_decimal =
      let p = to_digits-IsPrinted (suc n) n [] (omega arith) in
      ap stol p.shape
      ∙ stol-digit p.head p.tail p.digit
      ∙ sym (ap (read_magnitude false 0) p.shape)
      ∙ read_magnitude-to_decimal

  -- A number below 2 ^ 63 and within the bounds that is printed by `std::to_string` is read back
  -- by `parseLong`.
  pub parse_long-to_decimal :
      (key : Bytes) (minimum maximum : ℕ)
      → minimum ≤ n
      → n ≤ maximum
      → parse_long (to_decimal n) key minimum maximum ≡ ok n
  unfolding parse_long
  parse_long-to_decimal key minimum maximum above below =
      let whole : (length text == length text) ≡ true = ==_refl (length text) in
      let least : ltb n minimum ≡ false = ground (arith, above) in
      let most : ltb maximum n ≡ false = ground (arith, below) in
      rw (stol-to_decimal, whole, least, most) refl
