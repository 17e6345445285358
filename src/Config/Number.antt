-- ===== src/Config/Number.antt =====
-- `parseLong` (src/Config.cpp), on `std::stol` of a 64-bit `long`.
use flux_gate.Base.{
  ℕ, suc, ◌+◌, ◌-◌, ◌*◌, ◌^◌, Bool, true, false, not, ◌&&◌, ◌||◌, [], ◌∷◌, Option, none, some,
  length, leb, ltb, ◌==◌, if◌then◌else◌, Result, ok, err, ◌>>=◌,
}
use flux_gate.Backend.{Bytes}
use flux_gate.Config.Text.{is_space}
use flux_gate.Config.{ConfigError, invalid_integer, out_of_range}

-- A `long`, by its sign and magnitude.
pub record Long : Type 0 where
  pub negative : Bool
  pub magnitude : ℕ

abbrev pub is_digit : ℕ → Bool
is_digit c = leb b'0' c && leb c b'9'

-- The value of the digits at the front, and how many they are.
unfoldable pub read_digits : Bytes → ℕ × ℕ → ℕ × ℕ
read_digits [] so_far = so_far
read_digits (c ∷ cs) (value, count) =
    let rest = read_digits cs (10 * value + (c - b'0'), suc count) in
    if is_digit c then rest else (value, count)

-- After the sign, of which `before` bytes are consumed: `std::invalid_argument` without a digit,
-- `std::out_of_range` beyond the bounds of a `long`.
unfoldable pub read_magnitude : Bool → ℕ → Bytes → Option (Long × ℕ)
unfolding read_digits
read_magnitude negative before value =
    let digits = read_digits value (0, 0) in
    if digits.1 == 0
    then none
    else if leb digits.0 (if negative then 2 ^ 63 else 2 ^ 63 - 1)
    then some (record { negative = negative; magnitude = digits.0 }, before + digits.1)
    else none

abbrev pub read_sign : ℕ → Bytes → Option (Long × ℕ)
read_sign before [] = none
read_sign before (c ∷ cs) =
    if c == b'-'
    then read_magnitude true (suc before) cs
    else if c == b'+'
    then read_magnitude false (suc before) cs
    else read_magnitude false before (c ∷ cs)

abbrev pub skip_spaces : ℕ → Bytes → ℕ × Bytes
skip_spaces before [] = (before, [])
skip_spaces before (c ∷ cs) =
    let rest = skip_spaces (suc before) cs in if is_space c then rest else (before, c ∷ cs)

-- `std::stol(value, &consumed, 10)`: none where it throws.
unfoldable pub stol : Bytes → Option (Long × ℕ)
unfolding read_magnitude
stol value = let (before, rest) = skip_spaces 0 value in read_sign before rest

-- The tests `result < minimum` and `result > maximum`, with bounds that are not negative.
abbrev pub is_less : Long → ℕ → Bool
is_less n minimum = (n.negative && ltb 0 n.magnitude) || ltb n.magnitude minimum

abbrev pub is_more : Long → ℕ → Bool
is_more n maximum = not (n.negative && ltb 0 n.magnitude) && ltb maximum n.magnitude

-- The value, once it is within the bounds.
abbrev pub check_long : Bytes → Bytes → ℕ → ℕ → Option (Long × ℕ) → Result ConfigError ℕ
check_long value key minimum maximum none = err (invalid_integer key value)
check_long value key minimum maximum (some (result, consumed)) =
    if not (consumed == length value) || is_less result minimum || is_more result maximum
    then err (out_of_range key value)
    else ok result.magnitude

unfoldable pub parse_long : Bytes → Bytes → ℕ → ℕ → Result ConfigError ℕ
unfolding stol
parse_long value key minimum maximum = check_long value key minimum maximum (stol value)

-- A member that takes the value.
abbrev pub store_long {ℓ} : {A : Type ℓ} → Bytes → Bytes → ℕ → ℕ → (ℕ → A) → Result ConfigError A
store_long value key minimum maximum f = parse_long value key minimum maximum >>= λ n. ok (f n)
