-- ===== src/Base/Words.antt =====
-- `std::size_t` and `std::uint64_t` on a 64-bit target: sums and differences modulo 2 ^ 64.
use Prim.Native.Nat.{ℕ, ◌+◌, ◌-◌, ◌*◌, ◌%◌, ◌^◌, ◌≤◌, ◌<◌}
use mathlib.Core.Path.{◌≡◌}
use native.Mathlib.Omega.{arith}
use native.Mathlib.Nat.{mod-eq_of_lt}

abbrev pub word_mod : ℕ
word_mod = 2 ^ 64

unfoldable pub add64 : ℕ → ℕ → ℕ
add64 a b = (a + b) % word_mod

unfoldable pub sub64 : ℕ → ℕ → ℕ
sub64 a b = (a + word_mod - b) % word_mod

unfoldable pub mul64 : ℕ → ℕ → ℕ
mul64 a b = (a * b) % word_mod

pub add64-eq : (a b : ℕ) → a + b < word_mod → add64 a b ≡ a + b
unfolding add64
add64-eq a b h = omega arith

pub sub64-eq : (a b : ℕ) → b ≤ a → a < word_mod → sub64 a b ≡ a - b
unfolding sub64
sub64-eq a b h k = omega arith

pub mul64-eq : (a b : ℕ) → a * b < word_mod → mul64 a b ≡ a * b
unfolding mul64
mul64-eq a b h = mod-eq_of_lt h

pub add64-lt : (a b : ℕ) → add64 a b < word_mod
unfolding add64
add64-lt a b = omega arith

pub sub64-lt : (a b : ℕ) → sub64 a b < word_mod
unfolding sub64
sub64-lt a b = omega arith

pub ruleset words = (arith, add64-eq, sub64-eq)
