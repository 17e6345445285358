-- ===== src/Pool/Load.antt =====
-- The order by active / weight that the cross multiplication in `BackendPool::acquire` decides
-- (src/BackendPool.cpp), on counts that do not overflow.
use native.Mathlib.Nat.{mul-lt-mul_of_pos_right, mul-le-mul_right}
use flux_gate.Base.{
  ℕ, ◌*◌, ◌≤◌, ◌<◌, ◌≡◌, true, false, List, some, get_elem?, ltb, arith, word_mod, mul64, mul64-eq,
  Bool-cases, inl, inr, ltb→lt, ltb→le,
}
use flux_gate.Backend.{Backend}
use flux_gate.Pool.{is_less_loaded}

-- The sizes that the configuration and the descriptor limit of a process give.
pub record IsSmall (b : Backend) : Type 0 where
  pub weighted : 0 < b.weight
  pub light : b.weight ≤ 1000
  pub few : b.active_connections < 1_000_000_000_000

abbrev pub AllSmall : List Backend → Type 0
AllSmall bs = (i : ℕ) (b : Backend) → get_elem? bs i ≡ some b → IsSmall b

-- active / weight of `a` is at most, or below, that of `b`.
abbrev pub LoadLe : Backend → Backend → Type 0
LoadLe a b = a.active_connections * b.weight ≤ b.active_connections * a.weight

abbrev pub LoadLt : Backend → Backend → Type 0
LoadLt a b = a.active_connections * b.weight < b.active_connections * a.weight

product_small : (a w : ℕ) → a < 1_000_000_000_000 → w ≤ 1000 → a * w < word_mod
product_small a w h k = grind arith

mul64-small : (a w : ℕ) → a < 1_000_000_000_000 → w ≤ 1000 → mul64 a w ≡ a * w
mul64-small a w h k = mul64-eq a w (product_small a w h k)

module _ (a b : Backend) (h : IsSmall a) (k : IsSmall b) where
  pub LoadLt-of_less : is_less_loaded a b ≡ true → LoadLt a b
  unfolding is_less_loaded
  LoadLt-of_less e = omega (
    arith,
    ltb→lt _ _ e,
    mul64-small a.active_connections b.weight h.few k.light,
    mul64-small b.active_connections a.weight k.few h.light,
  )

  pub LoadLe-of_not_less : is_less_loaded a b ≡ false → LoadLe b a
  unfolding is_less_loaded
  LoadLe-of_not_less e = omega (
    arith,
    ltb→le _ _ e,
    mul64-small a.active_connections b.weight h.few k.light,
    mul64-small b.active_connections a.weight k.few h.light,
  )

-- a / x < b / y and b / y ≤ c / z give a / x < c / z.
cross_trans : (a b c x y z : ℕ) → 0 < z → a * y < b * x → b * z ≤ c * y → a * z < c * x
cross_trans a b c x y z hz h k = elim (Bool-cases (ltb (a * z) (c * x))) [
  | inl e ↦ ltb→lt _ _ e
  | inr e ↦ absurd (
      omega (
        arith,
        mul-lt-mul_of_pos_right h hz,
        mul-le-mul_right x k,
        mul-le-mul_right y (ltb→le _ _ e),
      ))
]

pub LoadLt-LoadLe-trans : (a b c : Backend) → 0 < c.weight → LoadLt a b → LoadLe b c → LoadLt a c
LoadLt-LoadLe-trans a b c = cross_trans a.active_connections b.active_connections _ _ b.weight _
