-- ===== src/Pool/Least.antt =====
-- The choice that `BackendPool::acquire` (src/BackendPool.cpp) makes.
use native.Mathlib.Nat.{
  add-zero, zero-add, mod-lt, mod-eq_of_lt, add-mod_right, add-mod-mod, mod-eq-sub-mod,
}
use flux_gate.Base.{
  ℕ, zero, suc, ◌+◌, ◌-◌, ◌%◌, ◌<◌, ◌≡◌, refl, sym, ap, ◌∙◌, inl, inr, ◌↔◌, true, false, List, [],
  ◌∷◌, Option, none, some, length, get_elem?, arith, get_elem?-some, get_elem?-lt-length,
  Option-cases, Bool-cases, ltb, ltb→lt, ltb→le, add64,
}
use flux_gate.Backend.{Backend}
use flux_gate.Pool.{Pool, Lease, select_from, new_lease, acquire, has_healthy, has_healthy_backend}
use flux_gate.Pool.Load.{AllSmall, LoadLe, LoadLt}
use flux_gate.Pool.Choice.{Best, Wins, consider-Best}

mod_wrap : (n a : ℕ) → a < n → (a + n) % n ≡ a
mod_wrap n a h = add-mod_right a n ∙ mod-eq_of_lt h

-- The offset at which the loop meets index `j`.
pub turn_from : ℕ → ℕ → ℕ → ℕ
turn_from n start j = (j + n - start) % n

module _ (n start : ℕ) (h : start < n) where
  visit-turn : (j : ℕ) → j < n → (start + turn_from n start j) % n ≡ j
  unfolding turn_from
  visit-turn j k =
      let e : start + (j + n - start) ≡ j + n = omega arith in
      add-mod-mod start (j + n - start) n ∙ ap (λ t. t % n) e ∙ mod_wrap n j k

  turn-visit : (o : ℕ) → o < n → turn_from n start ((start + o) % n) ≡ o
  unfolding turn_from
  turn-visit o k = elim (Bool-cases (ltb (start + o) n)) [
    | inl below ↦
        let e : start + o + n - start ≡ o + n = omega arith in
        let m : (start + o) % n ≡ start + o = mod-eq_of_lt (ltb→lt _ _ below) in
        rw m (ap (λ t. t % n) e ∙ mod_wrap n o k)
    | inr past ↦
        let over = ltb→le (start + o) n past in
        let small : start + o - n < n = omega arith in
        let e : start + o - n + n - start ≡ o = omega (arith, over) in
        let m : (start + o) % n ≡ start + o - n = mod-eq-sub-mod over ∙ mod-eq_of_lt small in
        rw m (ap (λ t. t % n) e ∙ mod-eq_of_lt k)
  ]

  turn-lt : (j : ℕ) → turn_from n start j < n
  unfolding turn_from
  turn-lt j = mod-lt (j + n - start) (omega arith)

-- The place of index `j` in the order in which the next `acquire` looks at the backends.
abbrev pub turn : Pool → ℕ → ℕ
turn p j = turn_from (length p.backends) (p.tie_breaker % length p.backends) j

-- `b`, at index `i`, is healthy, no healthy backend has a lower load, and those that come before
-- it in the rotating order have a higher one.
pub record IsLeast (p : Pool) (i : ℕ) (b : Backend) : Type 0 where
  pub at : get_elem? p.backends i ≡ some b
  pub fit : b.healthy ≡ true
  pub least :
      (j : ℕ) (c : Backend) → get_elem? p.backends j ≡ some c → c.healthy ≡ true → LoadLe b c
  pub first :
      (j : ℕ) (c : Backend)
      → get_elem? p.backends j ≡ some c
      → c.healthy ≡ true
      → turn p j < turn p i
      → LoadLt b c

-- The backend that the loop of `acquire` ends with.
unfoldable pub selected : Pool → Option ℕ
selected p = select_from p.backends (p.tie_breaker % length p.backends) 0 (length p.backends) none

pub acquire-selected :
    (p : Pool)
    → acquire p ≡ new_lease (selected p) (record p { tie_breaker = add64 p.tie_breaker 1 })
unfolding acquire selected
acquire-selected p = refl

-- The index that the loop visits at an offset.
abbrev visit : List Backend → ℕ → ℕ → ℕ
visit bs start o = (start + o) % length bs

module _ (bs : List Backend) (start : ℕ) (small : AllSmall bs) (filled : 0 < length bs) where
  select_from-Best :
      (rounds k : ℕ) (s : Option ℕ)
      → Best bs (visit bs start) k s
      → Best bs (visit bs start) (k + rounds) (select_from bs start k rounds s)
  unfolding select_from
  select_from-Best zero k s h = rw add-zero h
  select_from-Best (suc rounds) k s h =
      let (c, at) = get_elem?-some bs (visit bs start k) (mod-lt (start + k) filled) in
      let e : k + suc rounds ≡ suc k + rounds = omega arith in
      rw e (select_from-Best rounds (suc k) _ (consider-Best bs (visit bs start) k c at small s h))

module _ (p : Pool) (small : AllSmall p.backends) (filled : 0 < length p.backends) where
  abbrev start_of : ℕ
  start_of = p.tie_breaker % length p.backends

  start_small : start_of < length p.backends
  start_small = mod-lt p.tie_breaker filled

  selected-Best : Best p.backends (visit p.backends start_of) (length p.backends) (selected p)
  unfolding selected
  selected-Best = rw zero-add at (
      select_from-Best p.backends start_of small filled (length p.backends) 0 none
        (λ o b lt. absurd (omega arith)))

  -- Each index is visited at its turn.
  met_at_turn :
      (j : ℕ) (c : Backend)
      → get_elem? p.backends j ≡ some c
      → get_elem? p.backends (visit p.backends start_of (turn p j)) ≡ some c
  met_at_turn j c at =
      rw
        (visit-turn (length p.backends) start_of start_small j
          (get_elem?-lt-length p.backends j c at))
        at

  turn_small : (j : ℕ) → turn p j < length p.backends
  turn_small j = turn-lt (length p.backends) start_of start_small j

  Wins-IsLeast :
      (i o : ℕ) (b : Backend)
      → i ≡ visit p.backends start_of o
      → Wins p.backends (visit p.backends start_of) (length p.backends) o b
      → IsLeast p i b
  Wins-IsLeast i o b e w = record {
    at = rw e w.here;
    fit = w.fit;
    least = λ j c at fit. w.least (turn p j) c (turn_small j) (met_at_turn j c at) fit;
    first = λ j c at fit earlier.
        w.first (turn p j) c (rw (e, turned) at earlier) (met_at_turn j c at) fit;
  }
    where
      turned : turn p (visit p.backends start_of o) ≡ o
      turned = turn-visit (length p.backends) start_of start_small o w.met

pub lease-new_lease : (l : Lease) (p : Pool) → (new_lease l p).1 ≡ l
unfolding new_lease
lease-new_lease none p = refl
lease-new_lease (some i) p = refl

pub lease-acquire : (p : Pool) → (acquire p).1 ≡ selected p
lease-acquire p = rw (acquire-selected p) (lease-new_lease (selected p) _)

has_healthy_none :
    (bs : List Backend)
    → ((j : ℕ) (c : Backend) → get_elem? bs j ≡ some c → c.healthy ≡ false)
    → has_healthy bs ≡ false
unfolding has_healthy
has_healthy_none [] h = refl
has_healthy_none (b ∷ bs) h =
    ground (arith, h 0 b refl, has_healthy_none bs (λ j c at. h (suc j) c at))

has_healthy_at :
    (bs : List Backend) (j : ℕ) (c : Backend)
    → get_elem? bs j ≡ some c
    → c.healthy ≡ true
    → has_healthy bs ≡ true
unfolding has_healthy
has_healthy_at [] j c at fit = cc
has_healthy_at (b ∷ bs) zero c at fit = ground arith
has_healthy_at (b ∷ bs) (suc j) c at fit = ground (arith, has_healthy_at bs j c at fit)

-- In a pool that is not empty, with weights and counts small enough for their products: a lease
-- that `acquire` gives is for a healthy backend of least active / weight, the first such in the
-- rotating order.
pub acquire-IsLeast :
    (p : Pool) (i : ℕ)
    → 0 < length p.backends
    → AllSmall p.backends
    → (acquire p).1 ≡ some i
    → (b : Backend) × IsLeast p i b
acquire-IsLeast p i filled small e =
    let (o, b, at, w) = rw (sym (lease-acquire p) ∙ e) at (selected-Best p small filled) in
    (b, Wins-IsLeast p small filled i o b at w)

-- In a pool that is not empty, with weights and counts small enough for their products: `acquire`
-- gives no lease exactly when `has_healthy_backend` finds no healthy backend.
pub acquire-none :
    (p : Pool)
    → 0 < length p.backends
    → AllSmall p.backends
    → ((acquire p).1 ≡ none) ↔ (has_healthy_backend p ≡ false)
unfolding has_healthy_backend
acquire-none p filled small = (to, from)
  where
    to : (acquire p).1 ≡ none → has_healthy p.backends ≡ false
    to e =
        let sick = rw (sym (lease-acquire p) ∙ e) at (selected-Best p small filled) in
        has_healthy_none p.backends (λ j c at.
          sick (turn p j) c (turn_small p small filled j) (met_at_turn p small filled j c at))

    from : has_healthy p.backends ≡ false → (acquire p).1 ≡ none
    from e = elim (Option-cases (acquire p).1) [
      | inl h ↦ h
      | inr (i, h) ↦
          let (b, l) = acquire-IsLeast p i filled small h in
          cc (has_healthy_at p.backends i b l.at l.fit, e)
    ]
