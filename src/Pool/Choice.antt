-- ===== src/Pool/Choice.antt =====
-- Which backend `BackendPool::acquire` (src/BackendPool.cpp) picks.
use flux_gate.Base.{
  ℕ, suc, ◌<◌, ◌≡◌, refl, ◌⊎◌, inl, inr, true, false, List, Option, none, some, get_elem?, arith,
  Bool-cases,
}
use flux_gate.Backend.{Backend}
use flux_gate.Pool.{is_less_loaded, prefer, consider}
use flux_gate.Pool.Load.{
  AllSmall, LoadLe, LoadLt, LoadLt-of_less, LoadLe-of_not_less, LoadLt-LoadLe-trans,
}

-- The loop's body, one equation for each branch.
module _ (bs : List Backend) (s : Option ℕ) (i : ℕ) (c : Backend)
    (at : get_elem? bs i ≡ some c) where
  consider_sick : c.healthy ≡ false → consider bs s i ≡ s
  unfolding consider
  consider_sick h = ground arith

  consider_fit : c.healthy ≡ true → consider bs s i ≡ prefer bs s i c
  unfolding consider
  consider_fit h = ground arith

module _ (bs : List Backend) (s i : ℕ) (c b : Backend) (at : get_elem? bs s ≡ some b) where
  prefer_less : is_less_loaded c b ≡ true → prefer bs (some s) i c ≡ some i
  unfolding prefer
  prefer_less h = ground arith

  prefer_more : is_less_loaded c b ≡ false → prefer bs (some s) i c ≡ some s
  unfolding prefer
  prefer_more h = ground arith

lt_suc_cases : (o k : ℕ) → o < suc k → (o < k) ⊎ (o ≡ k)
lt_suc_cases o k h = ground arith

same_backend : {o : Option Backend} {b c : Backend} → o ≡ some b → o ≡ some c → b ≡ c
same_backend h k = cc

module _ (bs : List Backend) (visit : ℕ → ℕ) where
  abbrev pub At : ℕ → Backend → Type 0
  At o b = get_elem? bs (visit o) ≡ some b

  -- The backend `b`, met at offset `o`, beats all those met at an offset below `k`.
  pub record Wins (k : ℕ) (o : ℕ) (b : Backend) : Type 0 where
    pub met : o < k
    pub here : At o b
    pub fit : b.healthy ≡ true
    pub least : (o' : ℕ) (c : Backend) → o' < k → At o' c → c.healthy ≡ true → LoadLe b c
    pub first : (o' : ℕ) (c : Backend) → o' < o → At o' c → c.healthy ≡ true → LoadLt b c

  -- The loop's invariant, when the offsets below `k` are done.
  abbrev pub Best : ℕ → Option ℕ → Type 0
  Best k none = (o : ℕ) (b : Backend) → o < k → At o b → b.healthy ≡ false
  Best k (some i) = (o : ℕ) × (b : Backend) × (i ≡ visit o) × Wins k o b

  At-self : (o k : ℕ) (b c : Backend) → o ≡ k → At o b → At k c → b ≡ c
  At-self o k b c e h h' = same_backend (rw e at h) h'

  module _ (k : ℕ) (c : Backend) (at : At k c) where
    skip-Best : (s : Option ℕ) → c.healthy ≡ false → Best k s → Best (suc k) s
    skip-Best none sick h = λ o b lt here. elim (lt_suc_cases o k lt) [
      | inl l ↦ h o b l here
      | inr e ↦ cc (At-self o k b c e here at, sick)
    ]
    skip-Best (some i) sick (o, b, e, w) = (
      o,
      b,
      e,
      record {
        met = omega (arith, w.met);
        here = w.here;
        fit = w.fit;
        least = λ o' d lt here fit. elim (lt_suc_cases o' k lt) [
          | inl l ↦ w.least o' d l here fit
          | inr q ↦ cc (At-self o' k d c q here at, sick, fit)
        ];
        first = w.first;
      },
    )

    -- The candidate takes over.
    take-Wins :
        c.healthy ≡ true
        → ((o : ℕ) (d : Backend) → o < k → At o d → d.healthy ≡ true → LoadLt c d)
        → Wins (suc k) k c
    take-Wins fit below = record {
      met = omega arith;
      here = at;
      fit = fit;
      least = λ o' d lt here f. elim (lt_suc_cases o' k lt) [
        | inl l ↦ omega (arith, below o' d l here f)
        | inr q ↦ rw (At-self o' k d c q here at) (omega arith)
      ];
      first = below;
    }

    keep-Wins : (o : ℕ) (b : Backend) → LoadLe b c → Wins k o b → Wins (suc k) o b
    keep-Wins o b le w = record {
      met = omega (arith, w.met);
      here = w.here;
      fit = w.fit;
      least = λ o' d lt here f. elim (lt_suc_cases o' k lt) [
        | inl l ↦ w.least o' d l here f
        | inr q ↦ rw (At-self o' k d c q here at) le
      ];
      first = w.first;
    }

    module _ (small : AllSmall bs) (fit : c.healthy ≡ true) where
      prefer-Best : (s : Option ℕ) → Best k s → Best (suc k) (prefer bs s (visit k) c)
      unfolding prefer
      prefer-Best none h = (k, c, refl, take-Wins fit (λ o d lt here f. cc (h o d lt here, f)))
      prefer-Best (some i) (o, b, e, w) = elim (Bool-cases (is_less_loaded c b)) [
        | inl less ↦
            rw (e, prefer_less bs (visit o) (visit k) c b w.here less)
              (
                k,
                c,
                refl,
                take-Wins fit (λ o' d lt here f.
                    LoadLt-LoadLe-trans c b d (small _ d here).weighted
                      (LoadLt-of_less c b (small _ c at) (small _ b w.here) less)
                      (w.least o' d lt here f)),
              )
        | inr more ↦
            rw (e, prefer_more bs (visit o) (visit k) c b w.here more)
              (
                o,
                b,
                refl,
                keep-Wins o b (LoadLe-of_not_less c b (small _ c at) (small _ b w.here) more) w,
              )
      ]

    pub consider-Best :
        AllSmall bs → (s : Option ℕ) → Best k s → Best (suc k) (consider bs s (visit k))
    consider-Best small s h = elim (Bool-cases c.healthy) [
      | inl fit ↦ rw (consider_fit bs s (visit k) c at fit) (prefer-Best small fit s h)
      | inr sick ↦ rw (consider_sick bs s (visit k) c at sick) (skip-Best s sick h)
    ]
