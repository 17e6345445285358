-- ===== src/Config/Valid/Names.antt =====
-- The test for duplicate names in src/Config.cpp.
use mathlib.Core.Path.{subst}
use flux_gate.Base.{
  ℕ, zero, suc, ◌≡◌, refl, sym, ap, ◌∙◌, inl, inr, true, false, List, [], ◌∷◌, some, get_elem?,
  ==_refl, arith, Result, ok, err, Ensures, Bool-cases,
}
use flux_gate.Backend.{Bytes, BackendConfig}
use flux_gate.Config.{ConfigError}
use flux_gate.Config.Text.{same_bytes}
use flux_gate.Config.Loader.{contains, check_names}

pub same_bytes_refl : (xs : Bytes) → same_bytes xs xs ≡ true
unfolding same_bytes
same_bytes_refl [] = refl
same_bytes_refl (x ∷ xs) = rw (==_refl x) (same_bytes_refl xs)

-- No backend of the list has a name that was met before.
abbrev Unmet : List Bytes → List BackendConfig → Type 0
Unmet seen bs = (i : ℕ) (b : BackendConfig) → get_elem? bs i ≡ some b → contains b.name seen ≡ false

abbrev pub HasDistinctNames : List BackendConfig → Type 0
HasDistinctNames bs =
    (i j : ℕ) (b c : BackendConfig)
    → get_elem? bs i ≡ some b
    → get_elem? bs j ≡ some c
    → b.name ≡ c.name
    → i ≡ j

met_before : (x y : Bytes) (seen : List Bytes) → contains y (x ∷ seen) ≡ false → x ≡ y → ⊥
met_before x y seen h e =
    let same : same_bytes y x ≡ true = rw e (same_bytes_refl y) in cc (rw same at h)

met_after :
    (x y : Bytes) (seen : List Bytes) → contains y (x ∷ seen) ≡ false → contains y seen ≡ false
met_after x y seen h = ground (arith, h)

module _ (seen : List Bytes) (b : BackendConfig) (bs : List BackendConfig)
    (new : contains b.name seen ≡ false) (u : Unmet (b.name ∷ seen) bs)
    (d : HasDistinctNames bs) where
  Unmet-cons : Unmet seen (b ∷ bs)
  Unmet-cons zero c at = let e : b ≡ c = cc in subst (λ x. contains x.name seen ≡ false) e new
  Unmet-cons (suc i) c at = met_after b.name c.name seen (u i c at)

  distinct_all : HasDistinctNames (b ∷ bs)
  distinct_all zero zero a c at at' e = refl
  distinct_all zero (suc j) a c at at' e =
      let s : b ≡ a = cc in
      absurd (met_before b.name c.name seen (u j c at') (ap (λ x. x.name) s ∙ e))
  distinct_all (suc i) zero a c at at' e =
      let s : b ≡ c = cc in
      absurd (met_before b.name a.name seen (u i a at) (ap (λ x. x.name) s ∙ sym e))
  distinct_all (suc i) (suc j) a c at at' e = ap suc (d i j a c at at' e)

pub check_names_lem :
    (seen : List Bytes) (bs : List BackendConfig)
    → Ensures (λ u. Unmet seen bs × HasDistinctNames bs) (check_names seen bs)
unfolding check_names Ensures
check_names_lem seen [] = ((λ i b at. cc), (λ i j b c at at' e. cc))
check_names_lem seen (b ∷ bs) = elim (Bool-cases (contains b.name seen)) [
  | inl met ↦ rw met tt
  | inr new ↦
      rw new (grow (check_names (b.name ∷ seen) bs) (check_names_lem (b.name ∷ seen) bs) new)
]
  where
    grow :
        (r : Result ConfigError (Unit {0}))
        → Ensures (λ u. Unmet (b.name ∷ seen) bs × HasDistinctNames bs) r
        → contains b.name seen ≡ false
        → Ensures (λ u. Unmet seen (b ∷ bs) × HasDistinctNames (b ∷ bs)) r
    grow (ok u) h new = (Unmet-cons seen b bs new h.0 h.1, distinct_all seen b bs new h.0 h.1)
    grow (err e) h new = tt
