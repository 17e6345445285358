-- ===== src/Logger/Levels.antt =====
-- The names of the levels and their parse (src/Logger.cpp).
use mathlib.Core.Path.{subst}
use flux_gate.Base.{
  ◌≡◌, refl, ap, ◌∙◌, ◌⊎◌, inl, inr, ◌↔◌, true, [], ◌∷◌, ◌==◌, ==_iff, Result, ok, err, Bool-cases,
}
use flux_gate.Backend.{Bytes}
use flux_gate.Config.Text.{codes, same_bytes, lower}
use flux_gate.Logger.{LogLevel, debug, info, warn, error, level_name, parse_level}

same_bytes→eq : (xs ys : Bytes) → same_bytes xs ys ≡ true → xs ≡ ys
unfolding same_bytes
same_bytes→eq [] [] h = refl
same_bytes→eq [] (y ∷ ys) h = cc
same_bytes→eq (x ∷ xs) [] h = cc
same_bytes→eq (x ∷ xs) (y ∷ ys) h = elim (Bool-cases (x == y)) [
  | inl same ↦
      ap (λ z. z ∷ xs) ((==_iff x y).0 same)
      ∙ ap (λ zs. y ∷ zs) (same_bytes→eq xs ys (rw same at h))
  | inr other ↦ cc (rw other at h)
]

-- What a text has been found to be: a level by its name, in any case, or by the word `warning`.
abbrev pub IsParsed : Bytes → Result Bytes LogLevel → Type 0
IsParsed v (ok warn) = (lower v ≡ lower (level_name warn)) ⊎ (lower v ≡ codes "warning")
IsParsed v (ok debug) = lower v ≡ lower (level_name debug)
IsParsed v (ok info) = lower v ≡ lower (level_name info)
IsParsed v (ok error) = lower v ≡ lower (level_name error)
IsParsed v (err text) = text ≡ v

module _ (v : Bytes) where
  parse_level-IsParsed : IsParsed v (parse_level v)
  unfolding parse_level level_name lower
  parse_level-IsParsed = elim (Bool-cases (same_bytes (lower v) (codes "debug"))) [
    | inl is_debug ↦ rw is_debug (same_bytes→eq _ _ is_debug)
    | inr no_debug ↦ elim (Bool-cases (same_bytes (lower v) (codes "info"))) [
      | inl is_info ↦ rw (no_debug, is_info) (same_bytes→eq _ _ is_info)
      | inr no_info ↦ elim (Bool-cases (same_bytes (lower v) (codes "warn"))) [
        | inl is_warn ↦ rw (no_debug, no_info, is_warn) (inl (same_bytes→eq _ _ is_warn))
        | inr no_warn ↦ elim (Bool-cases (same_bytes (lower v) (codes "warning"))) [
          | inl is_warning ↦
              rw (no_debug, no_info, no_warn, is_warning) (inr (same_bytes→eq _ _ is_warning))
          | inr no_warning ↦ elim (Bool-cases (same_bytes (lower v) (codes "error"))) [
            | inl is_error ↦
                rw (no_debug, no_info, no_warn, no_warning, is_error) (same_bytes→eq _ _ is_error)
            | inr no_error ↦ rw (no_debug, no_info, no_warn, no_warning, no_error) refl
          ]
        ]
      ]
    ]
  ]

  parse_level-name : (l : LogLevel) → IsParsed v (ok l) → parse_level v ≡ ok l
  unfolding parse_level level_name lower same_bytes
  parse_level-name debug h = rw h refl
  parse_level-name info h = rw h refl
  parse_level-name warn (inl h) = rw h refl
  parse_level-name warn (inr h) = rw h refl
  parse_level-name error h = rw h refl

  -- `parseLevel` returns a level for just the texts that are, in any case, that level's name, or
  -- `warning` for the level of warnings.
  pub parse_level-IsParsed_iff : (l : LogLevel) → (parse_level v ≡ ok l) ↔ IsParsed v (ok l)
  parse_level-IsParsed_iff l = (λ e. subst (IsParsed v) e parse_level-IsParsed, parse_level-name l)
