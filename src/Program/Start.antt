-- ===== src/Program/Start.antt =====
-- What the program (src/main.cpp) has when it starts to serve.
use flux_gate.Base.{
  ℕ, suc, ◌≡◌, refl, ap, inl, inr, Bool, true, false, List, [], ◌∷◌, Option, some, length,
  if◌then◌else◌, Result, ok, err, >>=-eq-ok, ok-injective, Option-cases,
}
use mathlib.Core.Path.{subst}
use flux_gate.Backend.{Bytes, BackendConfig, Backend, Endpoint, new_backend}
use flux_gate.Config.Loader.{load}
use flux_gate.Config.Valid.Loaded.{IsValid, load-IsValid}
use flux_gate.Config.{AppConfig}
use flux_gate.Logger.{LogLevel, parse_level}
use flux_gate.Logger.Levels.{IsParsed, parse_level-IsParsed_iff}
use flux_gate.Net.Address.{Resolver}
use flux_gate.Pool.{Pool, new_backends, new_pool}
use flux_gate.Program.{
  Options, Parsed, runs, exits, StartError, bad_argument, bad_config, bad_level, bad_pool, Outcome,
  usage, version, checked, serves, rethrow, resolve_with, configure, after_options, parse_options,
  start_program,
}

-- The backends of a configuration, each at the address that was resolved for it.
abbrev pub AllMade : (Bytes → ℕ → Option Endpoint) → List BackendConfig → List Backend → Type 0
AllMade resolve [] [] = Unit {0}
AllMade resolve [] (b ∷ bs) = ⊥
AllMade resolve (c ∷ cs) [] = ⊥
AllMade resolve (c ∷ cs) (b ∷ bs) =
    ((b.config ≡ c)
      × (resolve c.host c.port ≡ some b.endpoint)
      × (b.healthy ≡ true)
      × (b.active_connections ≡ 0))
    × AllMade resolve cs bs

module _ (resolve : Bytes → ℕ → Option Endpoint) where
  new_backend-AllMade :
      (c : BackendConfig) (cs : List BackendConfig) (b : Backend) (bs : List Backend)
      → new_backend resolve c ≡ ok b
      → AllMade resolve cs bs
      → AllMade resolve (c ∷ cs) (b ∷ bs)
  unfolding new_backend
  new_backend-AllMade c cs b bs h rest = elim (Option-cases (resolve c.host c.port)) [
    | inl missing ↦ cc (rw (missing, new_backend) at h)
    | inr (e, found) ↦
        rw⁻¹ (ok-injective _ b (rw (found, new_backend) at h)) ((refl, found, refl, refl), rest)
  ]

  new_backends-AllMade :
      (cs : List BackendConfig) (bs : List Backend)
      → new_backends resolve cs ≡ ok bs
      → AllMade resolve cs bs
  unfolding new_backends
  new_backends-AllMade [] bs h = rw⁻¹ (ok-injective [] bs h) tt
  new_backends-AllMade (c ∷ cs) bs h =
      let (b, one, h1) = >>=-eq-ok (new_backend resolve c) _ bs h in
      let (more, others, h2) = >>=-eq-ok (new_backends resolve cs) _ bs h1 in
      subst (AllMade resolve (c ∷ cs)) (ok-injective (b ∷ more) bs h2)
        (new_backend-AllMade c cs b more one (new_backends-AllMade cs more others))

  new_pool-AllMade :
      (cs : List BackendConfig) (p : Pool)
      → new_pool resolve cs ≡ ok p
      → AllMade resolve cs p.backends
  unfolding new_pool
  new_pool-AllMade [] p h = cc
  new_pool-AllMade (c ∷ cs) p h =
      let (bs, made, h1) = >>=-eq-ok (new_backends resolve (c ∷ cs)) _ p h in
      subst (λ (q : Pool). AllMade resolve (c ∷ cs) q.backends) (ok-injective _ p h1)
        (new_backends-AllMade (c ∷ cs) bs made)

  length-AllMade :
      (cs : List BackendConfig) (bs : List Backend) → AllMade resolve cs bs → length bs ≡ length cs
  length-AllMade [] [] h = refl
  length-AllMade [] (b ∷ bs) h = absurd h
  length-AllMade (c ∷ cs) [] h = absurd h
  length-AllMade (c ∷ cs) (b ∷ bs) h = ap suc (length-AllMade cs bs h.1)

rethrow-eq-ok :
    {E A : Type 0} (f : E → StartError) (m : Result E A) (a : A) → rethrow f m ≡ ok a → m ≡ ok a
rethrow-eq-ok f (ok b) a h = ap ok (ok-injective b a h)
rethrow-eq-ok f (err e) a h = cc

module _ (r : Resolver) (read : Bytes → Option (List Bytes)) where
  -- A valid configuration, its level, and its backends, healthy and without connections.
  pub record IsConfigured (c : AppConfig) (level : LogLevel) (pool : Pool) : Type 0 where
    pub valid : IsValid c
    pub named : IsParsed c.log_level (ok level)
    pub made : AllMade (resolve_with r read) c.backends pool.backends

  -- What an outcome rests on; the number that a check reports is that of the backends.
  abbrev pub IsFounded : Outcome → Type 0
  IsFounded usage = Unit {0}
  IsFounded version = Unit {0}
  IsFounded (serves c level pool) = IsConfigured c level pool
  IsFounded (checked n) =
      (c : AppConfig) × (level : LogLevel) × (pool : Pool) × IsConfigured c level pool
      × (n ≡ length c.backends)

  IsFounded-if :
      (only : Bool) (c : AppConfig) (level : LogLevel) (pool : Pool)
      → IsConfigured c level pool
      → IsFounded (if only then checked (length pool.backends) else serves c level pool)
  IsFounded-if true c level pool h =
      (c, level, pool, h, length-AllMade (resolve_with r read) c.backends pool.backends h.made)
  IsFounded-if false c level pool h = h

  configure-IsFounded : (o : Options) (out : Outcome) → configure r read o ≡ ok out → IsFounded out
  unfolding configure
  configure-IsFounded o out h =
      let (c, loaded, h1) = >>=-eq-ok (rethrow bad_config (load (read o.config_path))) _ out h in
      let (level, named, h2) = >>=-eq-ok (rethrow bad_level (parse_level c.log_level)) _ out h1 in
      let (pool, made, h3) =
        >>=-eq-ok (rethrow bad_pool (new_pool (resolve_with r read) c.backends)) _ out h2 in
      subst IsFounded (ok-injective _ out h3) (
        IsFounded-if o.check_only c level pool (record {
          valid = load-IsValid (read o.config_path) c (rethrow-eq-ok bad_config _ c loaded);
          named =
              (parse_level-IsParsed_iff c.log_level level).0
                (rethrow-eq-ok bad_level _ level named);
          made =
              new_pool-AllMade (resolve_with r read) c.backends pool
                (rethrow-eq-ok bad_pool _ pool made);
        }))

  version_or :
      (shown : Bool) (m : Result StartError Outcome) (out : Outcome)
      → (if shown then ok version else m) ≡ ok out
      → (m ≡ ok out → IsFounded out)
      → IsFounded out
  version_or true m out h g = subst IsFounded (ok-injective version out h) tt
  version_or false m out h g = g h

  after_options-IsFounded :
      (p : Parsed) (out : Outcome) → after_options r read p ≡ ok out → IsFounded out
  after_options-IsFounded exits out h = subst IsFounded (ok-injective usage out h) tt
  after_options-IsFounded (runs o) out h =
      version_or o.show_version (configure r read o) out h (configure-IsFounded o out)

  -- When the start of `main` throws nothing: if it goes on to serve, the configuration is valid,
  -- the level is the one that its text names, and the pool has the configured backends in order,
  -- each resolved, healthy and without connections; if it reports a check, that holds too and the
  -- number is that of the configured backends.
  pub start_program-IsFounded :
      (arguments : List Bytes) (out : Outcome)
      → start_program r read arguments ≡ ok out
      → IsFounded out
  unfolding start_program
  start_program-IsFounded arguments out h =
      let (p, parsed, h1) = >>=-eq-ok (rethrow bad_argument (parse_options arguments)) _ out h in
      after_options-IsFounded p out h1
