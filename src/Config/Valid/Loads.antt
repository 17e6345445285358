-- ===== src/Config/Valid/Loads.antt =====
-- What the loop of `ConfigLoader::load` (src/Config.cpp) keeps from line to line.
use flux_gate.Base.{
  ℕ, suc, ◌-◌, ◌≡◌, ◌≢◌, Bool, true, false, not, ◌&&◌, ◌||◌, List, [], ◌∷◌, ◌++◌, Option, none,
  some, length, take, drop, arith, ok, Ensures, Ensures-bind, Ensures-if, Ensures-ok, Ensures-err,
}
use flux_gate.Backend.{Bytes, BackendConfig}
use flux_gate.Config.{AppConfig, ConfigError}
use flux_gate.Config.Text.{
  codes, same_bytes, is_blank, trim, lower, cut_comment, starts_with, ends_with, split_pair,
}
use flux_gate.Config.Assign.{to_uint16, assign_server_value, assign_health_value}
use flux_gate.Config.Loader.{
  Loading, new_loading, new_current, finish_backend, enter_backend, enter_section,
  assign_backend_value, store_config, assign_value, load_pair, load_trimmed, load_lines,
}
use flux_gate.Config.Valid.{Within, IsServed, AllServed, IsBounded}
use flux_gate.Config.Valid.Bounds.{
  to_uint16-Within, or_store, assign_server_value-IsBounded, assign_health_value-IsBounded,
}

pub record IsLoading (l : Loading) : Type 0 where
  bounded : IsBounded l.config
  weight : Within 1 1000 l.current.weight
  hosted : l.has_host ≡ true → l.current.host ≢ []
  ported : l.has_port ≡ true → Within 1 65535 l.current.port

blank_nil : (b : Bytes) → is_blank b ≡ false → b ≢ []
blank_nil b h e = cc

AllServed-append :
    (bs : List BackendConfig) (b : BackendConfig)
    → AllServed bs
    → IsServed b
    → AllServed (bs ++ (b ∷ []))
AllServed-append [] b all h = (h, tt)
AllServed-append (c ∷ bs) b all h = (all.0, AllServed-append bs b all.1 h)

pub finish_backend-IsBounded : (l : Loading) → IsLoading l → Ensures IsBounded (finish_backend l)
unfolding finish_backend
finish_backend-IsBounded l r =
    Ensures-if IsBounded (not l.inside_backend) (ok l.config) _
      (λ e. Ensures-ok ConfigError IsBounded l.config r.bounded)
      (λ e.
        Ensures-if IsBounded (is_blank l.current.name || not l.has_host || not l.has_port) _ _
          (λ bad. Ensures-err IsBounded _)
          (λ fine. Ensures-ok ConfigError IsBounded _ (record {
            bounds = r.bounded.bounds;
            served = AllServed-append l.config.backends l.current r.bounded.served (record {
              named = blank_nil l.current.name (ground arith);
              hosted = r.hosted (ground arith);
              port = r.ported (ground arith);
              weight = r.weight;
            });
          })))

pub fresh-IsLoading :
    (c : AppConfig) (section name : Bytes) (inside : Bool)
    → IsBounded c
    → IsLoading (record new_loading {
      config = c;
      section = section;
      current = new_current name;
      inside_backend = inside;
    })
fresh-IsLoading c section name inside b = record {
  bounded = b;
  weight = omega arith;
  hosted = λ h. cc;
  ported = λ h. cc;
}

enter_section-IsLoading :
    (number : ℕ) (section : Bytes) (c : AppConfig)
    → IsBounded c
    → Ensures IsLoading (enter_section number section c)
unfolding enter_section enter_backend
enter_section-IsLoading number section c b =
    Ensures-if IsLoading
      (same_bytes (lower section) (codes "server")
        || same_bytes (lower section) (codes "health_check"))
      _ _ (λ e. Ensures-ok ConfigError IsLoading _ (fresh-IsLoading c (lower section) [] false b))
      (λ e.
        Ensures-if IsLoading (same_bytes (take 8 (lower section)) (codes "backend ")) _ _
          (λ e.
            Ensures-if IsLoading (is_blank (trim (drop 8 section))) _ _
              (λ e. Ensures-err IsLoading _)
              (λ e.
                Ensures-ok ConfigError IsLoading _
                  (fresh-IsLoading c (codes "backend") (trim (drop 8 section)) true b)))
          (λ e. Ensures-err IsLoading _))

module _ (number : ℕ) (l : Loading) (r : IsLoading l) where
  assign_backend_value-IsLoading :
      (key value : Bytes)
      → is_blank value ≡ false
      → Ensures IsLoading (assign_backend_value number l key value)
  unfolding assign_backend_value
  assign_backend_value-IsLoading key value full =
      Ensures-if IsLoading (same_bytes key (codes "host")) _ _
        (λ e.
          Ensures-ok ConfigError IsLoading
            (record l { current = record (l.current) { host = value }; has_host = true })
            (record {
              bounded = r.bounded;
              weight = r.weight;
              hosted = λ h. blank_nil value full;
              ported = r.ported;
            }))
        (λ e.
          or_store IsLoading (same_bytes key (codes "port")) value key 1 65535
            (λ n. record l { current = record (l.current) { port = to_uint16 n }; has_port = true })
            _
            (λ n h. record {
              bounded = r.bounded;
              weight = r.weight;
              hosted = r.hosted;
              ported = λ p. to_uint16-Within n h;
            })
            (or_store IsLoading (same_bytes key (codes "weight")) value key 1 1000
              (λ n. record l { current = record (l.current) { weight = n } }) _
              (λ n h. record {
                bounded = r.bounded;
                weight = h;
                hosted = r.hosted;
                ported = r.ported;
              })
              (Ensures-err IsLoading _)))

  store_config-IsLoading : (c : AppConfig) → IsBounded c → Ensures IsLoading (store_config l c)
  store_config-IsLoading c b =
      Ensures-ok ConfigError IsLoading (record l { config = c })
        (record { bounded = b; weight = r.weight; hosted = r.hosted; ported = r.ported })

  assign_value-IsLoading : (key value : Bytes) → Ensures IsLoading (assign_value number l key value)
  unfolding assign_value
  assign_value-IsLoading key value =
      Ensures-if IsLoading (is_blank key || is_blank value) _ _ (λ e. Ensures-err IsLoading _)
        (λ full.
          Ensures-if IsLoading (same_bytes l.section (codes "server")) _ _
            (λ e.
              Ensures-bind IsBounded IsLoading (assign_server_value l.config key value)
                (store_config l) (assign_server_value-IsBounded l.config r.bounded key value)
                store_config-IsLoading)
            (λ e.
              Ensures-if IsLoading (same_bytes l.section (codes "health_check")) _ _
                (λ e.
                  Ensures-bind IsBounded IsLoading (assign_health_value l.config key value)
                    (store_config l) (assign_health_value-IsBounded l.config r.bounded key value)
                    store_config-IsLoading)
                (λ e.
                  Ensures-if IsLoading (same_bytes l.section (codes "backend") && l.inside_backend)
                    _ _ (λ e. assign_backend_value-IsLoading key value (ground (arith, full)))
                    (λ e. Ensures-err IsLoading _))))

  load_pair-IsLoading : (o : Option (Bytes × Bytes)) → Ensures IsLoading (load_pair number l o)
  load_pair-IsLoading none = Ensures-err IsLoading _
  load_pair-IsLoading (some (key, value)) = assign_value-IsLoading (lower (trim key)) (trim value)

  load_trimmed-IsLoading : (line : Bytes) → Ensures IsLoading (load_trimmed number l line)
  unfolding load_trimmed
  load_trimmed-IsLoading line =
      Ensures-if IsLoading (is_blank line) _ _ (λ e. Ensures-ok ConfigError IsLoading l r)
        (λ e.
          Ensures-if IsLoading (starts_with b'[' line && ends_with b']' line) _ _
            (λ e.
              Ensures-bind IsBounded IsLoading (finish_backend l) _ (finish_backend-IsBounded l r)
                (enter_section-IsLoading number (trim (take (length line - 2) (drop 1 line)))))
            (λ e. load_pair-IsLoading (split_pair line)))

pub load_lines-IsLoading :
    (number : ℕ) (lines : List Bytes) (l : Loading)
    → IsLoading l
    → Ensures IsLoading (load_lines number lines l)
unfolding load_lines
load_lines-IsLoading number [] l r = Ensures-ok ConfigError IsLoading l r
load_lines-IsLoading number (line ∷ lines) l r =
    Ensures-bind IsLoading IsLoading (load_trimmed number l (trim (cut_comment line))) _
      (load_trimmed-IsLoading number l r (trim (cut_comment line)))
      (load_lines-IsLoading (suc number) lines)
