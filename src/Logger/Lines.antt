-- ===== src/Logger/Lines.antt =====
-- The lines of the log (src/Logger.cpp): the file's name, and the threshold.
use mathlib.Core.Path.{subst}
use flux_gate.Base.{
  ℕ, ◌≡◌, refl, sym, ap, ◌∙◌, ◌⊎◌, inl, inr, true, false, List, [], ◌∷◌, ◌++◌, ltb, ◌==◌,
  if◌then◌else◌, append-nil, append_assoc, Bool-cases, ==_iff,
}
use flux_gate.Backend.{Bytes}
use flux_gate.Config.Text.{ends_with}
use flux_gate.Logger.{
  LogLevel, Entry, Logger, severity, base_from, base_name, format_line, vlog, set_level,
}

abbrev pub HasNoSlash : Bytes → Type 0
HasNoSlash [] = Unit {0}
HasNoSlash (c ∷ cs) = ((c == b'/') ≡ false) × HasNoSlash cs

-- The last part of a path: what stands before it, if anything, ends in a slash.
pub record IsLastPart (path part : Bytes) : Type 0 where
  pub folder : Bytes
  pub whole : path ≡ folder ++ part
  pub parted : (folder ≡ []) ⊎ (ends_with b'/' folder ≡ true)
  pub plain : HasNoSlash part

HasNoSlash-append :
    (xs : Bytes) (c : ℕ) → HasNoSlash xs → (c == b'/') ≡ false → HasNoSlash (xs ++ (c ∷ []))
HasNoSlash-append [] c h g = (g, tt)
HasNoSlash-append (x ∷ xs) c h g = (h.0, HasNoSlash-append xs c h.1 g)

-- A folder that a slash ends, and what comes after it.
ends_with-append : (xs ys : Bytes) → ends_with b'/' ys ≡ true → ends_with b'/' (xs ++ ys) ≡ true
ends_with-append [] ys h = h
ends_with-append (x ∷ []) [] h = cc
ends_with-append (x ∷ []) (y ∷ ys) h = h
ends_with-append (x ∷ z ∷ xs) ys h = ends_with-append (z ∷ xs) ys h

ends_with-slash :
    (folder : Bytes)
    → (folder ≡ []) ⊎ (ends_with b'/' folder ≡ true)
    → ends_with b'/' (b'/' ∷ folder) ≡ true
ends_with-slash [] h = refl
ends_with-slash (c ∷ cs) (inl h) = cc
ends_with-slash (c ∷ cs) (inr h) = h

-- A part after a slash is the last part of the whole.
IsLastPart-after :
    (seen cs part : Bytes) → IsLastPart cs part → IsLastPart (seen ++ (b'/' ∷ cs)) part
IsLastPart-after seen cs part h = record {
  folder = seen ++ (b'/' ∷ h.folder);
  whole = ap (λ t. seen ++ (b'/' ∷ t)) h.whole ∙ sym (append_assoc seen (b'/' ∷ h.folder) part);
  parted = inr (ends_with-append seen (b'/' ∷ h.folder) (ends_with-slash h.folder h.parted));
  plain = h.plain;
}

base_from-IsLastPart :
    (rest seen : Bytes)
    → HasNoSlash seen
    → IsLastPart (seen ++ rest) (base_from (seen ++ rest) rest)
base_from-IsLastPart [] seen h = record {
  folder = [];
  whole = refl;
  parted = inl refl;
  plain = subst HasNoSlash (sym (append-nil seen)) h;
}
base_from-IsLastPart (c ∷ cs) seen h = elim (Bool-cases (c == b'/')) [
  | inl slash ↦
      rw (slash, (==_iff c b'/').0 slash)
        (IsLastPart-after seen cs _ (base_from-IsLastPart cs [] tt))
  | inr other ↦
      let r = base_from-IsLastPart cs (seen ++ (c ∷ [])) (HasNoSlash-append seen c h other) in
      rw other (subst (λ t. IsLastPart t (base_from t cs)) (append_assoc seen (c ∷ []) cs) r)
]

-- `baseName` returns the part of the path after its last slash: it has no slash, and what stands
-- before it is empty or ends in one.
pub base_name-IsLastPart : (path : Bytes) → IsLastPart path (base_name path)
unfolding base_name
base_name-IsLastPart path = base_from-IsLastPart path [] tt

-- The calls of the log in order.
abbrev pub run_logs : List Entry → Logger → Logger
run_logs [] this = this
run_logs (e ∷ es) this = run_logs es (vlog e this)

-- The lines of the entries that are at least of a level.
abbrev pub lines_from : LogLevel → List Entry → Bytes
lines_from level [] = []
lines_from level (e ∷ es) =
    (if ltb (severity e.level) (severity level) then [] else format_line e) ++ lines_from level es

vlog-below :
    (e : Entry) (this : Logger)
    → ltb (severity e.level) (severity this.level) ≡ true
    → vlog e this ≡ this
unfolding vlog
vlog-below e this h = rw h refl

vlog-above :
    (e : Entry) (this : Logger)
    → ltb (severity e.level) (severity this.level) ≡ false
    → vlog e this ≡ record this { written = this.written ++ format_line e }
unfolding vlog
vlog-above e this h = rw h refl

run_logs-written :
    (es : List Entry) (this : Logger)
    → (run_logs es this).written ≡ this.written ++ lines_from this.level es
run_logs-written [] this = sym (append-nil this.written)
run_logs-written (e ∷ es) this = elim (Bool-cases (ltb (severity e.level) (severity this.level))) [
  | inl below ↦
      rw below
        (ap (λ t. (run_logs es t).written) (vlog-below e this below) ∙ run_logs-written es this)
  | inr above ↦
      let that : Logger = record this { written = this.written ++ format_line e } in
      rw above (
        ap (λ t. (run_logs es t).written) (vlog-above e this above)
        ∙ run_logs-written es that
        ∙ append_assoc this.written (format_line e) (lines_from this.level es))
]

-- After a call of `setLevel`, a sequence of log calls adds to the output the lines of just the
-- entries that are at least of that level, in order.
pub run_logs-lines_from :
    (es : List Entry) (level : LogLevel) (this : Logger)
    → (run_logs es (set_level level this)).written ≡ this.written ++ lines_from level es
unfolding set_level
run_logs-lines_from es level this = run_logs-written es (record this { level = level })
