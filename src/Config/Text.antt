-- ===== src/Config/Text.antt =====
-- The texts of a configuration file: `trim`, `lower` (src/Config.cpp), and the calls of
-- std::string that `ConfigLoader::load` makes. A text is the list of its bytes, in the C locale.
use Prim.Native.Char.{code}
use Prim.Native.String.{String}
use flux_gate.Base.{
  ℕ, ◌+◌, Bool, true, false, ◌&&◌, ◌||◌, [], ◌∷◌, map, Option, none, some, leb, ◌==◌, if◌then◌else◌,
}
use flux_gate.Backend.{Bytes}

-- The bytes of an ASCII literal.
abbrev pub codes : String → Bytes
codes String.[] = []
codes (String.◌∷◌ c s) = code c ∷ codes s

unfoldable pub same_bytes : Bytes → Bytes → Bool
same_bytes [] [] = true
same_bytes [] (y ∷ ys) = false
same_bytes (x ∷ xs) [] = false
same_bytes (x ∷ xs) (y ∷ ys) = (x == y) && same_bytes xs ys

abbrev pub is_blank : Bytes → Bool
is_blank [] = true
is_blank (c ∷ cs) = false

-- `std::isspace`.
abbrev pub is_space : ℕ → Bool
is_space c = (leb 9 c && leb c 13) || (c == 32)

unfoldable pub trim_start : Bytes → Bytes
trim_start [] = []
trim_start (c ∷ cs) = let rest = trim_start cs in if is_space c then rest else c ∷ cs

unfoldable pub trim_end : Bytes → Bytes
trim_end [] = []
trim_end (c ∷ cs) = let rest = trim_end cs in if is_blank rest && is_space c then [] else c ∷ rest

unfoldable pub trim : Bytes → Bytes
unfolding trim_start trim_end
trim value = trim_end (trim_start value)

-- `std::tolower`.
abbrev pub to_lower : ℕ → ℕ
to_lower c = if leb b'A' c && leb c b'Z' then c + 32 else c

unfoldable pub lower : Bytes → Bytes
lower value = map to_lower value

-- The line up to the first `#` or `;`.
unfoldable pub cut_comment : Bytes → Bytes
cut_comment [] = []
cut_comment (c ∷ cs) = if (c == b'#') || (c == b';') then [] else c ∷ cut_comment cs

abbrev pub starts_with : ℕ → Bytes → Bool
starts_with c [] = false
starts_with c (x ∷ xs) = x == c

abbrev pub ends_with : ℕ → Bytes → Bool
ends_with c [] = false
ends_with c (x ∷ []) = x == c
ends_with c (x ∷ y ∷ ys) = ends_with c (y ∷ ys)

-- The texts before and after the first `=`.
unfoldable pub split_pair : Bytes → Option (Bytes × Bytes)
split_pair [] = none
split_pair (c ∷ cs) = elim (split_pair cs) [
  | none ↦ if c == b'=' then some ([], cs) else none
  | some (key, value) ↦ if c == b'=' then some ([], cs) else some (c ∷ key, value)
]
