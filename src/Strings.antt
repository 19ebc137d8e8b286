-- ===== src/Strings.antt =====
-- The functions of Go's package strings that the repository calls, on ASCII texts; strings.ToLower,
-- whose texts need not be ASCII, is a parameter where it is used.
pub mod Parts
pub mod Index
use otel_k8s_graph.Base.{
  ℕ, zero, suc, ◌+◌, ◌-◌, Text, List, [], ◌∷◌, ◌++◌, map, Option, none, some, Bool, true, false,
  ◌&&◌, ◌||◌, text_DecEq, nat_DecEq, if◌then◌else◌, ◌==◌, leb, ◌or_else◌, map_option, length,
}

abbrev pub slash : ℕ
slash = b'/'

abbrev pub space : ℕ
space = b' '

-- strings.HasPrefix(s, prefix)
unfoldable pub has_prefix : Text → Text → Bool
has_prefix s [] = true
has_prefix [] (p ∷ ps) = false
has_prefix (c ∷ s) (p ∷ ps) = c == p && has_prefix s ps

unfoldable pub drop : ℕ → Text → Text
drop zero s = s
drop (suc n) [] = []
drop (suc n) (c ∷ s) = drop n s

unfoldable pub take {ℓ} : {A : Type ℓ} → ℕ → List A → List A
take zero s = []
take (suc n) [] = []
take (suc n) (c ∷ s) = c ∷ take n s

-- strings.TrimPrefix(s, prefix)
unfoldable pub trim_prefix : Text → Text → Text
unfolding has_prefix drop
trim_prefix s prefix = if has_prefix s prefix then drop (length prefix) s else s

-- strings.IndexFunc(s, p): the first position where `p` holds.
unfoldable pub index_func : (ℕ → Bool) → Text → Option ℕ
index_func p [] = none
index_func p (c ∷ s) = if p c then some 0 else map_option suc (index_func p s)

-- strings.IndexByte(s, b)
unfoldable pub index_byte : Text → ℕ → Option ℕ
unfolding index_func
index_byte s b = index_func (λ c. c == b) s

-- strings.LastIndexByte(s, b)
unfoldable pub last_index_byte : Text → ℕ → Option ℕ
last_index_byte [] b = none
last_index_byte (c ∷ s) b =
    map_option suc (last_index_byte s b) or_else (if c == b then some 0 else none)

-- unicode.IsSpace below 128
unfoldable pub is_space : ℕ → Bool
is_space c = leb b'\t' c && leb c b'\r' || c == space

unfoldable pub trim_left : Text → Text
unfolding is_space
trim_left [] = []
trim_left (c ∷ s) = let rest = trim_left s in if is_space c then rest else c ∷ s

-- Without the spaces at the end.
unfoldable pub trim_right : Text → Text
unfolding is_space
trim_right [] = []
trim_right (c ∷ s) = elim (trim_right s) [
  | [] ↦ if is_space c then [] else c ∷ []
  | d ∷ rest ↦ c ∷ d ∷ rest
]

-- strings.TrimSpace(s)
unfoldable pub trim_space : Text → Text
unfolding trim_left trim_right
trim_space s = trim_right (trim_left s)

unfoldable pub upper : ℕ → ℕ
upper c = if leb b'a' c && leb c b'z' then c - 32 else c

-- strings.ToUpper(s)
unfoldable pub to_upper : Text → Text
unfolding upper
to_upper = map upper

-- strings.Contains(s, needle)
unfoldable pub contains : Text → Text → Bool
unfolding has_prefix
contains [] needle = has_prefix [] needle
contains (c ∷ s) needle = has_prefix (c ∷ s) needle || contains s needle

abbrev pub push : ℕ → List Text → List Text
push c [] = (c ∷ []) ∷ []
push c (p ∷ ps) = (c ∷ p) ∷ ps

-- strings.Split(s, sep), for a separator of one byte
unfoldable pub split : Text → ℕ → List Text
split [] sep = [] ∷ []
split (c ∷ s) sep = let rest = split s sep in if c == sep then [] ∷ rest else push c rest

-- strings.Join(parts, sep), for a separator of one byte
unfoldable pub join : List Text → ℕ → Text
join [] sep = []
join (p ∷ []) sep = p
join (p ∷ q ∷ ps) sep = p ++ sep ∷ join (q ∷ ps) sep
