-- ===== src/Text.antt =====
-- Go strings, as lists of bytes, and the functions of package strings that the program calls.
-- Letter case is that of ASCII: every text that the program folds is a host name, a path, an
-- extension, an algorithm or a hexadecimal number.
pub mod Trim
pub mod Laws
pub mod Split
use Prim.Native.Char.{code}
use Prim.Native.String.{String}
use grabber.Base.{
  ℕ, ◌+◌, Bool, true, false, not, ◌&&◌, ◌||◌, List, [], ◌∷◌, ◌++◌, map, reverse, Option, none, some,
  leb, ◌==◌, if◌then◌else◌, length, drop,
}

abbrev pub Bytes : Type 0
Bytes = List ℕ

-- The bytes of a literal; every literal in the program is ASCII.
abbrev pub codes : String → Bytes
codes String.[] = []
codes (String.◌∷◌ c s) = code c ∷ codes s

-- `a == b` on strings.
unfoldable pub text_eq : Bytes → Bytes → Bool
text_eq [] [] = true
text_eq (x ∷ xs) (y ∷ ys) = x == y && text_eq xs ys
text_eq _ _ = false

unfoldable pub is_empty : Bytes → Bool
is_empty [] = true
is_empty (x ∷ xs) = false

-- `strings.HasPrefix`, with the prefix first.
unfoldable pub has_prefix : Bytes → Bytes → Bool
has_prefix [] s = true
has_prefix (p ∷ ps) [] = false
has_prefix (p ∷ ps) (c ∷ s) = p == c && has_prefix ps s

unfoldable pub has_suffix : Bytes → Bytes → Bool
unfolding has_prefix
has_suffix p s = has_prefix (reverse p) (reverse s)

unfoldable pub trim_prefix : Bytes → Bytes → Bytes
unfolding has_prefix
trim_prefix p s = if has_prefix p s then drop (length p) s else s

unfoldable pub trim_suffix : Bytes → Bytes → Bytes
unfolding trim_prefix
trim_suffix p s = reverse (trim_prefix (reverse p) (reverse s))

abbrev pub cons_left : ℕ → Option (Bytes × Bytes) → Option (Bytes × Bytes)
cons_left c none = none
cons_left c (some (a, b)) = some (c ∷ a, b)

-- `strings.Cut` at the first occurrence of `sep`; `none` for `found == false`.
unfoldable pub cut : Bytes → Bytes → Option (Bytes × Bytes)
unfolding has_prefix
cut sep [] = if has_prefix sep [] then some ([], []) else none
cut sep (c ∷ s) =
    if has_prefix sep (c ∷ s) then some ([], drop (length sep) (c ∷ s)) else cons_left c (cut sep s)

abbrev pub found : Option (Bytes × Bytes) → Bool
found none = false
found (some p) = true

unfoldable pub contains : Bytes → Bytes → Bool
unfolding cut
contains sep s = found (cut sep s)

abbrev pub cons_head : ℕ → List Bytes → List Bytes
cons_head c [] = (c ∷ []) ∷ []
cons_head c (w ∷ ws) = (c ∷ w) ∷ ws

-- `strings.Split` at a one-byte separator.
unfoldable pub split : ℕ → Bytes → List Bytes
split sep [] = [] ∷ []
split sep (c ∷ s) = let rest = split sep s in if c == sep then [] ∷ rest else cons_head c rest

-- `strings.Join` with a one-byte separator.
unfoldable pub join : ℕ → List Bytes → Bytes
join sep [] = []
join sep (w ∷ []) = w
join sep (w ∷ v ∷ ws) = w ++ sep ∷ join sep (v ∷ ws)

abbrev pub lower : ℕ → ℕ
lower c = if leb b'A' c && leb c b'Z' then c + 32 else c

unfoldable pub to_lower : Bytes → Bytes
to_lower = map lower

unfoldable pub equal_fold : Bytes → Bytes → Bool
equal_fold [] [] = true
equal_fold (x ∷ xs) (y ∷ ys) = lower x == lower y && equal_fold xs ys
equal_fold _ _ = false

trim_left : ℕ → Bytes → Bytes
trim_left b [] = []
trim_left b (c ∷ s) = if c == b then trim_left b s else c ∷ s

-- `strings.TrimRight` with a one-byte cutset.
unfoldable pub trim_right : ℕ → Bytes → Bytes
unfolding trim_left
trim_right b s = reverse (trim_left b (reverse s))

-- `strings.Trim` with a one-byte cutset.
unfoldable pub trim : ℕ → Bytes → Bytes
unfolding trim_left
trim b s = reverse (trim_left b (reverse (trim_left b s)))

abbrev pub is_space : ℕ → Bool
is_space c = c == b' ' || (leb 9 c && leb c 13)

trim_space_left : Bytes → Bytes
trim_space_left [] = []
trim_space_left (c ∷ s) = if is_space c then trim_space_left s else c ∷ s

-- `strings.TrimSpace`
unfoldable pub trim_space : Bytes → Bytes
unfolding trim_space_left
trim_space s = reverse (trim_space_left (reverse (trim_space_left s)))

unfoldable pub flush : Bytes → List Bytes → List Bytes
unfolding is_empty
flush word words = if is_empty word then words else word ∷ words

-- `strings.FieldsFunc`, with the bytes of the word that has begun.
unfoldable pub fields_from : (ℕ → Bool) → Bytes → Bytes → List Bytes
unfolding flush
fields_from p word [] = flush word []
fields_from p word (c ∷ s) =
    let next = fields_from p [] s in
    let more = fields_from p (word ++ c ∷ []) s in if p c then flush word next else more

unfoldable pub fields_func : (ℕ → Bool) → Bytes → List Bytes
unfolding fields_from
fields_func p s = fields_from p [] s
