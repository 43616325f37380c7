-- ===== src/FilePath.antt =====
-- The functions of packages path and path/filepath that the program calls, on a system whose
-- separator is "/" (where `filepath.FromSlash` and `filepath.ToSlash` change nothing).
pub mod Laws
pub mod Render
use grabber.Base.{
  ℕ, Bool, true, false, ◌&&◌, ◌||◌, List, [], ◌∷◌, ◌++◌, reverse, Option, none, some, ◌==◌,
  if◌then◌else◌,
}
use grabber.Text.{Bytes, codes, text_eq, is_empty, has_prefix, split, join, cut}

abbrev pub slash : ℕ
slash = b'/'

abbrev pub dot : Bytes
dot = codes "."

abbrev pub dot_dot : Bytes
dot_dot = codes ".."

-- Where the path is now, the innermost element first, and how one element moves it.
pop : Bool → List Bytes → List Bytes
pop rooted [] = if rooted then [] else dot_dot ∷ []
pop rooted (top ∷ stack) = if text_eq top dot_dot then dot_dot ∷ top ∷ stack else stack

unfoldable pub step : Bool → List Bytes → Bytes → List Bytes
unfolding pop is_empty text_eq
step rooted stack part =
    if is_empty part || text_eq part dot
    then stack
    else if text_eq part dot_dot
    then pop rooted stack
    else part ∷ stack

unfoldable pub walk : Bool → List Bytes → List Bytes → List Bytes
unfolding step
walk rooted stack [] = stack
walk rooted stack (part ∷ parts) = walk rooted (step rooted stack part) parts

unfoldable pub is_rooted : Bytes → Bool
unfolding has_prefix
is_rooted p = has_prefix (slash ∷ []) p

unfoldable pub or_dot : Bytes → Bytes
or_dot [] = dot
or_dot (c ∷ p) = c ∷ p

unfoldable pub render : Bool → List Bytes → Bytes
unfolding join or_dot
render true stack = slash ∷ join slash (reverse stack)
render false stack = or_dot (join slash (reverse stack))

-- The elements that `Clean` keeps, the innermost first.
unfoldable pub clean_stack : Bytes → List Bytes
unfolding walk is_rooted split
clean_stack p = walk (is_rooted p) [] (split slash p)

-- `filepath.Clean` and `path.Clean`.
unfoldable pub clean : Bytes → Bytes
unfolding clean_stack render
clean p = render (is_rooted p) (clean_stack p)

-- `filepath.Join` of two elements.
unfoldable pub join_path : Bytes → Bytes → Bytes
unfolding clean
join_path [] [] = []
join_path [] (c ∷ rel) = clean (c ∷ rel)
join_path (c ∷ root) rel =
    if is_empty rel then clean (c ∷ root) else clean ((c ∷ root) ++ slash ∷ rel)

abbrev pub swap_reversed : Option (Bytes × Bytes) → Option (Bytes × Bytes)
swap_reversed none = none
swap_reversed (some (a, b)) = some (reverse b, reverse a)

-- The text before and after the last slash, without it; `none` if there is no slash.
unfoldable pub last_slash : Bytes → Option (Bytes × Bytes)
unfolding cut
last_slash p = swap_reversed (cut (slash ∷ []) (reverse p))

unfoldable pub up_to_slash : Option (Bytes × Bytes) → Bytes
up_to_slash none = []
up_to_slash (some (a, b)) = a ++ slash ∷ []

unfoldable pub after_slash : Bytes → Option (Bytes × Bytes) → Bytes
after_slash p none = p
after_slash p (some (a, b)) = b

-- `filepath.Dir`
unfoldable pub dir : Bytes → Bytes
unfolding clean up_to_slash last_slash
dir p = clean (up_to_slash (last_slash p))

unfoldable pub strip_slashes : Bytes → Bytes
strip_slashes [] = []
strip_slashes (c ∷ p) = if c == slash then strip_slashes p else c ∷ p

unfoldable pub base_of : Bytes → Bytes → Bytes
unfolding after_slash last_slash
base_of [] stripped = dot
base_of (c ∷ p) [] = slash ∷ []
base_of (c ∷ p) (d ∷ q) = after_slash (d ∷ q) (last_slash (d ∷ q))

-- `filepath.Base`: the last element, without trailing slashes.
unfoldable pub base : Bytes → Bytes
unfolding base_of strip_slashes
base p = base_of p (reverse (strip_slashes (reverse p)))

dot_tail : Bytes → Bytes → Bytes
dot_tail acc [] = []
dot_tail acc (c ∷ p) =
    let rest = dot_tail (c ∷ acc) p in
    if c == slash then [] else if c == b'.' then c ∷ acc else rest

-- `filepath.Ext`: from the last dot of the last element.
unfoldable pub ext : Bytes → Bytes
unfolding dot_tail
ext p = dot_tail [] (reverse p)
