-- ===== src/Http/FileName.antt =====
-- The name that an HTTP download writes to.
use grabber.Base.{
  ℕ, zero, suc, ◌-◌, ◌≤◌, true, false, ◌||◌, [], ◌∷◌, reverse, ◌≡◌, refl, subst, Option, none, some,
  if◌then◌else◌, length, drop, inl, inr, Bool-cases, or-eq-false, ltb, ltb→lt, arith,
  reverse-reverse, ◌==◌,
}
use grabber.Text.{Bytes, codes, text_eq, is_empty, cut, cons_left, has_prefix}
use grabber.Text.Laws.{text_eq_refl}
use grabber.Text.Split.{Lacks, Lacks-reverse}
use grabber.FilePath.{
  slash, dot, base, base_of, after_slash, last_slash, swap_reversed, strip_slashes,
}
use grabber.Settings.Types.{Url}
use grabber.Http.{UrlPackage, Downloader, file_name, name_of_url, name_of_path, max_file_name}

-- A name with no separator, of a length that a file system can hold, that is not ".".
pub record IsComponent (name : Bytes) : Type 0 where
  pub some_byte : 1 ≤ length name
  pub short : length name ≤ 255
  pub no_slash : Lacks slash name
  pub not_dot : text_eq name dot ≡ false

abbrev CutLacks : Bytes → Option (Bytes × Bytes) → Type 0
CutLacks s none = Lacks slash s
CutLacks s (some (a, b)) = Lacks slash a

cut-Lacks : (s : Bytes) → CutLacks s (cut (slash ∷ []) s)
unfolding cut has_prefix
cut-Lacks [] = tt
cut-Lacks (c ∷ s) = elim (Bool-cases (slash == c)) [
  | inl here ↦ rw here tt
  | inr later ↦ rw later (extend (cut (slash ∷ []) s) (flip c later) (cut-Lacks s))
]
  where
    flip : (c : ℕ) → (slash == c) ≡ false → (c == slash) ≡ false
    flip c h = ground arith

    extend :
        (o : Option (Bytes × Bytes))
        → (c == slash) ≡ false
        → CutLacks s o
        → CutLacks (c ∷ s) (cons_left c o)
    extend none e h = (e, h)
    extend (some (a, b)) e h = (e, h)

after_slash-Lacks : (p : Bytes) → Lacks slash (after_slash p (last_slash p))
unfolding after_slash last_slash
after_slash-Lacks p = last (cut (slash ∷ []) (reverse p)) (cut-Lacks (reverse p))
  where
    last :
        (o : Option (Bytes × Bytes))
        → CutLacks (reverse p) o
        → Lacks slash (after_slash p (swap_reversed o))
    last none h = subst (Lacks slash) (reverse-reverse p) (Lacks-reverse slash (reverse p) h)
    last (some (a, b)) h = Lacks-reverse slash a h

base_of-Lacks :
    (p q : Bytes) → text_eq (base_of p q) (slash ∷ []) ≡ false → Lacks slash (base_of p q)
unfolding base_of
base_of-Lacks [] q h = (refl, tt)
base_of-Lacks (c ∷ p) [] h = absurd (cc (text_eq_refl (slash ∷ []), h))
base_of-Lacks (c ∷ p) (d ∷ q) h = after_slash-Lacks (d ∷ q)

base-Lacks : (p : Bytes) → text_eq (base p) (slash ∷ []) ≡ false → Lacks slash (base p)
unfolding base
base-Lacks p h = base_of-Lacks p (reverse (strip_slashes (reverse p))) h

drop-Lacks : (n : ℕ) (s : Bytes) → Lacks slash s → Lacks slash (drop n s)
drop-Lacks zero s h = h
drop-Lacks (suc n) [] h = h
drop-Lacks (suc n) (c ∷ s) (e, h) = drop-Lacks n s h

length-drop : (n : ℕ) (s : Bytes) → length (drop n s) ≡ length s - n
length-drop zero s = omega arith
length-drop (suc n) [] = omega arith
length-drop (suc n) (c ∷ s) = omega (arith, length-drop n s)

full_length : (s : Bytes) → is_empty s ≡ false → 1 ≤ length s
unfolding is_empty
full_length [] h = absurd (cc (h))
full_length (c ∷ s) h = omega arith

download-IsComponent : IsComponent (codes "download")
download-IsComponent = record {
  some_byte = omega arith;
  short = omega arith;
  no_slash = (refl, (refl, (refl, (refl, (refl, (refl, (refl, (refl, tt))))))));
  not_dot = unfold text_eq in refl;
}

long-not_dot : (s : Bytes) → 2 ≤ length s → text_eq s dot ≡ false
unfolding text_eq
long-not_dot [] h = absurd (omega arith)
long-not_dot (c ∷ []) h = absurd (omega arith)
long-not_dot (c ∷ d ∷ s) h = elim (Bool-cases (c == b'.')) [ inl e ↦ rw e refl | inr e ↦ rw e refl ]

shortened :
    (name : Bytes)
    → 1 ≤ length name
    → Lacks slash name
    → text_eq name dot ≡ false
    → IsComponent
        (if ltb max_file_name (length name) then drop (length name - max_file_name) name else name)
shortened name full lacks named = elim (Bool-cases (ltb max_file_name (length name))) [
  | inl long ↦
      let size = length-drop (length name - max_file_name) name in
      let more = ltb→lt max_file_name (length name) long in
      rw long record {
        some_byte = omega arith;
        short = omega arith;
        no_slash = drop-Lacks (length name - max_file_name) name lacks;
        not_dot = long-not_dot (drop (length name - max_file_name) name) (omega arith);
      }
  | inr fits ↦ rw fits record {
    some_byte = full;
    short = small (length name) fits;
    no_slash = lacks;
    not_dot = named;
  }
]
  where
    small : (n : ℕ) → ltb 255 n ≡ false → n ≤ 255
    small n h = ground arith

name_of_path-IsComponent : (path : Bytes) → IsComponent (name_of_path path)
unfolding name_of_path
name_of_path-IsComponent path =
    elim (Bool-cases
      (is_empty (base path) || text_eq (base path) dot || text_eq (base path) (slash ∷ []))) [
        | inl special ↦ rw special download-IsComponent
        | inr plain ↦
            let name = base path in
            let (known, no_slash) =
              or-eq-false (is_empty name || text_eq name dot) (text_eq name (slash ∷ [])) plain in
            let (full, no_dot) = or-eq-false (is_empty name) (text_eq name dot) known in
            rw plain (shortened name (full_length name full) (base-Lacks path no_slash) no_dot)
      ]

-- Without an archive format, whatever the URL: the name that an HTTP download writes to has 1 to
-- 255 bytes and no slash, and is not ".". It may be "..".
pub file_name-IsComponent :
    (pkg : UrlPackage) (d : Downloader) → is_empty d.archive ≡ true → IsComponent (file_name pkg d)
unfolding file_name name_of_url
file_name-IsComponent pkg d unnamed = rw unnamed (from (pkg.parse_url d.url))
  where
    from : (u : Option Url) → IsComponent (name_of_url u)
    from none = download-IsComponent
    from (some u) = name_of_path-IsComponent u.path
