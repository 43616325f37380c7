-- ===== src/SafePath/Inside.antt =====
-- Where the path that `safe_join` returns lies.
use grabber.Base.{
  true, [], ◌∷◌, ◌++◌, ◌≡◌, ◌≢◌, ◌⊎◌, inl, inr, refl, subst, sym, ap, ◌∙◌, ok, Bool-cases,
  append_assoc, length, drop, All, if◌then◌else◌, arith,
}
use grabber.Text.{Bytes, has_prefix, split, is_empty}
use grabber.Text.Laws.{text_eq_iff, has_prefix_split}
use grabber.FilePath.{slash, is_rooted, render, clean_stack, clean, join_path}
use grabber.FilePath.Laws.{IsPlain, IsStack, is_anchored, clean_stack-IsStack}
use grabber.FilePath.Render.{render_inside}
use grabber.SafePath.{safe_join}

-- `joined` is `root` itself, or `root`, a slash and plain names.
pub data IsInside (root joined : Bytes) : Type 0 where
  same : joined ≡ clean root → IsInside root joined
  below :
      (rest : Bytes)
      → joined ≡ clean root ++ slash ∷ rest
      → All IsPlain (split slash rest)
      → IsInside root joined

-- The cleaned root does not end in "..": it is absolute, or its last element is a name.
abbrev pub IsAnchored : Bytes → Type 0
IsAnchored root = is_anchored (is_rooted root) (clean_stack root) ≡ true

-- The whole path that `Join` cleans.
unfoldable pub full : Bytes → Bytes → Bytes
full root rel = if is_empty rel then root else root ++ slash ∷ rel

join_path-eq-clean : (root rel : Bytes) → root ≢ [] → join_path root rel ≡ clean (full root rel)
unfolding join_path full
join_path-eq-clean [] rel h = absurd (h refl)
join_path-eq-clean (c ∷ root) rel h = elim (Bool-cases (is_empty rel)) [
  | inl e ↦ rw e
  | inr e ↦ rw e
]

pub is_rooted-full : (root rel : Bytes) → root ≢ [] → is_rooted (full root rel) ≡ is_rooted root
unfolding is_rooted has_prefix full
is_rooted-full [] rel h = absurd (h refl)
is_rooted-full (c ∷ root) rel h = elim (Bool-cases (is_empty rel)) [ inl e ↦ rw e | inr e ↦ rw e ]

safe_join-cases :
    (root rel joined : Bytes)
    → safe_join root rel ≡ ok joined
    → (joined ≡ join_path root rel)
      × ((joined ≡ clean root) ⊎ (has_prefix (clean root ++ slash ∷ []) joined ≡ true))
unfolding safe_join
safe_join-cases root rel joined h = ground (arith, text_eq_iff (join_path root rel) (clean root))

pub clean_lem : (p : Bytes) → clean p ≡ render (is_rooted p) (clean_stack p)
unfolding clean
clean_lem p = refl

pub clean-full :
    (root rel joined : Bytes)
    → root ≢ []
    → joined ≡ join_path root rel
    → joined ≡ render (is_rooted root) (clean_stack (full root rel))
clean-full root rel joined ne e =
    e
    ∙ join_path-eq-clean root rel ne
    ∙ clean_lem (full root rel)
    ∙ ap (λ r. render r (clean_stack (full root rel))) (is_rooted-full root rel ne)

-- For a root that is not empty and whose cleaned path is not "." and does not end in "..", a path
-- that is returned is the root itself or the root, a slash and plain names, whatever the relative
-- path holds.
pub safe_join-IsInside :
    (root rel joined : Bytes)
    → root ≢ []
    → IsAnchored root
    → safe_join root rel ≡ ok joined
    → IsInside root joined
safe_join-IsInside root rel joined ne a h =
    let (is_join, where_to) = safe_join-cases root rel joined h in
    elim where_to [
      | inl e ↦ same e
      | inr pre ↦
          let rest = drop (length (clean root ++ slash ∷ [])) joined in
          let e : joined ≡ clean root ++ slash ∷ rest =
            has_prefix_split _ joined pre ∙ append_assoc (clean root) (slash ∷ []) rest in
          below rest e (
            render_inside (is_rooted root) (clean_stack (full root rel)) (clean_stack root) rest
              (subst (λ b. IsStack b (clean_stack (full root rel))) (is_rooted-full root rel ne)
                (clean_stack-IsStack (full root rel)))
              (clean_stack-IsStack root) a
              (sym (clean-full root rel joined ne is_join)
                ∙ e
                ∙ ap (λ r. r ++ slash ∷ rest) (clean_lem root)))
    ]
