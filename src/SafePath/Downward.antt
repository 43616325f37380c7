-- ===== src/SafePath/Downward.antt =====
-- Joining a path that does not go up.
use grabber.Base.{
  Bool, true, false, ◌||◌, List, [], ◌∷◌, ◌++◌, reverse, ◌≡◌, ◌≢◌, refl, sym, ap, ◌∙◌, subst, inl,
  inr, Bool-cases, All, append_assoc, reverse-append, All-reverse, All-append_right, All-imp,
}
use grabber.Text.{Bytes, text_eq, is_empty, split, join}
use grabber.Text.Split.{split-append, split-join}
use grabber.FilePath.{
  slash, dot, dot_dot, is_rooted, step, walk, render, clean_stack, clean, join_path,
}
use grabber.FilePath.Laws.{
  IsStack, IsKept, IsPlain, clean_stack-IsStack, IsStack-IsPlain, IsStack-IsKept,
}
use grabber.FilePath.Render.{reverse-ne-nil, join-ne-nil, or_dot_of_ne}
use grabber.SafePath.Inside.{
  IsInside, same, below, IsAnchored, full, clean-full, is_rooted-full, clean_lem,
}

abbrev pub NotUp : Bytes → Type 0
NotUp w = text_eq w dot_dot ≡ false

pub walk-append : (r : Bool) (s xs ys : List Bytes) → walk r s (xs ++ ys) ≡ walk r (walk r s xs) ys
unfolding walk
walk-append r s [] ys = refl
walk-append r s (x ∷ xs) ys = walk-append r (step r s x) xs ys

walk_down :
    (r : Bool) (s parts : List Bytes)
    → All NotUp parts
    → (xs : List Bytes) × (walk r s parts ≡ xs ++ s)
unfolding walk step
walk_down r s [] h = ([], refl)
walk_down r s (part ∷ parts) (no_up, h) = elim (Bool-cases (is_empty part || text_eq part dot)) [
  | inl stays ↦ rw stays (walk_down r s parts h)
  | inr moves ↦
      let (xs, e) = walk_down r (part ∷ s) parts h in
      rw (moves, no_up) (xs ++ part ∷ [], e ∙ sym (append_assoc xs (part ∷ []) s))
]

pub join-append :
    (ws vs : List Bytes)
    → ws ≢ []
    → vs ≢ []
    → join slash (ws ++ vs) ≡ join slash ws ++ slash ∷ join slash vs
unfolding join
join-append [] vs h k = absurd (h refl)
join-append (w ∷ []) [] h k = absurd (k refl)
join-append (w ∷ []) (v ∷ vs) h k = refl
join-append (w ∷ u ∷ ws) vs h k =
    ap (λ x. w ++ slash ∷ x) (join-append (u ∷ ws) vs (cc) k)
    ∙ sym (append_assoc w (slash ∷ join slash (u ∷ ws)) (slash ∷ join slash vs))

append-ne-nil : (xs ys : List Bytes) → ys ≢ [] → xs ++ ys ≢ []
append-ne-nil [] ys h = h
append-ne-nil (x ∷ xs) ys h = cc

render-append :
    (r : Bool) (x s : Bytes) (xs ss : List Bytes)
    → IsStack r ((x ∷ xs) ++ s ∷ ss)
    → render r ((x ∷ xs) ++ s ∷ ss) ≡ render r (s ∷ ss) ++ slash ∷ join slash (reverse (x ∷ xs))
unfolding render
render-append true x s xs ss h =
    ap (λ ws. slash ∷ join slash ws) (reverse-append (x ∷ xs) (s ∷ ss))
    ∙ ap (◌∷◌ slash) (
        join-append (reverse (s ∷ ss)) (reverse (x ∷ xs)) (reverse-ne-nil s ss)
          (reverse-ne-nil x xs))
render-append false x s xs ss h =
    let kept = IsStack-IsKept false ((x ∷ xs) ++ s ∷ ss) h in
    let all = reverse ((x ∷ xs) ++ s ∷ ss) in
    or_dot_of_ne (join slash all) (
      join-ne-nil all (reverse-ne-nil x (xs ++ s ∷ ss))
        (All-reverse IsKept ((x ∷ xs) ++ s ∷ ss) kept))
    ∙ ap (join slash) (reverse-append (x ∷ xs) (s ∷ ss))
    ∙ join-append (reverse (s ∷ ss)) (reverse (x ∷ xs)) (reverse-ne-nil s ss) (reverse-ne-nil x xs)
    ∙ ap (λ p. p ++ slash ∷ join slash (reverse (x ∷ xs)))
        (sym (
          or_dot_of_ne (join slash (reverse (s ∷ ss))) (
            join-ne-nil (reverse (s ∷ ss)) (reverse-ne-nil s ss)
              (All-reverse IsKept (s ∷ ss) (All-append_right IsKept (x ∷ xs) (s ∷ ss) kept)))))

clean_stack-full :
    (root rel : Bytes)
    → root ≢ []
    → All NotUp (split slash rel)
    → (xs : List Bytes) × (clean_stack (full root rel) ≡ xs ++ clean_stack root)
unfolding clean_stack full
clean_stack-full root rel ne h = elim (Bool-cases (is_empty rel)) [
  | inl e ↦ rw e ([], refl)
  | inr e ↦
      let (xs, down) = walk_down (is_rooted root) (clean_stack root) (split slash rel) h in
      (
        xs,
        ap (λ b. walk b [] (split slash (full root rel))) (is_rooted-full root rel ne)
            ∙ rw e (
                ap (walk (is_rooted root) []) (split-append slash root rel)
                ∙ walk-append (is_rooted root) [] (split slash root) (split slash rel))
            ∙ down,
      )
]

-- Plain names on top of a stack stand below what the stack shows.
render-below :
    (root joined : Bytes) (r : Bool) (xs ss : List Bytes)
    → joined ≡ render r (xs ++ ss)
    → clean root ≡ render r ss
    → ss ≢ []
    → IsStack r (xs ++ ss)
    → All IsPlain xs
    → IsInside root joined
render-below root joined r [] ss e c deep h plain = same (e ∙ sym c)
render-below root joined r (x ∷ xs) [] e c deep h plain = absurd (deep refl)
render-below root joined r (x ∷ xs) (s ∷ ss) e c deep h plain =
    let names = reverse (x ∷ xs) in
    let all = All-reverse IsPlain (x ∷ xs) plain in
    below (join slash names)
      (e ∙ render-append r x s xs ss h ∙ ap (λ p. p ++ slash ∷ join slash names) (sym c))
      (subst (All IsPlain)
        (sym (split-join slash names (reverse-ne-nil x xs) (All-imp names (λ w p. p.no_slash) all)))
        all)

-- For a root that is not empty, whose cleaned path is not "/" or "." and does not end in "..": what
-- a relative path with no ".." is joined to is inside the root.
pub join_path-IsInside :
    (root rel : Bytes)
    → root ≢ []
    → clean_stack root ≢ []
    → IsAnchored root
    → All NotUp (split slash rel)
    → IsInside root (join_path root rel)
join_path-IsInside root rel ne deep anchored h =
    let r = is_rooted root in
    let (xs, e) = clean_stack-full root rel ne h in
    let stack = subst (IsStack r) e (
      subst (λ b. IsStack b (clean_stack (full root rel))) (is_rooted-full root rel ne)
        (clean_stack-IsStack (full root rel))) in
    render-below root (join_path root rel) r xs (clean_stack root)
      (clean-full root rel (join_path root rel) ne refl ∙ ap (render r) e) (clean_lem root) deep
      stack (IsStack-IsPlain r xs (clean_stack root) stack anchored)
