-- ===== src/FilePath/Render.antt =====
-- The text of a cleaned path shows its elements.
use grabber.Base.{
  Bool, true, false, List, [], ◌∷◌, ◌++◌, reverse, ◌≡◌, ◌≢◌, ◌≤◌, refl, sym, ap, ◌∙◌, arith,
  reverse-append, reverse-reverse, reverse-cons, All, All-reverse, length, length-append,
}
use mathlib.Core.List.{concat-ne-nil}
use grabber.Text.{Bytes, is_empty, split, join}
use grabber.Text.Split.{Lacks, split-append, split-join}
use grabber.FilePath.{slash, render, or_dot}
use grabber.FilePath.Laws.{
  IsPlain, IsKept, IsStack, IsStack-IsKept, IsStack-Lacks, IsStack-IsPlain, is_anchored,
}

pub reverse-ne-nil : (w : Bytes) (ws : List Bytes) → reverse (w ∷ ws) ≢ []
reverse-ne-nil w ws = rw reverse-cons (concat-ne-nil w (reverse ws))

le-length-or_dot : (x : Bytes) → 1 ≤ length (or_dot x)
unfolding or_dot
le-length-or_dot [] = omega arith
le-length-or_dot (c ∷ x) = omega arith

pub join-ne-nil : (ws : List Bytes) → ws ≢ [] → All IsKept ws → join slash ws ≢ []
unfolding join
join-ne-nil [] h k = absurd (h refl)
join-ne-nil ([] ∷ ws) h (k, _) = absurd (unfold is_empty in cc (k.not_empty))
join-ne-nil ((c ∷ w) ∷ []) h k = cc
join-ne-nil ((c ∷ w) ∷ v ∷ ws) h k = cc

pub or_dot_of_ne : (x : Bytes) → x ≢ [] → or_dot x ≡ x
unfolding or_dot
or_dot_of_ne [] h = absurd (h refl)
or_dot_of_ne (c ∷ x) h = refl

pub split-render_rooted :
    (w : Bytes) (ws : List Bytes)
    → IsStack true (w ∷ ws)
    → split slash (render true (w ∷ ws)) ≡ [] ∷ reverse (w ∷ ws)
unfolding render split
split-render_rooted w ws h = ap (◌∷◌ []) (
    split-join slash (reverse (w ∷ ws)) (reverse-ne-nil w ws)
      (All-reverse (Lacks slash) (w ∷ ws) (IsStack-Lacks true (w ∷ ws) h)))

pub split-render_relative :
    (w : Bytes) (ws : List Bytes)
    → IsStack false (w ∷ ws)
    → split slash (render false (w ∷ ws)) ≡ reverse (w ∷ ws)
unfolding render
split-render_relative w ws h =
    ap (split slash) (
      or_dot_of_ne _ (
        join-ne-nil (reverse (w ∷ ws)) (reverse-ne-nil w ws)
          (All-reverse IsKept (w ∷ ws) (IsStack-IsKept false (w ∷ ws) h))))
    ∙ split-join slash (reverse (w ∷ ws)) (reverse-ne-nil w ws)
        (All-reverse (Lacks slash) (w ∷ ws) (IsStack-Lacks false (w ∷ ws) h))

-- A text is not longer than itself.
too_long : (x y rest : Bytes) → length x ≤ 1 → 1 ≤ length y → x ≢ y ++ slash ∷ rest
too_long x y rest h k e = omega (arith, ap length e, length-append y (slash ∷ rest))

reverse_inj_append : (s xs ys : List Bytes) → reverse s ≡ xs ++ ys → s ≡ reverse ys ++ reverse xs
reverse_inj_append s xs ys e = sym (reverse-reverse s) ∙ ap reverse e ∙ reverse-append xs ys

IsPlain-tail :
    (rooted : Bool) (s xs ys : List Bytes)
    → IsStack rooted s
    → reverse s ≡ xs ++ ys
    → is_anchored rooted (reverse xs) ≡ true
    → All IsPlain ys
IsPlain-tail rooted s xs ys h e a = rw (reverse-reverse ys) at (
    All-reverse IsPlain (reverse ys)
      (IsStack-IsPlain rooted (reverse ys) (reverse xs) (rw (reverse_inj_append s xs ys e) at h) a))

tail_eq : (x : Bytes) (xs ys : List Bytes) → x ∷ xs ≡ x ∷ ys → xs ≡ ys
tail_eq x xs ys e = cc

rooted_inside :
    (s t : List Bytes) (rest : Bytes)
    → IsStack true s
    → render true s ≡ render true t ++ slash ∷ rest
    → All IsPlain (split slash rest)
unfolding render
rooted_inside [] t rest h e =
    absurd (
      too_long _ (slash ∷ join slash (reverse t)) rest (unfold join in omega arith) (omega arith) e)
rooted_inside (w ∷ ws) t rest h e =
    let parts = split slash (join slash (reverse t)) in
    IsPlain-tail true (w ∷ ws) parts (split slash rest) h
      (tail_eq [] _ _ (
        sym (split-render_rooted w ws h)
        ∙ ap (split slash) e
        ∙ unfold split in split-append slash (slash ∷ join slash (reverse t)) rest))
      refl

relative_inside :
    (s t : List Bytes) (rest : Bytes)
    → IsStack false s
    → IsStack false t
    → is_anchored false t ≡ true
    → render false s ≡ render false t ++ slash ∷ rest
    → All IsPlain (split slash rest)
relative_inside s [] rest h k a e = cc
relative_inside [] (v ∷ vs) rest h k a e = absurd (
    too_long (render false []) (render false (v ∷ vs)) rest
      (unfold render join or_dot in omega arith)
      (unfold render in le-length-or_dot (join slash (reverse (v ∷ vs)))) e)
relative_inside (w ∷ ws) (v ∷ vs) rest h k a e =
    IsPlain-tail false (w ∷ ws) (reverse (v ∷ vs)) (split slash rest) h
      (sym (split-render_relative w ws h)
        ∙ ap (split slash) e
        ∙ split-append slash (render false (v ∷ vs)) rest
        ∙ ap (λ x. x ++ split slash rest) (split-render_relative v vs k))
      (rw (reverse-reverse (v ∷ vs)) a)

-- A cleaned path that extends an anchored one extends it by plain names.
pub render_inside :
    (rooted : Bool) (s t : List Bytes) (rest : Bytes)
    → IsStack rooted s
    → IsStack rooted t
    → is_anchored rooted t ≡ true
    → render rooted s ≡ render rooted t ++ slash ∷ rest
    → All IsPlain (split slash rest)
render_inside true s t rest h k a e = rooted_inside s t rest h e
render_inside false s t rest h k a e = relative_inside s t rest h k a e
