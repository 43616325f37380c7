-- ===== src/File/Climb.antt =====
-- The way up of `resolvePath` in protocols/file/file.go.
use grabber.Base.{
  ℕ, ◌+◌, ◌≤◌, ◌<◌, true, false, List, [], ◌∷◌, ◌++◌, reverse, ◌≡◌, ◌≢◌, refl, sym, ap, ◌∙◌, Option,
  some, length, All, All-reverse, inl, inr, Bool-cases, arith, ◌==◌, reverse-append,
  reverse-reverse, reverse-cons, append_assoc, append-nil, length-append,
}
use mathlib.Core.List.{concat-ne-nil}
use grabber.Text.{Bytes, text_eq, is_empty, has_prefix, cut, cons_left, split, join}
use grabber.Text.Laws.{text_eq_iff}
use grabber.Text.Split.{Lacks, Lacks-reverse, split-append}
use grabber.FilePath.{
  slash, is_rooted, render, step, walk, clean, clean_stack, dir, base, last_slash, up_to_slash,
  swap_reversed, strip_slashes, base_of, after_slash,
}
use grabber.FilePath.Laws.{IsPlain, IsStack}
use grabber.FilePath.Render.{reverse-ne-nil, split-render_rooted}
use grabber.SafePath.Inside.{clean_lem}
use grabber.SafePath.Downward.{walk-append, join-append}

-- Cutting at the first slash of a text that starts without one.
cut_at : (w s : Bytes) → Lacks slash w → cut (slash ∷ []) (w ++ slash ∷ s) ≡ some (w, s)
unfolding cut has_prefix
cut_at [] s h = refl
cut_at (c ∷ w) s (ne, h) = rw (differs slash c ne) (ap (cons_left c) (cut_at w s h))
  where
    differs : (b c : ℕ) → (c == b) ≡ false → (b == c) ≡ false
    differs b c h = ground arith

reverse_last : (p w : Bytes) → reverse (p ++ slash ∷ w) ≡ reverse w ++ slash ∷ reverse p
reverse_last p w =
    reverse-append p (slash ∷ w)
    ∙ ap (λ x. x ++ reverse p) (reverse-cons slash w)
    ∙ append_assoc (reverse w) (slash ∷ []) (reverse p)

last_slash-append : (p w : Bytes) → Lacks slash w → last_slash (p ++ slash ∷ w) ≡ some (p, w)
unfolding last_slash
last_slash-append p w h =
    ap (λ x. swap_reversed (cut (slash ∷ []) x)) (reverse_last p w)
    ∙ ap swap_reversed (cut_at (reverse w) (reverse p) (Lacks-reverse slash w h))
    ∙ ap2-some (reverse-reverse p) (reverse-reverse w)
  where
    ap2-some :
        {a a' b b' : Bytes}
        → a ≡ a'
        → b ≡ b'
        → ◌≡◌ {A = Option (Bytes × Bytes)} (some (a, b)) (some (a', b'))
    ap2-some {a = a} {b' = b'} e e' = ap (λ y. some (a, y)) e' ∙ ap (λ x. some (x, b')) e

-- What a cleaned absolute path shows in front of its last slash.
above : List Bytes → Bytes
above [] = []
above (v ∷ vs) = render true (v ∷ vs)

render-above : (w : Bytes) (ws : List Bytes) → render true (w ∷ ws) ≡ above ws ++ slash ∷ w
unfolding render above join
render-above w [] = refl
render-above w (v ∷ vs) =
    ap (λ names. slash ∷ join slash names) (reverse-cons w (v ∷ vs))
    ∙ ap (◌∷◌ slash) (join-append (reverse (v ∷ vs)) (w ∷ []) (reverse-ne-nil v vs) (cc))

walk-kept : (s names : List Bytes) → All IsPlain names → walk true s names ≡ reverse names ++ s
unfolding walk step
walk-kept s [] h = refl
walk-kept s (w ∷ ws) (p, h) =
    rw (p.not_empty, p.not_dot, p.not_dot_dot)
      (walk-kept (w ∷ s) ws h
        ∙ sym (append_assoc (reverse ws) (w ∷ []) s)
        ∙ ap (λ x. x ++ s) (sym (reverse-cons w ws)))

plain-IsStack : (s : List Bytes) → All IsPlain s → IsStack true s
plain-IsStack [] h = tt
plain-IsStack (w ∷ ws) (p, h) = (
  record { not_empty = p.not_empty; not_dot = p.not_dot; no_slash = p.no_slash },
  (λ up. absurd (cc (up, p.not_dot_dot))),
  plain-IsStack ws h,
)

clean_stack-above :
    (v : Bytes) (vs : List Bytes)
    → All IsPlain (v ∷ vs)
    → clean_stack (render true (v ∷ vs) ++ slash ∷ []) ≡ v ∷ vs
unfolding clean_stack is_rooted has_prefix render walk step is_empty
clean_stack-above v vs h =
    let names = reverse (v ∷ vs) in
    ap (walk true []) (
      split-append slash (render true (v ∷ vs)) []
      ∙ ap (λ x. x ++ split slash []) (split-render_rooted v vs (plain-IsStack (v ∷ vs) h)))
    ∙ walk-append true [] ([] ∷ names) (split slash [])
    ∙ ap (λ st. walk true st (split slash []))
        (walk-kept [] names (All-reverse IsPlain (v ∷ vs) h)
          ∙ append-nil (reverse names)
          ∙ reverse-reverse (v ∷ vs))

clean-above : (s : List Bytes) → All IsPlain s → clean (above s ++ slash ∷ []) ≡ render true s
unfolding above
clean-above [] h = unfold clean render clean_stack is_rooted in refl
clean-above (v ∷ vs) h =
    clean_lem (render true (v ∷ vs) ++ slash ∷ [])
    ∙ unfold render is_rooted in ap (render true) (clean_stack-above v vs h)

pub dir-render :
    (w : Bytes) (ws : List Bytes)
    → All IsPlain (w ∷ ws)
    → dir (render true (w ∷ ws)) ≡ render true ws
unfolding dir up_to_slash
dir-render w ws (p, h) =
    ap (λ x. clean (up_to_slash x))
      (ap last_slash (render-above w ws) ∙ last_slash-append (above ws) w p.no_slash)
    ∙ clean-above ws h

strip_kept : (w x : Bytes) → w ≢ [] → Lacks slash w → strip_slashes (w ++ x) ≡ w ++ x
unfolding strip_slashes
strip_kept [] x h k = absurd (h refl)
strip_kept (c ∷ w) x h (e, k) = rw e refl

reversed_full : (w : Bytes) → is_empty w ≡ false → reverse w ≢ []
unfolding is_empty
reversed_full [] h = absurd (cc (h))
reversed_full (c ∷ w) h = rw reverse-cons (concat-ne-nil c (reverse w))

base_of-append : (a w : Bytes) → Lacks slash w → base_of (a ++ slash ∷ w) (a ++ slash ∷ w) ≡ w
unfolding base_of after_slash
base_of-append [] w h = ap (after_slash (slash ∷ w)) (last_slash-append [] w h)
base_of-append (c ∷ a) w h = ap (after_slash (c ∷ a ++ slash ∷ w)) (last_slash-append (c ∷ a) w h)

base-append : (a w : Bytes) → IsPlain w → base (a ++ slash ∷ w) ≡ w
unfolding base
base-append a w p =
    ap (λ x. base_of (a ++ slash ∷ w) (reverse x))
      (ap strip_slashes (reverse_last a w)
        ∙ strip_kept (reverse w) (slash ∷ reverse a) (reversed_full w p.not_empty)
            (Lacks-reverse slash w p.no_slash)
        ∙ sym (reverse_last a w))
    ∙ ap (base_of (a ++ slash ∷ w)) (reverse-reverse (a ++ slash ∷ w))
    ∙ base_of-append a w p.no_slash

pub base-render : (w : Bytes) (ws : List Bytes) → IsPlain w → base (render true (w ∷ ws)) ≡ w
base-render w ws p = ap base (render-above w ws) ∙ base-append (above ws) w p

above-length : (ws : List Bytes) → length (render true ws) ≤ length (above ws) + 1
unfolding above render join
above-length [] = omega arith
above-length (v ∷ vs) = omega arith

render-length :
    (w : Bytes) (ws : List Bytes)
    → IsPlain w
    → length (render true ws) < length (render true (w ∷ ws))
render-length w ws p = omega (
  arith,
  above-length ws,
  ap length (render-above w ws),
  length-append (above ws) (slash ∷ w),
  some_byte w p.not_empty,
)
  where
    some_byte : (w : Bytes) → is_empty w ≡ false → 1 ≤ length w
    some_byte [] h = absurd (unfold is_empty in cc (h))
    some_byte (c ∷ w) h = omega arith

pub stack-length : (s : List Bytes) → All IsPlain s → length s ≤ length (render true s)
stack-length [] h = omega arith
stack-length (w ∷ ws) (p, h) = omega (arith, stack-length ws h, render-length w ws p)

pub climbs :
    (w : Bytes) (ws : List Bytes)
    → IsPlain w
    → text_eq (render true ws) (render true (w ∷ ws)) ≡ false
climbs w ws p = elim (Bool-cases (text_eq (render true ws) (render true (w ∷ ws)))) [
  | inl stays ↦ absurd (
      omega (
        arith,
        render-length w ws p,
        ap length ((text_eq_iff (render true ws) (render true (w ∷ ws))).0 stays),
      ))
  | inr moves ↦ moves
]
