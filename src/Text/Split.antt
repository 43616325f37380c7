-- ===== src/Text/Split.antt =====
-- Splitting at a byte and joining.
use grabber.Base.{
  ℕ, false, List, [], ◌∷◌, ◌++◌, ◌≡◌, ◌≢◌, refl, ap, ◌∙◌, inl, inr, ◌==◌, ==_iff, ==_refl,
  Bool-cases, All, reverse, reverse-cons,
}
use grabber.Text.{Bytes, split, join, cons_head}

-- The byte does not occur.
abbrev pub Lacks : ℕ → Bytes → Type 0
Lacks b [] = Unit
Lacks b (c ∷ s) = ((c == b) ≡ false) × Lacks b s

pub split-ne-nil : (b : ℕ) (s : Bytes) → split b s ≢ []
unfolding split
split-ne-nil b [] = cc
split-ne-nil b (c ∷ s) = elim (Bool-cases (c == b)) [
  | inl e ↦ rw e (cc)
  | inr e ↦ rw e (cons_ne (split b s))
]
  where
    cons_ne : (ws : List Bytes) → cons_head c ws ≢ []
    cons_ne [] = cc
    cons_ne (w ∷ ws) = cc

pub split-Lacks : (b : ℕ) (s : Bytes) → All (Lacks b) (split b s)
unfolding split
split-Lacks b [] = (tt, tt)
split-Lacks b (c ∷ s) = elim (Bool-cases (c == b)) [
  | inl e ↦ rw e (tt, split-Lacks b s)
  | inr e ↦ rw e (keep (split b s) e (split-Lacks b s))
]
  where
    keep : (ws : List Bytes) → (c == b) ≡ false → All (Lacks b) ws → All (Lacks b) (cons_head c ws)
    keep [] e h = ((e, tt), tt)
    keep (w ∷ ws) e (h, k) = ((e, h), k)

cons_head-append :
    (c : ℕ) (ws vs : List Bytes) → ws ≢ [] → cons_head c (ws ++ vs) ≡ cons_head c ws ++ vs
cons_head-append c [] vs h = absurd (h refl)
cons_head-append c (w ∷ ws) vs h = refl

-- Splitting a text with the separator in it splits both halves.
pub split-append : (b : ℕ) (s t : Bytes) → split b (s ++ b ∷ t) ≡ split b s ++ split b t
unfolding split
split-append b [] t = rw (==_refl b)
split-append b (c ∷ s) t = elim (Bool-cases (c == b)) [
  | inl e ↦ rw e (ap (◌∷◌ []) (split-append b s t))
  | inr e ↦ rw e (
      ap (cons_head c) (split-append b s t)
      ∙ cons_head-append c (split b s) (split b t) (split-ne-nil b s))
]

pub split_of_Lacks : (b : ℕ) (w : Bytes) → Lacks b w → split b w ≡ w ∷ []
unfolding split
split_of_Lacks b [] h = refl
split_of_Lacks b (c ∷ w) (e, h) = rw e (ap (cons_head c) (split_of_Lacks b w h))

-- Joining is undone by splitting, for parts without the separator.
pub split-join : (b : ℕ) (ws : List Bytes) → ws ≢ [] → All (Lacks b) ws → split b (join b ws) ≡ ws
unfolding join
split-join b [] h k = absurd (h refl)
split-join b (w ∷ []) h (k, _) = split_of_Lacks b w k
split-join b (w ∷ v ∷ ws) h (k, ks) =
    split-append b w (join b (v ∷ ws))
    ∙ ap (λ x. x ++ split b (join b (v ∷ ws))) (split_of_Lacks b w k)
    ∙ ap (◌∷◌ w) (split-join b (v ∷ ws) (cc) ks)

-- Splitting is undone by joining.
pub join-split : (b : ℕ) (s : Bytes) → join b (split b s) ≡ s
unfolding split
join-split b [] = unfold join in refl
join-split b (c ∷ s) = elim (Bool-cases (c == b)) [
  | inl e ↦
      rw (e, (==_iff c b).0 e)
        (join-nil (split b s) (split-ne-nil b s) ∙ ap (◌∷◌ b) (join-split b s))
  | inr e ↦ rw e (join-cons_head (split b s) (split-ne-nil b s) ∙ ap (◌∷◌ c) (join-split b s))
]
  where
    join-nil : (ws : List Bytes) → ws ≢ [] → join b ([] ∷ ws) ≡ b ∷ join b ws
    join-nil [] h = absurd (h refl)
    join-nil (w ∷ ws) h = unfold join in refl

    join-cons_head : (ws : List Bytes) → ws ≢ [] → join b (cons_head c ws) ≡ c ∷ join b ws
    join-cons_head [] h = absurd (h refl)
    join-cons_head (w ∷ []) h = unfold join in refl
    join-cons_head (w ∷ v ∷ ws) h = unfold join in refl

Lacks-append : (b : ℕ) (v w : Bytes) → Lacks b v → Lacks b w → Lacks b (v ++ w)
Lacks-append b [] w h k = k
Lacks-append b (c ∷ v) w (e, h) k = (e, Lacks-append b v w h k)

pub Lacks-reverse : (b : ℕ) (w : Bytes) → Lacks b w → Lacks b (reverse w)
Lacks-reverse b [] h = tt
Lacks-reverse b (c ∷ w) (e, h) =
    rw reverse-cons (Lacks-append b (reverse w) (c ∷ []) (Lacks-reverse b w h) (e, tt))
