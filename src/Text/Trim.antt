-- ===== src/Text/Trim.antt =====
-- Trimming.
use grabber.Base.{
  ℕ, [], ◌∷◌, ◌≡◌, ◌≢◌, refl, ap, ◌∙◌, reverse, reverse-reverse, ◌==◌, ==_iff, Bool-cases, inl, inr,
}
use grabber.Text.{Bytes, trim_left, trim}

trim_left_none : (b : ℕ) (s : Bytes) → ((t : Bytes) → s ≢ b ∷ t) → trim_left b s ≡ s
unfolding trim_left
trim_left_none b [] h = refl
trim_left_none b (c ∷ s) h = elim (Bool-cases (c == b)) [
  | inl e ↦ absurd (h s (ap (λ x. x ∷ s) ((==_iff c b).0 e)))
  | inr e ↦ rw e refl
]

trim_left-cons : (b : ℕ) (s : Bytes) → trim_left b (b ∷ s) ≡ trim_left b s
unfolding trim_left
trim_left-cons b s = rw ((==_iff b b).1 refl) refl

-- One byte in front is trimmed off a text that neither starts nor ends with it.
pub trim-cons :
    (b : ℕ) (s : Bytes)
    → ((t : Bytes) → s ≢ b ∷ t)
    → ((t : Bytes) → reverse s ≢ b ∷ t)
    → trim b (b ∷ s) ≡ s
unfolding trim
trim-cons b s front back =
    ap (λ x. reverse (trim_left b (reverse x))) (trim_left-cons b s ∙ trim_left_none b s front)
    ∙ ap reverse (trim_left_none b (reverse s) back)
    ∙ reverse-reverse s
