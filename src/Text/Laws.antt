-- ===== src/Text/Laws.antt =====
-- Equality, prefixes and cutting.
use grabber.Base.{
  ℕ, zero, suc, true, [], ◌∷◌, ◌++◌, ◌≡◌, refl, ap, ◌∙◌, ◌↔◌, inl, inr, Option, none, some, arith,
  ◌==◌, ==_iff, ==_refl, Bool-cases, and-eq-true, length, drop,
}
use grabber.Text.{
  Bytes, text_eq, is_empty, has_prefix, cut, cons_left, lower, equal_fold, trim_prefix,
}

pub text_eq_iff : (a b : Bytes) → (text_eq a b ≡ true) ↔ (a ≡ b)
unfolding text_eq
text_eq_iff (x ∷ a) (y ∷ b) = ground (arith, text_eq_iff a b)
text_eq_iff _ _ = ground arith

pub text_eq_refl : (a : Bytes) → text_eq a a ≡ true
text_eq_refl a = (text_eq_iff a a).1 refl

pub is_empty_iff : (a : Bytes) → (is_empty a ≡ true) ↔ (a ≡ [])
unfolding is_empty
is_empty_iff [] = ground arith
is_empty_iff _ = ground arith

pub has_prefix-append : (p r : Bytes) → has_prefix p (p ++ r) ≡ true
unfolding has_prefix
has_prefix-append [] r = refl
has_prefix-append (c ∷ p) r = rw (==_refl c) (has_prefix-append p r)

pub drop-append : (p r : Bytes) → drop (length p) (p ++ r) ≡ r
drop-append [] r = refl
drop-append (c ∷ p) r = drop-append p r

-- A prefix splits the text.
pub has_prefix_split : (p s : Bytes) → has_prefix p s ≡ true → s ≡ p ++ drop (length p) s
unfolding has_prefix
has_prefix_split [] s h = refl
has_prefix_split (c ∷ p) [] h = cc
has_prefix_split (c ∷ p) (d ∷ s) h =
    let (e, t) = and-eq-true (c == d) (has_prefix p s) h in
    let same : c ≡ d = (==_iff c d).0 e in
    let rest : s ≡ p ++ drop (length p) s = has_prefix_split p s t in cc

pub trim_prefix-append : (p r : Bytes) → trim_prefix p (p ++ r) ≡ r
unfolding trim_prefix
trim_prefix-append p r = rw (has_prefix-append p r) (drop-append p r)

pub cons_left-eq-some :
    (c : ℕ) (o : Option (Bytes × Bytes)) (a b : Bytes)
    → cons_left c o ≡ some (a, b)
    → (a' : Bytes) × (o ≡ some (a', b)) × (a ≡ c ∷ a')
cons_left-eq-some c none a b h = cc
cons_left-eq-some c (some (a', b')) a b h = (a', cc, cc)

-- A cut at the front.
cut_here :
    (sep s a b : Bytes)
    → s ≡ sep ++ drop (length sep) s
    → ◌≡◌ {A = Option (Bytes × Bytes)} (some ([], drop (length sep) s)) (some (a, b))
    → s ≡ a ++ sep ++ b
cut_here sep s [] b t k = t ∙ ap (λ r. sep ++ r) (ground arith)
cut_here sep s (x ∷ a) b t k = absurd (ground arith)

drop-nil : (n : ℕ) → drop {A = ℕ} n [] ≡ []
drop-nil zero = refl
drop-nil (suc n) = refl

-- What is cut is the text before and after the separator.
pub cut-eq-some : (sep s a b : Bytes) → cut sep s ≡ some (a, b) → s ≡ a ++ sep ++ b
unfolding cut
cut-eq-some sep [] a b h = elim (Bool-cases (has_prefix sep [])) [
  | inl e ↦ cut_here sep [] a b (has_prefix_split sep [] e) (rw (drop-nil (length sep)) (rw e at h))
  | inr e ↦ cc (rw e at h)
]
cut-eq-some sep (c ∷ s) a b h = elim (Bool-cases (has_prefix sep (c ∷ s))) [
  | inl e ↦ cut_here sep (c ∷ s) a b (has_prefix_split sep (c ∷ s) e) (rw e at h)
  | inr e ↦
      let (a', o, same) = cons_left-eq-some c (cut sep s) a b (rw e at h) in
      rw same (ap (◌∷◌ c) (cut-eq-some sep s a' b o))
]

pub equal_fold_refl : (a : Bytes) → equal_fold a a ≡ true
unfolding equal_fold
equal_fold_refl [] = refl
equal_fold_refl (x ∷ a) = rw (==_refl (lower x)) (equal_fold_refl a)
