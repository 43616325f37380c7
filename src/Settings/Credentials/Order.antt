-- ===== src/Settings/Credentials/Order.antt =====
-- The order in which credentials are offered.
use grabber.Base.{
  ℕ, ◌≤◌, List, [], ◌∷◌, ◌≡◌, refl, ◌∙◌, leb, ◌==◌, if◌then◌else◌, inl, inr, Bool-cases, All, arith,
  leb→le,
}
use grabber.Settings.Credentials.{Match, insert_match, sort_matches}

-- No match is more specific than one before it.
abbrev pub IsSorted : List Match → Type 0
IsSorted [] = Unit
IsSorted (m ∷ ms) = All (λ n. n.1 ≤ m.1) ms × IsSorted ms

-- The matches of one specificity, in order.
unfoldable pub of_length : ℕ → List Match → List Match
of_length k [] = []
of_length k (m ∷ ms) = let rest = of_length k ms in if m.1 == k then m ∷ rest else rest

insert_match-All :
    (k : ℕ) (m : Match) (ms : List Match)
    → m.1 ≤ k
    → All (λ n. n.1 ≤ k) ms
    → All (λ n. n.1 ≤ k) (insert_match m ms)
unfolding insert_match
insert_match-All k m [] h _ = (h, tt)
insert_match-All k m (n ∷ ms) h (p, ps) = elim (Bool-cases (leb n.1 m.1)) [
  | inl e ↦ rw e (h, (p, ps))
  | inr e ↦ rw e (p, insert_match-All k m ms h ps)
]

All-below : (a b : ℕ) (ms : List Match) → a ≤ b → All (λ n. n.1 ≤ a) ms → All (λ n. n.1 ≤ b) ms
All-below a b [] h _ = tt
All-below a b (m ∷ ms) h (p, ps) = (omega arith, All-below a b ms h ps)

insert_match-IsSorted : (m : Match) (ms : List Match) → IsSorted ms → IsSorted (insert_match m ms)
unfolding insert_match
insert_match-IsSorted m [] h = (tt, tt)
insert_match-IsSorted m (n ∷ ms) (p, ps) = elim (Bool-cases (leb n.1 m.1)) [
  | inl e ↦ rw e ((leb→le n.1 m.1 e, All-below n.1 m.1 ms (leb→le n.1 m.1 e) p), (p, ps))
  | inr e ↦ rw e (insert_match-All n.1 m ms (ground arith) p, insert_match-IsSorted m ms ps)
]

insert_match-of_length :
    (k : ℕ) (m : Match) (ms : List Match) → of_length k (insert_match m ms) ≡ of_length k (m ∷ ms)
unfolding insert_match of_length
insert_match-of_length k m [] = refl
insert_match-of_length k m (n ∷ ms) = ground (arith, insert_match-of_length k m ms)

of_length-cons :
    (k : ℕ) (m : Match) (xs ys : List Match)
    → of_length k xs ≡ of_length k ys
    → of_length k (m ∷ xs) ≡ of_length k (m ∷ ys)
unfolding of_length
of_length-cons k m xs ys h = rw h

sort_matches_lem :
    (ms : List Match)
    → IsSorted (sort_matches ms) × ((k : ℕ) → of_length k (sort_matches ms) ≡ of_length k ms)
unfolding sort_matches
sort_matches_lem [] = (tt, λ k. refl)
sort_matches_lem (m ∷ ms) =
    let (sorted, stable) = sort_matches_lem ms in
    (
      insert_match-IsSorted m (sort_matches ms) sorted,
      λ k. insert_match-of_length k m (sort_matches ms) ∙ of_length-cons k m _ ms (stable k),
    )

-- The matches are ordered most specific first, and those of one specificity stay in configuration
-- order: none is lost and none is added.
pub sort_matches_stable :
    (ms : List Match) (k : ℕ)
    → IsSorted (sort_matches ms) × (of_length k (sort_matches ms) ≡ of_length k ms)
sort_matches_stable ms k = let (sorted, stable) = sort_matches_lem ms in (sorted, stable k)
