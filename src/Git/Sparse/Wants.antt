-- ===== src/Git/Sparse/Wants.antt =====
-- Which objects a sparse download asks the remote for.
use grabber.Base.{
  Bool, true, false, List, [], ◌∷◌, ◌≡◌, ◌⊎◌, inl, inr, refl, subst, sym, Bool-cases, All, All-imp,
  or-eq-false, arith,
}
use grabber.Text.{Bytes, text_eq}
use grabber.Text.Laws.{text_eq_iff, text_eq_refl}
use grabber.Git.Sparse.{SparseEntry, is_seen, wants}

-- No hash stands in a list twice.
abbrev pub NoRepeats : List Bytes → Type 0
NoRepeats [] = Unit
NoRepeats (h ∷ hs) = (is_seen h hs ≡ false) × NoRepeats hs

text_eq_comm : (a b : Bytes) → text_eq a b ≡ text_eq b a
text_eq_comm a b = ground (arith, text_eq_iff a b, text_eq_iff b a)

module _ (present : Bytes → Bool) where
  wants-fresh :
      (seen : List Bytes) (es : List SparseEntry)
      → All (λ h. (present h ≡ false) × (is_seen h seen ≡ false)) (wants present seen es)
  unfolding wants is_seen
  wants-fresh seen [] = tt
  wants-fresh seen (e ∷ es) = elim (Bool-cases (is_seen e.hash seen)) [
    | inl s ↦ rw s (wants-fresh seen es)
    | inr s ↦ elim (Bool-cases (present e.hash)) [
      | inl p ↦ rw (s, p) (forget _ (wants-fresh (e.hash ∷ seen) es))
      | inr p ↦ rw (s, p) ((p, s), forget _ (wants-fresh (e.hash ∷ seen) es))
    ]
  ]
    where
      forget :
          (hs : List Bytes)
          → All (λ h. (present h ≡ false) × (is_seen h (e.hash ∷ seen) ≡ false)) hs
          → All (λ h. (present h ≡ false) × (is_seen h seen ≡ false)) hs
      forget hs k = All-imp hs (λ h (p, s). (p, (or-eq-false _ (is_seen h seen) s).1)) k

  absent :
      (h : Bytes) (seen hs : List Bytes)
      → All (λ x. (present x ≡ false) × (is_seen x (h ∷ seen) ≡ false)) hs
      → is_seen h hs ≡ false
  unfolding is_seen
  absent h seen [] k = refl
  absent h seen (x ∷ hs) ((_, s), ks) =
      let (e, _) = or-eq-false (text_eq h x) (is_seen x seen) s in
      rw (text_eq_comm x h, e) (absent h seen hs ks)

  wants-NoRepeats : (seen : List Bytes) (es : List SparseEntry) → NoRepeats (wants present seen es)
  unfolding wants
  wants-NoRepeats seen [] = tt
  wants-NoRepeats seen (e ∷ es) = elim (Bool-cases (is_seen e.hash seen)) [
    | inl s ↦ rw s (wants-NoRepeats seen es)
    | inr s ↦ elim (Bool-cases (present e.hash)) [
      | inl p ↦ rw (s, p) (wants-NoRepeats (e.hash ∷ seen) es)
      | inr p ↦
          rw (s, p)
            (
              absent e.hash seen (wants present (e.hash ∷ seen) es)
                  (wants-fresh (e.hash ∷ seen) es),
              wants-NoRepeats (e.hash ∷ seen) es,
            )
    ]
  ]

  abbrev IsCovered : List Bytes → List Bytes → SparseEntry → Type 0
  IsCovered seen hs e =
      (present e.hash ≡ true) ⊎ ((is_seen e.hash seen ≡ true) ⊎ (is_seen e.hash hs ≡ true))

  IsCovered-of_present :
      (h : Bytes) (seen hs : List Bytes) (e : SparseEntry)
      → present h ≡ true
      → IsCovered (h ∷ seen) hs e
      → IsCovered seen hs e
  unfolding is_seen
  IsCovered-of_present h seen hs e p (inl k) = inl k
  IsCovered-of_present h seen hs e p (inr (inr k)) = inr (inr k)
  IsCovered-of_present h seen hs e p (inr (inl k)) = elim (Bool-cases (text_eq h e.hash)) [
    | inl same ↦ inl (subst (λ x. present x ≡ true) ((text_eq_iff h e.hash).0 same) p)
    | inr other ↦ inr (inl (rw other at k))
  ]

  IsCovered-of_wanted :
      (h : Bytes) (seen hs : List Bytes) (e : SparseEntry)
      → IsCovered (h ∷ seen) hs e
      → IsCovered seen (h ∷ hs) e
  unfolding is_seen
  IsCovered-of_wanted h seen hs e (inl k) = inl k
  IsCovered-of_wanted h seen hs e (inr (inr k)) = inr (inr (ground (arith, k)))
  IsCovered-of_wanted h seen hs e (inr (inl k)) = elim (Bool-cases (text_eq h e.hash)) [
    | inl same ↦ inr (inr (rw same refl))
    | inr other ↦ inr (inl (rw other at k))
  ]

  wants_seen :
      (seen : List Bytes) (e : SparseEntry) (es : List SparseEntry)
      → is_seen e.hash seen ≡ true
      → wants present seen (e ∷ es) ≡ wants present seen es
  unfolding wants
  wants_seen seen e es s = rw s refl

  wants_present :
      (seen : List Bytes) (e : SparseEntry) (es : List SparseEntry)
      → is_seen e.hash seen ≡ false
      → present e.hash ≡ true
      → wants present seen (e ∷ es) ≡ wants present (e.hash ∷ seen) es
  unfolding wants
  wants_present seen e es s p = rw (s, p) refl

  wants_new :
      (seen : List Bytes) (e : SparseEntry) (es : List SparseEntry)
      → is_seen e.hash seen ≡ false
      → present e.hash ≡ false
      → wants present seen (e ∷ es) ≡ e.hash ∷ wants present (e.hash ∷ seen) es
  unfolding wants
  wants_new seen e es s p = rw (s, p) refl

  wants-IsCovered :
      (seen : List Bytes) (es : List SparseEntry) → All (IsCovered seen (wants present seen es)) es
  wants-IsCovered seen [] = tt
  wants-IsCovered seen (e ∷ es) = elim (Bool-cases (is_seen e.hash seen)) [
    | inl s ↦
        subst (λ hs. All (IsCovered seen hs) (e ∷ es)) (sym (wants_seen seen e es s))
          (inr (inl s), wants-IsCovered seen es)
    | inr s ↦ elim (Bool-cases (present e.hash)) [
      | inl p ↦
          subst (λ hs. All (IsCovered seen hs) (e ∷ es)) (sym (wants_present seen e es s p))
            (
              inl p,
              All-imp es (λ x. IsCovered-of_present e.hash seen _ x p)
                  (wants-IsCovered (e.hash ∷ seen) es),
            )
      | inr p ↦
          subst (λ hs. All (IsCovered seen hs) (e ∷ es)) (sym (wants_new seen e es s p))
            (
              IsCovered-of_wanted e.hash seen _ e (inr (inl (itself e.hash seen))),
              All-imp es (IsCovered-of_wanted e.hash seen _) (wants-IsCovered (e.hash ∷ seen) es),
            )
    ]
  ]
    where
      itself : (h : Bytes) (seen : List Bytes) → is_seen h (h ∷ seen) ≡ true
      itself h seen = unfold is_seen in rw (text_eq_refl h) refl

  -- The hashes that are asked for are missing from the object store, no two are the same, and the
  -- hash of each selected file is among them or in the store.
  pub wants-missing :
      (es : List SparseEntry)
      → All (λ h. present h ≡ false) (wants present [] es)
        × NoRepeats (wants present [] es)
        × All (λ e. (present e.hash ≡ true) ⊎ (is_seen e.hash (wants present [] es) ≡ true)) es
  wants-missing es = (
    All-imp (wants present [] es) (λ h k. k.0) (wants-fresh [] es),
    wants-NoRepeats [] es,
    All-imp es (unseen _) (wants-IsCovered [] es),
  )
    where
      unseen :
          (hs : List Bytes) (e : SparseEntry)
          → IsCovered [] hs e
          → (present e.hash ≡ true) ⊎ (is_seen e.hash hs ≡ true)
      unseen hs e (inl k) = inl k
      unseen hs e (inr (inr k)) = inr k
      unseen hs e (inr (inl k)) = absurd (unfold is_seen in cc k)
