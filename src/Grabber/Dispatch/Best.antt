-- ===== src/Grabber/Dispatch/Best.antt =====
-- Which protocol takes a URL.
use grabber.Base.{
  ◌≤◌, true, false, List, [], ◌∷◌, ◌≡◌, ◌⊎◌, inl, inr, refl, none, some, Bool-cases, Option-cases,
  All, All-imp, arith,
}
use grabber.Text.{Bytes}
use grabber.Grabber.Dispatch.{
  Protocol, chosen, protocol_less, insert_protocol, sort_protocols, by_detection,
}

module _ {D : Type 0} where
  abbrev Falls : Protocol D → List (Protocol D) → Type 0
  Falls p qs = All (λ q. q.priority ≤ p.priority) qs

  abbrev Sorted : List (Protocol D) → Type 0
  Sorted [] = Unit
  Sorted (p ∷ ps) = Falls p ps × Sorted ps

  less_priority : (p q : Protocol D) → protocol_less q p ≡ true → p.priority ≤ q.priority
  unfolding protocol_less
  less_priority p q h = ground arith

  not_less_priority : (p q : Protocol D) → protocol_less q p ≡ false → q.priority ≤ p.priority
  unfolding protocol_less
  not_less_priority p q h = ground arith

  Falls-trans :
      (p q : Protocol D) (ps : List (Protocol D))
      → q.priority ≤ p.priority
      → Falls q ps
      → Falls p ps
  Falls-trans p q [] h _ = tt
  Falls-trans p q (r ∷ rs) h (k, ks) = (omega arith, Falls-trans p q rs h ks)

  insert_protocol-All :
      (P : Protocol D → Type 0) (p : Protocol D) (ps : List (Protocol D))
      → P p
      → All P ps
      → All P (insert_protocol p ps)
  unfolding insert_protocol
  insert_protocol-All P p [] h _ = (h, tt)
  insert_protocol-All P p (q ∷ qs) h (k, ks) = elim (Bool-cases (protocol_less q p)) [
    | inl e ↦ rw e (k, insert_protocol-All P p qs h ks)
    | inr e ↦ rw e (h, (k, ks))
  ]

  insert_protocol-Sorted :
      (p : Protocol D) (ps : List (Protocol D)) → Sorted ps → Sorted (insert_protocol p ps)
  unfolding insert_protocol
  insert_protocol-Sorted p [] _ = (tt, tt)
  insert_protocol-Sorted p (q ∷ qs) (f, s) = elim (Bool-cases (protocol_less q p)) [
    | inl e ↦ rw e (
      insert_protocol-All (λ r. r.priority ≤ q.priority) p qs (less_priority p q e) f,
      insert_protocol-Sorted p qs s,
    )
    | inr e ↦
        let below = not_less_priority p q e in rw e ((below, Falls-trans p q qs below f), (f, s))
  ]

  sort_protocols-Sorted : (ps : List (Protocol D)) → Sorted (sort_protocols ps)
  unfolding sort_protocols
  sort_protocols-Sorted [] = tt
  sort_protocols-Sorted (p ∷ ps) =
      insert_protocol-Sorted p (sort_protocols ps) (sort_protocols-Sorted ps)

  -- A member of a list.
  pub data IsOneOf (p : Protocol D) : List (Protocol D) → Type 0 where
    first : {q : Protocol D} {ps : List (Protocol D)} → p ≡ q → IsOneOf p (q ∷ ps)
    other : {q : Protocol D} {ps : List (Protocol D)} → IsOneOf p ps → IsOneOf p (q ∷ ps)

  insert_protocol-IsOneOf :
      (r p : Protocol D) (ps : List (Protocol D))
      → IsOneOf r (insert_protocol p ps)
      → (r ≡ p) ⊎ IsOneOf r ps
  unfolding insert_protocol
  insert_protocol-IsOneOf r p [] h = of_single h
    where
      of_single : IsOneOf r (p ∷ []) → (r ≡ p) ⊎ IsOneOf r []
      of_single (first e) = inl e
      of_single (other k) = inr k
  insert_protocol-IsOneOf r p (q ∷ qs) h = elim (Bool-cases (protocol_less q p)) [
    | inl e ↦ past_q (insert_protocol-IsOneOf r p qs) (rw e at h)
    | inr e ↦ at_p (rw e at h)
  ]
    where
      past_q :
          {rest : List (Protocol D)}
          → (IsOneOf r rest → (r ≡ p) ⊎ IsOneOf r qs)
          → IsOneOf r (q ∷ rest)
          → (r ≡ p) ⊎ IsOneOf r (q ∷ qs)
      past_q f (first e) = inr (first e)
      past_q f (other k) = elim (f k) [ inl e ↦ inl e | inr m ↦ inr (other m) ]

      at_p : IsOneOf r (p ∷ q ∷ qs) → (r ≡ p) ⊎ IsOneOf r (q ∷ qs)
      at_p (first e) = inl e
      at_p (other k) = inr k

  sort_protocols-IsOneOf :
      (r : Protocol D) (ps : List (Protocol D)) → IsOneOf r (sort_protocols ps) → IsOneOf r ps
  unfolding sort_protocols
  sort_protocols-IsOneOf r [] h = h
  sort_protocols-IsOneOf r (p ∷ ps) h = elim (insert_protocol-IsOneOf r p (sort_protocols ps) h) [
    | inl e ↦ first e
    | inr k ↦ other (sort_protocols-IsOneOf r ps k)
  ]

  insert_protocol-All_back :
      (P : Protocol D → Type 0) (p : Protocol D) (qs : List (Protocol D))
      → All P (insert_protocol p qs)
      → P p × All P qs
  unfolding insert_protocol
  insert_protocol-All_back P p [] h = h
  insert_protocol-All_back P p (q ∷ qs) h = elim (Bool-cases (protocol_less q p)) [
    | inl e ↦
        let (k, ks) = rw e at h in let (l, ls) = insert_protocol-All_back P p qs ks in (l, (k, ls))
    | inr e ↦ rw e at h
  ]

  sort_protocols-All :
      (P : Protocol D → Type 0) (ps : List (Protocol D)) → All P (sort_protocols ps) → All P ps
  unfolding sort_protocols
  sort_protocols-All P [] h = tt
  sort_protocols-All P (p ∷ ps) h =
      let (k, ks) = insert_protocol-All_back P p (sort_protocols ps) h in
      (k, sort_protocols-All P ps ks)

  -- A protocol that detects the URL, with no higher priority among the others that do.
  pub record IsBest (url : Bytes) (d : D) (ps : List (Protocol D)) : Type 0 where
    pub protocol : Protocol D
    pub one : IsOneOf protocol ps
    pub detects : protocol.detect url ≡ some d
    pub highest : All (λ q. (q.detect url ≡ none) ⊎ (q.priority ≤ protocol.priority)) ps

  by_detection-IsBest :
      (url : Bytes) (d : D) (ps : List (Protocol D))
      → Sorted ps
      → by_detection url ps ≡ chosen d
      → IsBest url d ps
  unfolding by_detection
  by_detection-IsBest url d [] s h = absurd (cc h)
  by_detection-IsBest url d (p ∷ ps) (f, s) h = elim (Option-cases (p.detect url)) [
    | inl e ↦
        let best = by_detection-IsBest url d ps s (rw e at h) in
        record {
          protocol = best.protocol;
          one = other best.one;
          detects = best.detects;
          highest = (inl e, best.highest);
        }
    | inr (d', e) ↦ record {
      protocol = p;
      one = first refl;
      detects = cc (e, rw e at h);
      highest = (inr (omega arith), All-imp ps (λ q k. inr k) f);
    }
  ]

  -- A protocol that automatic detection chooses from the sorted protocols is one of those that are
  -- registered, detects the URL, and has the highest priority of those that do.
  pub sort_protocols-IsBest :
      (url : Bytes) (d : D) (ps : List (Protocol D))
      → by_detection url (sort_protocols ps) ≡ chosen d
      → IsBest url d ps
  sort_protocols-IsBest url d ps h =
      let best = by_detection-IsBest url d (sort_protocols ps) (sort_protocols-Sorted ps) h in
      record {
        protocol = best.protocol;
        one = sort_protocols-IsOneOf best.protocol ps best.one;
        detects = best.detects;
        highest = sort_protocols-All _ ps best.highest;
      }
