-- ===== src/Git/Download/Laws.antt =====
-- Which credential decides a download, and when it fails.
use mathlib.Core.List.{concat-ne-nil}
use grabber.Base.{
  ◌↔◌, Bool, true, false, List, [], ◌∷◌, ◌++◌, ◌≡◌, ◌≢◌, ◌⊎◌, inl, inr, refl, ◌∙◌, Option, none,
  some, Result, ok, err, Bool-cases,
}
use grabber.Git.Refs.{CloneError, auth_failure}
use grabber.Git.Download.{
  DownloadError, Offer, offers, declines, resolve_fails, offer_each, after_clone, reset_then,
  anonymous, git_download,
}

module _ {Auth : Type 0} (clone : Option Auth → Result CloneError (Unit {0})) where
  -- Some credential is accepted, and each one before it is declined by its source or rejected.
  pub data Accepted : List (Offer Auth) → Type 0 where
    here :
        {a : Auth} {rest : List (Offer Auth)} → clone (some a) ≡ ok tt → Accepted (offers a ∷ rest)
    after_declined : {rest : List (Offer Auth)} → Accepted rest → Accepted (declines ∷ rest)
    after_rejected :
        {a : Auth} {why : CloneError} {rest : List (Offer Auth)}
        → clone (some a) ≡ err why
        → auth_failure why ≡ true
        → Accepted rest
        → Accepted (offers a ∷ rest)

  -- No source has a credential.
  pub data NoneOffered : List (Offer Auth) → Type 0 where
    none_left : NoneOffered []
    declined : {rest : List (Offer Auth)} → NoneOffered rest → NoneOffered (declines ∷ rest)

  reset_then_ok :
      (errs : List CloneError) (next : Result DownloadError (Unit {0}))
      → reset_then true errs next ≡ next
  unfolding reset_then
  reset_then_ok [] next = refl
  reset_then_ok (e ∷ errs) next = refl

  -- A rejected credential does not shadow one that works.
  offer_each_of_Accepted :
      (errs : List CloneError) {candidates : List (Offer Auth)}
      → Accepted candidates
      → offer_each true clone errs candidates ≡ ok tt
  unfolding offer_each after_clone
  offer_each_of_Accepted [] (here h) = rw h (unfold reset_then in refl)
  offer_each_of_Accepted (e ∷ errs) (here h) = rw h (unfold reset_then in refl)
  offer_each_of_Accepted [] (after_declined r) = offer_each_of_Accepted [] r
  offer_each_of_Accepted (e ∷ errs) (after_declined r) = offer_each_of_Accepted (e ∷ errs) r
  offer_each_of_Accepted [] (after_rejected {why} h k r) =
      rw h (rw k (hand_over [] (offer_each_of_Accepted (why ∷ []) r)))
    where
      hand_over :
          (errs : List CloneError) {x : Result DownloadError (Unit {0})}
          → x ≡ ok tt
          → reset_then true errs x ≡ ok tt
      hand_over errs {x} e = reset_then_ok errs x ∙ e
  offer_each_of_Accepted (e ∷ errs) (after_rejected {why} h k r) =
      rw h (rw k (reset_then_ok (e ∷ errs) _ ∙ offer_each_of_Accepted ((e ∷ errs) ++ why ∷ []) r))

  reset_then-eq-ok :
      (reset_ok : Bool) (errs : List CloneError) (next : Result DownloadError (Unit {0}))
      → reset_then reset_ok errs next ≡ ok tt
      → next ≡ ok tt
  unfolding reset_then
  reset_then-eq-ok reset_ok [] next h = h
  reset_then-eq-ok true (e ∷ errs) next h = h
  reset_then-eq-ok false (e ∷ errs) next h = absurd (cc h)

  after_clone-eq-ok :
      (errs : List CloneError) (more : List CloneError → Result DownloadError (Unit {0}))
      (r : Result CloneError (Unit {0}))
      → after_clone errs more r ≡ ok tt
      → (r ≡ ok tt)
        ⊎ ((why : CloneError) × (r ≡ err why)
            × (auth_failure why ≡ true)
            × (more (errs ++ why ∷ []) ≡ ok tt))
  unfolding after_clone
  after_clone-eq-ok errs more (ok _) h = inl refl
  after_clone-eq-ok errs more (err why) h = elim (Bool-cases (auth_failure why)) [
    | inl k ↦ inr (why, refl, k, rw k at h)
    | inr k ↦ absurd (cc (rw k at h))
  ]

  module _ (reset_ok : Bool) where
    after_offer :
        (errs : List CloneError) {a : Auth} {rest : List (Offer Auth)}
        → ((more : List CloneError)
            → more ≢ []
            → offer_each reset_ok clone more rest ≡ ok tt
            → Accepted rest)
        → (clone (some a) ≡ ok tt)
          ⊎ ((why : CloneError) × (clone (some a) ≡ err why)
              × (auth_failure why ≡ true)
              × (offer_each reset_ok clone (errs ++ why ∷ []) rest ≡ ok tt))
        → Accepted (offers a ∷ rest)
    after_offer errs later (inl h) = here h
    after_offer errs later (inr (why, h, k, m)) =
        after_rejected h k (later (errs ++ why ∷ []) (concat-ne-nil why errs) m)

    Accepted-of_errs :
        (e : CloneError) (errs : List CloneError) (candidates : List (Offer Auth))
        → offer_each reset_ok clone (e ∷ errs) candidates ≡ ok tt
        → Accepted candidates
    unfolding offer_each
    Accepted-of_errs e errs [] h = absurd (cc h)
    Accepted-of_errs e errs (resolve_fails ∷ rest) h = absurd (cc h)
    Accepted-of_errs e errs (declines ∷ rest) h = after_declined (Accepted-of_errs e errs rest h)
    Accepted-of_errs e errs (offers a ∷ rest) h =
        after_offer (e ∷ errs) (later (λ e' errs' k. Accepted-of_errs e' errs' rest k)) (
          after_clone-eq-ok (e ∷ errs) (λ more. offer_each reset_ok clone more rest)
            (clone (some a)) (reset_then-eq-ok reset_ok (e ∷ errs) _ h))
      where
        later :
            ((e' : CloneError) (errs' : List CloneError)
              → offer_each reset_ok clone (e' ∷ errs') rest ≡ ok tt
              → Accepted rest)
            → (more : List CloneError) → more ≢ []
            → offer_each reset_ok clone more rest ≡ ok tt
            → Accepted rest
        later f [] ne k = absurd (ne refl)
        later f (e' ∷ errs') ne k = f e' errs' k

    Accepted-or-anonymous :
        (candidates : List (Offer Auth))
        → offer_each reset_ok clone [] candidates ≡ ok tt
        → Accepted candidates ⊎ (NoneOffered candidates × (clone none ≡ ok tt))
    unfolding offer_each
    Accepted-or-anonymous [] h = inr (none_left, anonymous_ok (clone none) h)
      where
        anonymous_ok : (r : Result CloneError (Unit {0})) → anonymous r ≡ ok tt → r ≡ ok tt
        anonymous_ok (ok _) h = refl
        anonymous_ok (err why) h = absurd (unfold anonymous in cc h)
    Accepted-or-anonymous (resolve_fails ∷ rest) h = absurd (cc h)
    Accepted-or-anonymous (declines ∷ rest) h = pass (Accepted-or-anonymous rest h)
      where
        pass :
            Accepted rest ⊎ (NoneOffered rest × (clone none ≡ ok tt))
            → Accepted (declines ∷ rest) ⊎ (NoneOffered (declines ∷ rest) × (clone none ≡ ok tt))
        pass (inl a) = inl (after_declined a)
        pass (inr (n, c)) = inr (declined n, c)
    Accepted-or-anonymous (offers a ∷ rest) h = inl (
        after_offer [] later (
          after_clone-eq-ok [] (λ more. offer_each reset_ok clone more rest) (clone (some a))
            (reset_then-eq-ok reset_ok [] _ h)))
      where
        later :
            (more : List CloneError)
            → more ≢ []
            → offer_each reset_ok clone more rest ≡ ok tt
            → Accepted rest
        later [] ne k = absurd (ne refl)
        later (e' ∷ errs') ne k = Accepted-of_errs e' errs' rest k

  NoneOffered-anonymous :
      {candidates : List (Offer Auth)}
      → NoneOffered candidates
      → clone none ≡ ok tt
      → offer_each true clone [] candidates ≡ ok tt
  unfolding offer_each anonymous
  NoneOffered-anonymous none_left h = rw h
  NoneOffered-anonymous (declined n) h = NoneOffered-anonymous n h

  -- On a disk that can be cleared, a clone succeeds exactly if the check of the host and the setup
  -- of the transport give no error, and some credential is accepted after sources that decline and
  -- credentials that are rejected, or no source has a credential and the remote accepts an
  -- anonymous clone.
  pub git_download_iff :
      (host options : Result CloneError (Unit {0})) (candidates : List (Offer Auth))
      → (git_download true clone host options candidates ≡ ok tt) ↔ (
          (host ≡ ok tt)
          × (options ≡ ok tt)
          × (Accepted candidates ⊎ (NoneOffered candidates × (clone none ≡ ok tt))))
  unfolding git_download
  git_download_iff host options candidates = (there host options, back)
    where
      there :
          (h o : Result CloneError (Unit {0}))
          → git_download true clone h o candidates ≡ ok tt
          → (h ≡ ok tt)
            × (o ≡ ok tt)
            × (Accepted candidates ⊎ (NoneOffered candidates × (clone none ≡ ok tt)))
      there (err why) o e = absurd (unfold git_download in cc e)
      there (ok _) (err why) e = absurd (unfold git_download in cc e)
      there (ok _) (ok _) e =
          (refl, refl, Accepted-or-anonymous true candidates (unfold git_download in e))

      back :
          (host ≡ ok tt)
            × (options ≡ ok tt)
            × (Accepted candidates ⊎ (NoneOffered candidates × (clone none ≡ ok tt)))
          → git_download true clone host options candidates ≡ ok tt
      back (e, f, inl a) = rw (e, f) (offer_each_of_Accepted [] a)
      back (e, f, inr (n, h)) = rw (e, f) (NoneOffered-anonymous n h)
