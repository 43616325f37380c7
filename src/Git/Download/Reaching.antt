-- ===== src/Git/Download/Reaching.antt =====
-- Which candidate URL a download is served by.
use grabber.Base.{
  ◌↔◌, Bool, true, false, ◌&&◌, List, [], ◌∷◌, ◌++◌, ◌≡◌, ◌⊎◌, inl, inr, refl, sym, ◌∙◌, Option,
  none, some, Result, ok, err, Bool-cases, Option-cases,
}
use grabber.Text.{Bytes}
use grabber.Git.Refs.{CloneError, definitive_clone_error, looks_like_commit_hash}
use grabber.Git.Download.{
  UrlAttempt, Tried, downloaded, exhausted, dir_error, after_download, url_round, try_urls, by_git,
  archived, finish, download,
}

-- A URL is reached and cloned, and each one before it is unreachable or fails in a way that another
-- URL may mend.
pub data Reaches : List UrlAttempt → Type 0 where
  here :
      {u : UrlAttempt} {us : List UrlAttempt}
      → u.probe ≡ none
      → u.outcome ≡ ok tt
      → Reaches (u ∷ us)
  unreachable :
      {u : UrlAttempt} {us : List UrlAttempt} (why : CloneError)
      → u.probe ≡ some why
      → Reaches us
      → Reaches (u ∷ us)
  mendable :
      {u : UrlAttempt} {us : List UrlAttempt} (why : CloneError)
      → u.probe ≡ none
      → u.outcome ≡ err why
      → definitive_clone_error why ≡ false
      → Reaches us
      → Reaches (u ∷ us)

-- On a disk that can be cleared, the first round is like the others.
try_urls-round :
    (first : Bool) (errs : List CloneError) (u : UrlAttempt) (us : List UrlAttempt)
    → try_urls true first errs (u ∷ us) ≡ url_round errs (λ more. try_urls true false more us) u
unfolding try_urls
try_urls-round true errs u us = refl
try_urls-round false errs u us = refl

url_round_reached :
    (errs : List CloneError) (more : List CloneError → Tried) (u : UrlAttempt)
    → u.probe ≡ none
    → url_round errs more u ≡ after_download errs more u.outcome
unfolding url_round
url_round_reached errs more u p = rw (url_round, p) refl

url_round_unreachable :
    (errs : List CloneError) (more : List CloneError → Tried) (u : UrlAttempt) (why : CloneError)
    → u.probe ≡ some why
    → url_round errs more u ≡ more (errs ++ why ∷ [])
unfolding url_round
url_round_unreachable errs more u why p = rw (url_round, p) refl

after_download-eq-downloaded :
    (errs : List CloneError) (more : List CloneError → Tried) (r : Result CloneError (Unit {0}))
    → after_download errs more r ≡ downloaded
    → (r ≡ ok tt)
      ⊎ ((why : CloneError) × (r ≡ err why)
          × (definitive_clone_error why ≡ false)
          × (more (errs ++ why ∷ []) ≡ downloaded))
unfolding after_download
after_download-eq-downloaded errs more (ok _) h = inl refl
after_download-eq-downloaded errs more (err why) h =
    elim (Bool-cases (definitive_clone_error why)) [
      | inl d ↦ absurd (cc (rw d at h))
      | inr d ↦ inr (why, refl, d, rw d at h)
    ]

try_urls-Reaches :
    (first : Bool) (errs : List CloneError) (us : List UrlAttempt)
    → try_urls true first errs us ≡ downloaded
    → Reaches us
try_urls-Reaches first errs [] h = absurd (unfold try_urls in cc h)
try_urls-Reaches first errs (u ∷ us) h =
    by_probe (λ more. try_urls-Reaches false more us) (Option-cases u.probe)
      (rw (try_urls-round first errs u us) at h)
  where
    by_outcome :
        ((more : List CloneError) → try_urls true false more us ≡ downloaded → Reaches us)
        → u.probe ≡ none
        → (u.outcome ≡ ok tt)
          ⊎ ((why : CloneError) × (u.outcome ≡ err why)
              × (definitive_clone_error why ≡ false)
              × (try_urls true false (errs ++ why ∷ []) us ≡ downloaded))
        → Reaches (u ∷ us)
    by_outcome later p (inl e) = here p e
    by_outcome later p (inr (why, e, d, k)) = mendable why p e d (later (errs ++ why ∷ []) k)

    by_probe :
        ((more : List CloneError) → try_urls true false more us ≡ downloaded → Reaches us)
        → (u.probe ≡ none) ⊎ ((why : CloneError) × (u.probe ≡ some why))
        → url_round errs (λ more. try_urls true false more us) u ≡ downloaded
        → Reaches (u ∷ us)
    by_probe later (inr (why, p)) k = unreachable why p (
        later (errs ++ why ∷ [])
          (sym (url_round_unreachable errs (λ more. try_urls true false more us) u why p) ∙ k))
    by_probe later (inl p) k = by_outcome later p (
        after_download-eq-downloaded errs (λ more. try_urls true false more us) u.outcome
          (sym (url_round_reached errs (λ more. try_urls true false more us) u p) ∙ k))

after_mendable :
    (errs : List CloneError) (more : List CloneError → Tried) (o : Result CloneError (Unit {0}))
    (why : CloneError)
    → o ≡ err why
    → definitive_clone_error why ≡ false
    → after_download errs more o ≡ more (errs ++ why ∷ [])
unfolding after_download
after_mendable errs more o why e d = rw (e, d) refl

Reaches-try_urls :
    (first : Bool) (errs : List CloneError) (us : List UrlAttempt)
    → Reaches us
    → try_urls true first errs us ≡ downloaded
Reaches-try_urls first errs [] h = elim h [ ]
Reaches-try_urls first errs (u ∷ us) (here p e) =
    try_urls-round first errs u us ∙ url_round_reached errs _ u p ∙ cloned u.outcome e
  where
    cloned :
        (o : Result CloneError (Unit {0}))
        → o ≡ ok tt
        → after_download errs (λ more. try_urls true false more us) o ≡ downloaded
    cloned (ok _) e = unfold after_download in refl
    cloned (err why) e = absurd (cc e)
Reaches-try_urls first errs (u ∷ us) (unreachable why p r) =
    try_urls-round first errs u us
    ∙ url_round_unreachable errs _ u why p
    ∙ Reaches-try_urls false (errs ++ why ∷ []) us r
Reaches-try_urls first errs (u ∷ us) (mendable why p e d r) =
    try_urls-round first errs u us
    ∙ url_round_reached errs _ u p
    ∙ after_mendable errs _ u.outcome why e d
    ∙ Reaches-try_urls false (errs ++ why ∷ []) us r

archived-not-by_git :
    (errs : List CloneError) (o : Option CloneError) → archived errs o ≡ by_git → ⊥
unfolding archived
archived-not-by_git errs none h = cc
archived-not-by_git errs (some why) h = cc

finish-eq-by_git :
    (live : Bool) (ref : Bytes) (archive : Option CloneError) (t : Tried)
    → finish true live ref archive t ≡ by_git
    → t ≡ downloaded
unfolding finish
finish-eq-by_git live ref archive downloaded h = refl
finish-eq-by_git live ref archive (dir_error errs) h = absurd (cc h)
finish-eq-by_git live ref archive (exhausted errs) h =
    elim (Bool-cases (looks_like_commit_hash ref && live)) [
      | inl e ↦ absurd (archived-not-by_git errs archive (rw e at h))
      | inr e ↦ absurd (cc (rw e at h))
    ]

-- On a disk that can be cleared, a download is served by git exactly if some candidate URL is
-- reached and cloned, and each one before it is unreachable or fails with an error that is not
-- definitive.
pub download_iff :
    (live : Bool) (ref : Bytes) (archive : Option CloneError) (urls : List UrlAttempt)
    → (download true live ref archive urls ≡ by_git) ↔ Reaches urls
unfolding download
download_iff live ref archive urls = (there, back)
  where
    there : finish true live ref archive (try_urls true true [] urls) ≡ by_git → Reaches urls
    there h =
        try_urls-Reaches true [] urls
          (finish-eq-by_git live ref archive (try_urls true true [] urls) h)

    back : Reaches urls → finish true live ref archive (try_urls true true [] urls) ≡ by_git
    back r = rw (Reaches-try_urls true [] urls r) (unfold finish in refl)
