-- ===== src/Git/Download.antt =====
-- `Download`, `gitDownload` and `cloneAndPrepare` of protocols/git/git.go: what is tried, in which
-- order, and what is reported. What each attempt does is a parameter.
pub mod Reaching
pub mod Prepare
pub mod Laws
use grabber.Base.{
  ℕ, suc, Bool, true, false, not, ◌&&◌, ◌||◌, List, [], ◌∷◌, ◌++◌, Option, none, some,
  if◌then◌else◌, Result, ok, err, length,
}
use grabber.Text.{Bytes, is_empty}
use grabber.Git.Refs.{CloneError, auth_failure, definitive_clone_error, looks_like_commit_hash}

pub data DownloadError : Type 0 where
  resolving_auth reset_failed : DownloadError
  single : CloneError → DownloadError
  -- Every credential was rejected: how many, and the last error.
  all_rejected : ℕ → CloneError → DownloadError
  joined : List CloneError → DownloadError

-- What `candidate.resolve` gives.
pub data Offer (Auth : Type 0) : Type 0 where
  offers : Auth → Offer Auth
  declines : Offer Auth
  resolve_fails : Offer Auth

last_or : CloneError → List CloneError → CloneError
last_or why [] = why
last_or why (e ∷ es) = last_or e es

-- The error when credentials were offered and none was accepted.
unfoldable pub report : List CloneError → DownloadError
unfolding last_or
report [] = joined []
report (e ∷ []) = single e
report (e ∷ f ∷ errs) =
    let last = last_or f errs in
    if auth_failure last then all_rejected (length (e ∷ f ∷ errs)) last else joined (e ∷ f ∷ errs)

abbrev pub Done : Type 0
Done = Result DownloadError (Unit {0})

-- A clone without a credential.
unfoldable pub anonymous : Result CloneError (Unit {0}) → Done
anonymous (ok _) = ok tt
anonymous (err why) = err (single why)

-- After a clone with a credential: done, the next credential, or the end of the loop.
unfoldable pub after_clone :
    List CloneError → (List CloneError → Done) → Result CloneError (Unit {0}) → Done
after_clone errs more (ok _) = ok tt
after_clone errs more (err why) =
    if auth_failure why then more (errs ++ why ∷ []) else err (report (errs ++ why ∷ []))

-- The directory is emptied before every clone but the first.
unfoldable pub reset_then : Bool → List CloneError → Done → Done
reset_then reset_ok [] next = next
reset_then reset_ok (e ∷ errs) next = if reset_ok then next else err reset_failed

module _ {Auth : Type 0} (reset_ok : Bool)
    (clone : Option Auth → Result CloneError (Unit {0})) where
  -- The loop of `gitDownload` over the credentials, with the errors so far. A credential has been
  -- offered exactly if there are any.
  unfoldable pub offer_each : List CloneError → List (Offer Auth) → Done
  offer_each [] [] = anonymous (clone none)
  offer_each (e ∷ errs) [] = err (report (e ∷ errs))
  offer_each errs (resolve_fails ∷ rest) = err resolving_auth
  offer_each errs (declines ∷ rest) = offer_each errs rest
  offer_each errs (offers auth ∷ rest) =
      reset_then reset_ok errs (after_clone errs (λ more. offer_each more rest) (clone (some auth)))

  with_options : List (Offer Auth) → Result CloneError (Unit {0}) → Done
  with_options candidates (err why) = err (single why)
  with_options candidates (ok _) = offer_each [] candidates

  -- `gitDownload`: the results of `CheckSSRFHostFor` and of `transportOptions`, and the candidates,
  -- where a credential that `authOptions` refuses fails to resolve. `clone` is `cloneAndPrepare`
  -- with a credential.
  unfoldable pub git_download :
      Result CloneError (Unit {0}) → Result CloneError (Unit {0}) → List (Offer Auth) → Done
  unfolding with_options
  git_download (err why) options candidates = err (single why)
  git_download (ok _) options candidates = with_options candidates options

-- One candidate URL: the probe's error, if any, and the result of `gitDownload`.
pub record UrlAttempt : Type 0 where
  pub probe : Option CloneError
  pub outcome : Result CloneError (Unit {0})

-- How the loop over the candidate URLs ends.
pub data Tried : Type 0 where
  downloaded : Tried
  exhausted : List CloneError → Tried
  dir_error : List CloneError → Tried

after_download : List CloneError → (List CloneError → Tried) → Result CloneError (Unit {0}) → Tried
after_download errs more (ok _) = downloaded
after_download errs more (err why) =
    if definitive_clone_error why then exhausted (errs ++ why ∷ []) else more (errs ++ why ∷ [])

url_round : List CloneError → (List CloneError → Tried) → UrlAttempt → Tried
unfolding after_download
url_round errs more u = elim u.probe [
  | some why ↦ more (errs ++ why ∷ [])
  | none ↦ after_download errs more u.outcome
]

-- The loop of `Download`; the flag is `i == 0`.
unfoldable pub try_urls : Bool → Bool → List CloneError → List UrlAttempt → Tried
unfolding url_round
try_urls reset_ok first errs [] = exhausted errs
try_urls reset_ok first errs (u ∷ us) =
    if not first && not reset_ok
    then dir_error errs
    else url_round errs (λ more. try_urls reset_ok false more us) u

pub data Final : Type 0 where
  by_git by_archive : Final
  failed_with : List CloneError → Final
  clean_failed : List CloneError → Final

archived : List CloneError → Option CloneError → Final
archived errs none = by_archive
archived errs (some why) = failed_with (errs ++ why ∷ [])

-- `Download` after the loop; `archive` is the error of `fetchArchive`.
unfoldable pub finish : Bool → Bool → Bytes → Option CloneError → Tried → Final
unfolding archived
finish reset_ok context_live ref archive downloaded = by_git
finish reset_ok context_live ref archive (dir_error errs) = clean_failed errs
finish reset_ok context_live ref archive (exhausted errs) =
    if looks_like_commit_hash ref && context_live
    then (if reset_ok then archived errs archive else clean_failed errs)
    else failed_with errs

-- `Download`
unfoldable pub download : Bool → Bool → Bytes → Option CloneError → List UrlAttempt → Final
download reset_ok context_live ref archive urls =
    finish reset_ok context_live ref archive (try_urls reset_ok true [] urls)
