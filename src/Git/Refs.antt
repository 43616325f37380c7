-- ===== src/Git/Refs.antt =====
-- References: `looksLikeCommitHash`, `cloneAttempts`, `qualifiedRefName`, `tagMode`,
-- `resolveDepth`, `missingRef`, `cloneByAttempts` and `resolveCommitHash` of protocols/git/git.go.
pub mod Laws
use grabber.Base.{
  ℕ, suc, Bool, true, false, not, ◌&&◌, ◌||◌, List, [], ◌∷◌, ◌++◌, Option, none, some,
  if◌then◌else◌, ◌==◌, leb, ltb, length, all, Result, ok, err,
}
use grabber.Text.{Bytes, codes, is_empty, contains, has_prefix, trim_prefix, to_lower}
use grabber.Settings.Types.{Settings}
use grabber.Git.Url.{Downloader}

unfoldable pub is_hex_digit : ℕ → Bool
is_hex_digit c =
    not ((ltb c b'0' || ltb b'9' c) && (ltb c b'a' || ltb b'f' c) && (ltb c b'A' || ltb b'F' c))

-- `looksLikeCommitHash`
unfoldable pub looks_like_commit_hash : Bytes → Bool
looks_like_commit_hash ref =
    if ltb (length ref) 7 || ltb 40 (length ref) then false else all is_hex_digit ref

-- `cloneAttempt`
pub record CloneAttempt : Type 0 where
  pub ref_name : Bytes
  pub single_branch : Bool

unfoldable pub branch_ref : Bytes → Bytes
branch_ref name = codes "refs/heads/" ++ name

unfoldable pub tag_ref : Bytes → Bytes
tag_ref name = codes "refs/tags/" ++ name

-- `qualifiedRefName`; `none` for false.
unfoldable pub qualified_ref_name : Bytes → Option Bytes
qualified_ref_name ref =
    if has_prefix (codes "refs/") ref
    then some ref
    else if has_prefix (codes "tags/") ref
    then some (tag_ref (trim_prefix (codes "tags/") ref))
    else if has_prefix (codes "heads/") ref
    then some (branch_ref (trim_prefix (codes "heads/") ref))
    else none

abbrev attempt : Bytes → Bool → CloneAttempt
attempt name single = record { ref_name = name; single_branch = single }

named_attempts : Bytes → Option Bytes → List CloneAttempt
named_attempts ref (some qualified) = attempt qualified true ∷ []
named_attempts ref none =
    attempt (branch_ref ref) true
    ∷ attempt (tag_ref ref) true
    ∷ (if contains (codes "/") ref then attempt (codes "refs/" ++ ref) true ∷ [] else [])

-- `cloneAttempts`
unfoldable pub clone_attempts : Bytes → List CloneAttempt
unfolding named_attempts
clone_attempts ref =
    if looks_like_commit_hash ref
    then attempt [] false ∷ []
    else if is_empty ref
    then attempt [] true ∷ []
    else named_attempts ref (qualified_ref_name ref)

pub data TagMode : Type 0 where
  all_tags no_tags : TagMode

-- `tagMode`
unfoldable pub tag_mode : Bytes → TagMode
tag_mode ref = if looks_like_commit_hash ref then all_tags else no_tags

-- `resolveDepth`; 0 is a full clone.
unfoldable pub resolve_depth : Downloader → Settings → ℕ
resolve_depth d s =
    if ltb 0 d.depth
    then d.depth
    else if ltb 0 s.git.depth
    then s.git.depth
    else if looks_like_commit_hash d.ref
    then 0
    else 1

-- What go-git reports of a failed clone.
pub data CloneError : Type 0 where
  ref_not_found empty_repository canceled deadline_exceeded : CloneError
  authentication_required authorization_failed other_error : CloneError
  -- `ErrRemoteRefNotFound` with the reference that the caller asked for.
  named_ref_not_found : Bytes → CloneError

-- `definitiveCloneError`
unfoldable pub definitive_clone_error : CloneError → Bool
definitive_clone_error ref_not_found = true
definitive_clone_error empty_repository = true
definitive_clone_error canceled = true
definitive_clone_error deadline_exceeded = true
definitive_clone_error (named_ref_not_found ref) = true
definitive_clone_error _ = false

-- `authFailure`
unfoldable pub auth_failure : CloneError → Bool
auth_failure authentication_required = true
auth_failure authorization_failed = true
auth_failure _ = false

-- `missingRef`
unfoldable pub missing_ref : CloneAttempt → CloneError → Bool
missing_ref a ref_not_found = true
missing_ref a (named_ref_not_found ref) = true
missing_ref a empty_repository = not (is_empty a.ref_name)
missing_ref a _ = false

-- The error when every attempt has failed with a missing reference; `why` is the last one's.
all_missing : Bytes → List CloneAttempt → CloneError → CloneError
all_missing ref (a ∷ b ∷ attempts) why = named_ref_not_found ref
all_missing ref (a ∷ []) empty_repository =
    if not (is_empty a.ref_name) then named_ref_not_found ref else empty_repository
all_missing ref attempts why = why

-- The loop of `cloneByAttempts` over go-git's clone.
unfoldable pub try_attempts {ℓ} :
    {R : Type ℓ}
    → (CloneAttempt → Result CloneError R)
    → CloneError
    → List CloneAttempt
    → (CloneError → CloneError)
    → Result CloneError R
try_attempts clone why [] finish = err (finish why)
try_attempts clone why (a ∷ rest) finish = elim (clone a) [
  | ok repo ↦ ok repo
  | err e ↦ elim (missing_ref a e) [ true ↦ try_attempts clone e rest finish | false ↦ err e ]
]

-- `cloneByAttempts`, called with at least one attempt.
unfoldable pub clone_by_attempts {ℓ} :
    {R : Type ℓ}
    → (CloneAttempt → Result CloneError R)
    → List CloneAttempt
    → Bytes
    → Result CloneError R
unfolding all_missing
clone_by_attempts clone attempts ref =
    try_attempts clone other_error attempts (all_missing ref attempts)

pub data ResolveError : Type 0 where
  log_failed not_found ambiguous : ResolveError

abbrev Match : Type 0
Match = Option Bytes

matched_or : Match → Result ResolveError Bytes
matched_or none = err not_found
matched_or (some h) = ok h

-- The loop over the commit log; `none` in the list is an error of the iterator.
unfoldable pub match_short : Bytes → Match → List (Option Bytes) → Result ResolveError Bytes
unfolding matched_or
match_short lower m [] = matched_or m
match_short lower m (none ∷ commits) = err log_failed
match_short lower none (some h ∷ commits) =
    match_short lower (if has_prefix lower h then some h else none) commits
match_short lower (some found) (some h ∷ commits) =
    let rest = match_short lower (some found) commits in
    if has_prefix lower h then err ambiguous else rest

-- `resolveCommitHash`: `has_commit` looks a full hash up, and `log` lists every commit's hash
-- in lower-case hexadecimal.
unfoldable pub resolve_commit_hash :
    (Bytes → Bool) → Option (List (Option Bytes)) → Bytes → Result ResolveError Bytes
resolve_commit_hash has_commit log ref =
    if length ref == 40
    then (if has_commit (to_lower ref) then ok (to_lower ref) else err not_found)
    else (elim log [
      | none ↦ err log_failed
      | some commits ↦ match_short (to_lower ref) none commits
    ])
