-- ===== src/Git/Pinned.antt =====
-- protocols/git/pinned.go: a commit that is fetched by its hash. go-git and the disk are a record
-- of results.
use grabber.Base.{
  ℕ, Bool, true, false, not, ◌&&◌, ◌||◌, List, [], ◌∷◌, Option, none, some, if◌then◌else◌, ltb,
  ◌==◌, length,
}
use grabber.Text.{Bytes, codes, contains, to_lower}
use grabber.Settings.Types.{Settings}
use grabber.Git.Url.{Downloader}
use grabber.Git.Refs.{
  CloneError, ref_not_found, empty_repository, looks_like_commit_hash, auth_failure,
  definitive_clone_error, resolve_depth,
}
use grabber.Git.Sparse.{Mode, materialisable}
use grabber.Git.Download.Prepare.{Partial, served, unsupported, broken}

-- An error of a fetch: what `errors.Is` finds in it, whether `errWantsRestricted` is among it, and
-- the text of a `pktline.ErrorLine` and the reason of a `RemoteError`, if it has one.
pub record FetchError : Type 0 where
  pub why : CloneError
  pub wants_restricted : Bool
  pub line : Option Bytes
  pub remote : Option Bytes

-- What the tree walker gives: an entry with its mode and its hash, or an error.
abbrev pub Walk : Type 0
Walk = List (Option (Mode × Bytes))

pub record PinnedWorld : Type 0 where
  pub init : Option CloneError
  pub create_remote : Option CloneError
  -- The fetch of a commit with a depth.
  pub fetch_objects : Bytes → ℕ → Option FetchError
  pub context_done : Bool
  -- `none` if the commit or its tree is missing.
  pub commit_tree : Bytes → Option Walk
  pub has_object : Bytes → Bool

-- `pinnedCommitEligible`
unfoldable pub pinned_commit_eligible : Downloader → Bool
pinned_commit_eligible d = length d.ref == 40 && looks_like_commit_hash d.ref

is_empty_repository : CloneError → Bool
is_empty_repository empty_repository = true
is_empty_repository _ = false

says_not_ours : Option Bytes → Bool
says_not_ours none = false
says_not_ours (some text) = contains (codes "not our ref") text

-- `commitMissingOnRemote`
unfoldable pub commit_missing_on_remote : FetchError → Bool
unfolding is_empty_repository says_not_ours
commit_missing_on_remote e =
    if e.wants_restricted
    then false
    else is_empty_repository e.why || says_not_ours e.line || says_not_ours e.remote

as_missing_ref : Option FetchError → Option FetchError
as_missing_ref none = none
as_missing_ref (some e) =
    if commit_missing_on_remote e
    then some record { why = ref_not_found; wants_restricted = false; line = none; remote = none }
    else some e

-- `fetchCommitByHash`
unfoldable pub fetch_commit_by_hash : PinnedWorld → Bytes → ℕ → Option FetchError
unfolding as_missing_ref
fetch_commit_by_hash w hash depth = as_missing_ref (w.fetch_objects hash depth)

walk_complete : (Bytes → Bool) → Walk → Bool
walk_complete has_object [] = true
walk_complete has_object (none ∷ walk) = false
walk_complete has_object (some (mode, hash) ∷ walk) =
    let rest = walk_complete has_object walk in
    if not (materialisable mode) then rest else if not (has_object hash) then false else rest

tree_complete : (Bytes → Bool) → Option Walk → Bool
unfolding walk_complete
tree_complete has_object none = false
tree_complete has_object (some walk) = walk_complete has_object walk

-- `commitComplete`; `true` for no error.
unfoldable pub commit_complete : PinnedWorld → Bytes → Bool
unfolding tree_complete
commit_complete w hash = tree_complete w.has_object (w.commit_tree hash)

-- The depth of the fetch.
unfoldable pub pinned_depth : Downloader → Settings → ℕ
pinned_depth d s = if ltb 0 d.depth || ltb 0 s.git.depth then resolve_depth d s else 1

-- After a fetch: an error that a full clone would hit just as surely is returned, and any other
-- sends the caller to the full clone.
unfoldable pub after_fetch : PinnedWorld → Bytes → Option FetchError → Partial
after_fetch w hash none = if commit_complete w hash then served else unsupported
after_fetch w hash (some e) =
    if auth_failure e.why || w.context_done
    then broken e.why
    else if e.wants_restricted
    then unsupported
    else if definitive_clone_error e.why
    then broken e.why
    else unsupported

-- A hash is its text in lower case.
after_remote : PinnedWorld → Downloader → Settings → Option CloneError → Partial
after_remote w d s (some why) = broken why
after_remote w d s none =
    let hash = to_lower d.ref in after_fetch w hash (fetch_commit_by_hash w hash (pinned_depth d s))

after_init : PinnedWorld → Downloader → Settings → Option CloneError → Partial
unfolding after_remote
after_init w d s (some why) = broken why
after_init w d s none = after_remote w d s w.create_remote

-- `pinnedCommitClone`
unfoldable pub pinned_commit_clone : PinnedWorld → Downloader → Settings → Partial
unfolding after_init
pinned_commit_clone w d s = after_init w d s w.init
