-- ===== src/Git/Download/Prepare.antt =====
-- `cloneAndPrepare` of protocols/git/git.go: the three ways to get the files, the fallbacks between
-- them, and the checks that follow. What go-git and the disk do is a record of results.
pub mod Done
use grabber.Base.{
  Bool, true, false, not, ◌&&◌, ◌||◌, Option, none, some, if◌then◌else◌, Result, ok, err, ◌>>=◌,
  ◌>>◌,
}
use grabber.Text.{Bytes, is_empty}
use grabber.Git.Refs.{CloneError, looks_like_commit_hash}
use grabber.Git.Sparse.{sparse_eligible}

-- A way that may not be available: `unsupported` is `errSparseUnsupported` or
-- `errPinnedFetchUnsupported`.
pub data Partial : Type 0 where
  served unsupported : Partial
  broken : CloneError → Partial

pub data Stat : Type 0 where
  missing file directory : Stat

pub data PrepareError : Type 0 where
  sparse_failed cloning : CloneError → PrepareError
  reset_failed resolving_commit checkout_failed : PrepareError
  submodules_failed subdir_missing subdir_not_directory : PrepareError

pub record GitWorld : Type 0 where
  pub reset_ok : Bool
  pub sparse : Partial
  pub pinned_eligible : Bool
  pub pinned : Partial
  pub full : Option CloneError
  pub commit_resolved : Bool
  pub checked_out : Bool
  pub submodules_updated : Bool
  pub subdir_stat : Stat

-- How the files were got.
pub data Way : Type 0 where
  sparse_way pinned_way full_way : Way

guard : Bool → PrepareError → Result PrepareError (Unit {0})
guard true why = ok tt
guard false why = err why

full_clone : GitWorld → Result PrepareError Way
full_clone w = elim w.full [ none ↦ ok full_way | some why ↦ err (cloning why) ]

fall_back : GitWorld → Result PrepareError Way
unfolding full_clone guard
fall_back w = guard w.reset_ok reset_failed >> full_clone w

-- The commit by itself, or the full clone.
unfoldable pub get_repo : GitWorld → Result PrepareError Way
unfolding fall_back
get_repo w = elim w.pinned_eligible [
  | false ↦ full_clone w
  | true ↦ elim w.pinned [
    | served ↦ ok pinned_way
    | unsupported ↦ fall_back w
    | broken why ↦ err (cloning why)
  ]
]

-- Checking a commit hash out, with its submodules.
unfoldable pub check_out : GitWorld → Bytes → Bool → Result PrepareError (Unit {0})
unfolding guard
check_out w ref recurse =
    if not (is_empty ref) && looks_like_commit_hash ref
    then (do
      guard w.commit_resolved resolving_commit
      guard w.checked_out checkout_failed
      guard (not recurse || w.submodules_updated) submodules_failed)
    else ok tt

check_stat : Stat → Result PrepareError (Unit {0})
check_stat missing = err subdir_missing
check_stat file = err subdir_not_directory
check_stat directory = ok tt

unfoldable pub check_subdir : GitWorld → Bytes → Result PrepareError (Unit {0})
unfolding check_stat
check_subdir w subdir = if is_empty subdir then ok tt else check_stat w.subdir_stat

whole_repo : GitWorld → Bytes → Bytes → Bool → Result PrepareError Way
whole_repo w subdir ref recurse = do
  way ← get_repo w
  check_out w ref recurse
  check_subdir w subdir
  ok way

after_sparse : GitWorld → Bytes → Bytes → Bool → Partial → Result PrepareError Way
unfolding whole_repo guard
after_sparse w subdir ref recurse served = ok sparse_way
after_sparse w subdir ref recurse (broken why) = err (sparse_failed why)
after_sparse w subdir ref recurse unsupported =
    guard w.reset_ok reset_failed >> whole_repo w subdir ref recurse

-- `cloneAndPrepare`: which way got the files.
unfoldable pub clone_and_prepare : GitWorld → Bytes → Bytes → Bool → Result PrepareError Way
unfolding after_sparse whole_repo
clone_and_prepare w subdir ref recurse =
    if sparse_eligible subdir
    then after_sparse w subdir ref recurse w.sparse
    else whole_repo w subdir ref recurse
