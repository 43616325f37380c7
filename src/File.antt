-- ===== src/File.antt =====
-- protocols/file/file.go, up to `resolvePath`. Package url, the working directory, `EvalSymlinks`,
-- `Stat` and the copies are parameters. The copies themselves are in File/Copy.
pub mod Climb
pub mod Resolve
pub mod Copy
use grabber.Base.{
  ℕ, suc, zero, Bool, true, false, not, ◌&&◌, ◌||◌, List, [], ◌∷◌, ◌++◌, Option, none, some,
  if◌then◌else◌, Result, ok, err, length,
}
use grabber.Text.{Bytes, codes, text_eq, is_empty, has_prefix, join}
use grabber.FilePath.{slash, is_rooted, clean, dir, base, join_path}
use grabber.Settings.Types.{Url, Settings}

-- `filepath.Join` of any number of elements: from the first that is not empty.
unfoldable pub join_all : List Bytes → Bytes
join_all [] = []
join_all (w ∷ ws) =
    let rest = join_all ws in if is_empty w then rest else clean (join slash (w ∷ ws))

-- What the file system and the process say.
pub record Place : Type 0 where
  pub working_dir : Option Bytes
  pub eval_symlinks : Bytes → Option Bytes
  -- `os.Stat`: whether the path is a directory.
  pub stat : Bytes → Option Bool

from_working_dir : Bytes → Option Bytes → Option Bytes
from_working_dir raw_url none = none
from_working_dir raw_url (some wd) = some (join_path wd raw_url)

path_of : Option Url → Option Bytes
path_of none = none
path_of (some u) = if is_empty u.path then none else some u.path

-- `parseFileURL`: the downloader's path.
unfoldable pub parse_file_url : (Bytes → Option Url) → Option Bytes → Bytes → Option Bytes
unfolding from_working_dir path_of
parse_file_url parse_url working_dir raw_url =
    if has_prefix (codes "file://") raw_url
    then path_of (parse_url raw_url)
    else if is_rooted raw_url
    then some raw_url
    else if has_prefix (codes "./") raw_url || has_prefix (codes "../") raw_url
    then from_working_dir raw_url working_dir
    else none

-- `filepath.Abs`
unfoldable pub abs_path : Option Bytes → Bytes → Option Bytes
unfolding from_working_dir
abs_path working_dir path =
    if is_rooted path then some (clean path) else from_working_dir path working_dir

-- What can be resolved with the names below it, or else what is found further up.
unfoldable pub or_climb : List Bytes → Option Bytes → Option Bytes → Option Bytes
or_climb names more none = more
or_climb names more (some resolved) = some (join_all (resolved ∷ names))

-- The loop of `resolvePath`, from `dir` up, with at most as many rounds as the first argument:
-- `none` if they are used up.
unfoldable pub climb : (Bytes → Option Bytes) → Bytes → ℕ → Bytes → List Bytes → Option Bytes
climb eval abs zero directory rest = none
climb eval abs (suc n) directory rest =
    let parent = dir directory in
    let rest' = base directory ∷ rest in
    let more = climb eval abs n parent rest' in
    if text_eq parent directory then some abs else or_climb rest' more (eval parent)

unfoldable pub or_up : (Bytes → Option Bytes) → Bytes → Option Bytes → Option Bytes
or_up eval abs none = climb eval abs (suc (length abs)) abs []
or_up eval abs (some resolved) = some resolved

unfoldable pub resolve_abs : (Bytes → Option Bytes) → Option Bytes → Option Bytes
unfolding or_up
resolve_abs eval none = none
resolve_abs eval (some abs) = or_up eval abs (eval abs)

-- `resolvePath`; `none` for an error.
unfoldable pub resolve_path : Place → Bytes → Option Bytes
unfolding resolve_abs
resolve_path at path = resolve_abs at.eval_symlinks (abs_path at.working_dir path)

-- `resolved` is an allowed directory or below one.
unfoldable pub is_within : Place → Bytes → List Bytes → Bool
is_within at resolved [] = false
is_within at resolved (directory ∷ allowed) =
    let rest = is_within at resolved allowed in
    elim (resolve_path at directory) [
      | none ↦ rest
      | some root ↦ text_eq resolved root || has_prefix (root ++ slash ∷ []) resolved || rest
    ]

-- `checkAllowed`: whether there is no error.
unfoldable pub check_allowed : Place → Bytes → List Bytes → Bool
check_allowed at path [] = true
check_allowed at path (d ∷ ds) = elim (resolve_path at path) [
  | none ↦ false
  | some resolved ↦ is_within at resolved (d ∷ ds)
]

pub data FileError : Type 0 where
  not_allowed cannot_stat copy_failed : FileError

copied : Bool → Bool → Result FileError Bool
copied is_file true = ok is_file
copied is_file false = err copy_failed

stat_then :
    Bytes
    → Bytes
    → (Bytes → Bytes → Bool)
    → (Bytes → Bytes → Bool)
    → Option Bool
    → Result FileError Bool
unfolding copied
stat_then path tmp_dir copy_dir copy_file none = err cannot_stat
stat_then path tmp_dir copy_dir copy_file (some true) = copied false (copy_dir path tmp_dir)
stat_then path tmp_dir copy_dir copy_file (some false) =
    copied true (copy_file path (join_path tmp_dir (base path)))

-- `Download`: whether one file was fetched. `copy_dir` and `copy_file` say whether they succeed.
unfoldable pub download_file :
    Place
    → (Bytes → Bytes → Bool)
    → (Bytes → Bytes → Bool)
    → Bytes
    → Bytes
    → Settings
    → Result FileError Bool
unfolding stat_then
download_file at copy_dir copy_file path tmp_dir s =
    if not (check_allowed at path s.allowed_local_dirs)
    then err not_allowed
    else stat_then path tmp_dir copy_dir copy_file (at.stat path)
