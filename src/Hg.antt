-- ===== src/Hg.antt =====
-- protocols/hg/hg.go. Package url, the resolver, the hg command and the disk are parameters.
use grabber.Base.{
  Bool, true, false, not, ◌&&◌, List, [], ◌∷◌, ◌++◌, Option, none, some, if◌then◌else◌, Result, ok,
  err, any,
}
use grabber.Text.{Bytes, codes, text_eq, is_empty, has_prefix, trim_prefix, cut, contains, to_lower}
use grabber.FilePath.{join_path}
use grabber.Net.{Ip}
use grabber.Ssrf.{GuardError}
use grabber.Settings.Types.{Url, Settings}
use grabber.Settings.Network.{check_ssrf_host}
use grabber.Git.Url.{query_get}

-- `Downloader`
pub record Downloader : Type 0 where
  pub repo_url : Bytes
  pub rev : Bytes
  pub subdir : Bytes

abbrev pub known_hg_hosts : List Bytes
known_hg_hosts = codes "bitbucket.org" ∷ []

-- `isHgURL`
unfoldable pub is_hg_url : Url → Bool
is_hg_url u = let host = to_lower u.hostname in any (λ known. text_eq host known) known_hg_hosts

split_at : Bytes → Option (Bytes × Bytes) → Bytes × Bytes
split_at path none = (path, [])
split_at path (some (before, after)) = (before, trim_prefix (codes "/") after)

-- `splitSubdir`
unfoldable pub split_hg_subdir : Bytes → Bytes × Bytes
unfolding split_at
split_hg_subdir path = split_at path (cut (codes "//") path)

of_hg_url : (Url → Bytes) → Bool → Option Url → Option Downloader
of_hg_url url_string forced none = none
of_hg_url url_string forced (some u) =
    let (repo_path, subdir) = split_hg_subdir u.path in
    if not forced && not (is_hg_url u)
    then none
    else some record {
      repo_url = url_string (record u { path = repo_path; query = [] });
      rev = query_get (codes "rev") u.query;
      subdir = subdir;
    }

-- `parseHgURL`, with `URL.String` of a URL with no fragment; `none` for an error.
unfoldable pub parse_hg_url :
    (Bytes → Option Url) → (Url → Bytes) → Bytes → Bool → Option Downloader
unfolding of_hg_url
parse_hg_url parse_url url_string raw_url forced = of_hg_url url_string forced (
    parse_url
      (if not (contains (codes "://") raw_url) then codes "https://" ++ raw_url else raw_url))

pub data HgError : Type 0 where
  needs_system no_executable clone_failed subdir_missing not_a_directory : HgError
  unreadable : HgError
  host_like_option : Bytes → HgError
  refused : GuardError → HgError
  move_failed : Bytes → HgError

pub record World : Type 0 where
  pub resolve : Bytes → Option (List Ip)
  pub has_hg : Bool
  -- The command with these arguments.
  pub run_hg : List Bytes → Bool
  pub stat : Bytes → Option Bool
  pub read_dir : Bytes → Option (List Bytes)
  pub rename_ok : Bytes → Bytes → Bool

-- What is done on the disk, besides what the command does.
pub data Effect : Type 0 where
  removed_all : Bytes → Effect
  renamed : Bytes → Bytes → Effect

-- The effects, in order, and the error.
abbrev pub Outcome : Type 0
Outcome = List Effect × Option HgError

guarded : Result GuardError (Unit {0}) → Result HgError (Unit {0})
guarded (ok _) = ok tt
guarded (err why) = err (refused why)

-- The checks of the host.
unfoldable pub check_hg_host : World → Settings → Option Url → Result HgError (Unit {0})
unfolding guarded
check_hg_host w s none = ok tt
check_hg_host w s (some u) =
    if has_prefix (codes "-") u.hostname
    then err (host_like_option u.hostname)
    else guarded (check_ssrf_host w.resolve s u.hostname)

-- The arguments of the command.
unfoldable pub clone_args : Downloader → Bytes → List Bytes
clone_args d clone_dir =
    codes "clone" ∷ (if not (is_empty d.rev) then codes "--rev" ∷ d.rev ∷ [] else [])
    ++ codes "--" ∷ d.repo_url ∷ clone_dir ∷ []

-- The loop over the entries of the subdirectory, after which the clone is removed.
unfoldable pub move_entries : World → Bytes → Bytes → Bytes → List Bytes → List Effect → Outcome
move_entries w clone_dir src_dir tmp_dir [] done = (done ++ removed_all clone_dir ∷ [], none)
move_entries w clone_dir src_dir tmp_dir (name ∷ names) done =
    let src = join_path src_dir name in
    let dst = join_path tmp_dir name in
    let more = move_entries w clone_dir src_dir tmp_dir names (done ++ renamed src dst ∷ []) in
    if w.rename_ok src dst then more else (done, some (move_failed name))

move_listed : World → Bytes → Bytes → Bytes → List Effect → Option (List Bytes) → Outcome
move_listed w clone_dir src_dir tmp_dir done none = (done, some unreadable)
move_listed w clone_dir src_dir tmp_dir done (some names) =
    move_entries w clone_dir src_dir tmp_dir names done

move_subdir : World → Bytes → Bytes → Bytes → List Effect → Option Bool → Outcome
unfolding move_listed
move_subdir w clone_dir src_dir tmp_dir done none = (done, some subdir_missing)
move_subdir w clone_dir src_dir tmp_dir done (some false) = (done, some not_a_directory)
move_subdir w clone_dir src_dir tmp_dir done (some true) =
    move_listed w clone_dir src_dir tmp_dir done (w.read_dir src_dir)

-- The clone and what follows it.
unfoldable pub clone_hg : World → Downloader → Bytes → Outcome
unfolding move_subdir
clone_hg w d tmp_dir =
    let clone_dir =
      if not (is_empty d.subdir) then join_path tmp_dir (codes "_clone") else tmp_dir in
    let src_dir = join_path clone_dir d.subdir in
    let done = removed_all (join_path clone_dir (codes ".hg")) ∷ [] in
    if not w.has_hg
    then ([], some no_executable)
    else if not (w.run_hg (clone_args d clone_dir))
    then ([], some clone_failed)
    else if is_empty d.subdir
    then (done, none)
    else move_subdir w clone_dir src_dir tmp_dir done (w.stat src_dir)

-- `Download`; it never fetches a single file.
unfoldable pub download_hg : (Bytes → Option Url) → World → Settings → Downloader → Bytes → Outcome
download_hg parse_url w s d tmp_dir =
    if s.no_system_fallback
    then ([], some needs_system)
    else (elim (check_hg_host w s (parse_url d.repo_url)) [
      | err why ↦ ([], some why)
      | ok _ ↦ clone_hg w d tmp_dir
    ])
