-- ===== src/Git/Archive.antt =====
-- protocols/git/git_archive.go: an archive of one commit from the hosting platform, and how it is
-- extracted. `net/http`, the gzip and tar readers and the disk are parameters.
pub mod Request
pub mod Dots
pub mod Landing
pub mod Bounded
use grabber.Base.{
  ℕ, Bool, true, false, not, ◌&&◌, ◌||◌, List, [], ◌∷◌, ◌++◌, Option, none, some, if◌then◌else◌,
  ◌==◌, any, ℤ,
}
use grabber.Text.{
  Bytes, codes, text_eq, is_empty, has_prefix, trim_prefix, cut, contains, fields_func, trim_right,
}
use grabber.FilePath.{slash, dot, dot_dot, dir, join_path}
use grabber.Git.Sparse.{ancestor_dirs}
use grabber.Extract.Engine.{
  Stream, Disk, ExtractError, corrupt_archive, Extractor, Outcome, Act, ◌>>◌, mkdir_all, write_file,
  safe_mode, new_extractor,
}

-- A header of the tar stream with the entry's contents; `is_pax` for the two types of extended
-- headers, and `is_dir` and `mode` of the header's `FileInfo`.
pub record ArchiveEntry : Type 0 where
  pub name : Bytes
  pub is_pax : Bool
  pub is_dir : Bool
  pub mode : ℕ
  pub contents : Stream

-- What `tarR.Next` gives before the end of the stream.
pub data ArchiveNext : Type 0 where
  header : ArchiveEntry → ArchiveNext
  broken : ArchiveNext

pub data ArchiveError : Type 0 where
  has_dot_dot : Bytes → ArchiveError
  no_subdir : Bytes → ArchiveError
  failed : ExtractError → ArchiveError

abbrev pub is_separator : ℕ → Bool
is_separator c = c == slash || c == b'\\'

-- `containsDotDot`
unfoldable pub contains_dot_dot : Bytes → Bool
contains_dot_dot v =
    if not (contains dot_dot v)
    then false
    else any (λ ent. text_eq ent dot_dot) (fields_func is_separator v)

abbrev first_part : Bytes → Option (Bytes × Bytes) → Bytes
first_part name none = name
first_part name (some (before, after)) = before

-- `strings.SplitN(name, "/", 2)[0] + "/"`
unfoldable pub top_of : Bytes → Bytes
top_of name = first_part name (cut (slash ∷ []) name) ++ slash ∷ []

-- `archiveSelects`
unfoldable pub archive_selects : Bytes → Bytes → Bool → Bool × Bool
archive_selects rel subdir is_dir =
    if text_eq rel subdir || has_prefix (trim_right slash subdir ++ slash ∷ []) rel
    then (true, true)
    else if is_dir
    then (false, false)
    else let parent = dir rel in
      let parent' = if text_eq parent dot then [] else parent in
      (any (λ d. text_eq parent' d) (ancestor_dirs subdir), false)

-- The variables of the loop of `extractArchive`; `remaining` is the extractor's.
pub record Walk : Type 0 where
  pub top_dir : Bytes
  pub found : Bool
  pub extractor : Extractor

abbrev pub Walked : Type 0
Walked = Walk × Option ArchiveError

abbrev pub then_walk : Walked → (Walk → Walked) → Walked
then_walk (w, none) more = more w
then_walk (w, some why) more = (w, some why)

abbrev pub failed? : Option ExtractError → Option ArchiveError
failed? none = none
failed? (some why) = some (failed why)

abbrev pub lift_act : Act → Walk → Walked
lift_act act w = (record w { extractor = (act w.extractor).0 }, failed? (act w.extractor).1)

-- Whether the cone selects an entry, and whether that shows the subdirectory to be there.
unfoldable pub selects : Bytes → Bytes → Bool → Bool × Bool
selects subdir rel is_dir =
    if is_empty subdir then (true, true) else archive_selects rel subdir is_dir

unfoldable pub check_found : Bytes → Walk → Walked
check_found subdir w =
    (w, if not (is_empty subdir) && not w.found then some (no_subdir subdir) else none)

module _ (disk : Disk) where
  -- `writeArchiveFile`
  unfoldable pub write_archive_file : Bytes → Stream → ℕ → Act
  write_archive_file path r mode = mkdir_all disk (dir path) 0o755 >> write_file disk path r mode

  unfoldable pub write_entry : Bytes → ArchiveEntry → Act
  write_entry path h =
      if h.is_dir
      then mkdir_all disk path 0o755
      else write_archive_file path h.contents (safe_mode h.mode)

  unfoldable pub extract_selected : Bytes → Bytes → ArchiveEntry → Bool × Bool → Walk → Walked
  extract_selected dst rel h (selected, shows) w =
      if not selected
      then (w, none)
      else lift_act (write_entry (join_path dst rel) h) (record w { found = w.found || shows })

  -- An entry below the top-level directory.
  unfoldable pub extract_below : Bytes → Bytes → ArchiveEntry → Walk → Walked
  extract_below dst subdir h w =
      let rel = trim_prefix w.top_dir h.name in
      if is_empty rel then (w, none) else extract_selected dst rel h (selects subdir rel h.is_dir) w

  -- The body of the loop.
  unfoldable pub extract_entry : Bytes → Bytes → ArchiveEntry → Walk → Walked
  extract_entry dst subdir h w =
      if h.is_pax
      then (w, none)
      else if contains_dot_dot h.name
      then (w, some (has_dot_dot h.name))
      else extract_below dst subdir h
          (record w { top_dir = if is_empty w.top_dir then top_of h.name else w.top_dir })

  unfoldable pub extract_entries : Bytes → Bytes → List ArchiveNext → Walk → Walked
  extract_entries dst subdir [] w = (w, none)
  extract_entries dst subdir (broken ∷ rest) w = (w, some (failed corrupt_archive))
  extract_entries dst subdir (header h ∷ rest) w =
      then_walk (extract_entry dst subdir h w) (extract_entries dst subdir rest)

  -- `extractArchive`
  unfoldable pub extract_archive : Bytes → Bytes → ℤ → List ArchiveNext → Walked
  extract_archive dst subdir max_bytes entries =
      then_walk
        (extract_entries dst subdir entries
          record { top_dir = []; found = false; extractor = new_extractor max_bytes })
        (check_found subdir)
