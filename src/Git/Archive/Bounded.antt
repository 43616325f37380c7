-- ===== src/Git/Archive/Bounded.antt =====
-- How many bytes `extractArchive` of git_archive.go writes.
use grabber.Base.{
  ℕ, suc, ◌+◌, ◌≤◌, ◌||◌, Bool, true, false, not, List, [], ◌∷◌, none, some, if◌then◌else◌, pos,
  arith,
}
use grabber.Text.{Bytes, is_empty, trim_prefix}
use grabber.FilePath.{dir, join_path}
use grabber.Extract.Engine.{Disk, Outcome, safe_mode, new_extractor}
use grabber.Extract.Budget.{
  written, IsWithin, Keeps, mkdir_all-Keeps, write_file-Keeps, seq-Keeps, if-Keeps,
}
use grabber.Git.Archive.{
  ArchiveEntry, ArchiveNext, header, broken, contains_dot_dot, Walk, Walked, then_walk, failed?,
  write_archive_file, write_entry, selects, extract_selected, extract_below, extract_entry,
  extract_entries, check_found, extract_archive,
}

-- `IsWithin` of the extractor in a walk.
abbrev pub IsWalkWithin : ℕ → Walked → Type 0
IsWalkWithin budget (w, none) = IsWithin budget (w.extractor, none)
IsWalkWithin budget (w, some why) = written w.extractor.effects ≤ budget + 1

module _ (budget : ℕ) where
  abbrev KeepsWithin : (Walk → Walked) → Type 0
  KeepsWithin act = (w : Walk) → IsWalkWithin budget (w, none) → IsWalkWithin budget (act w)

  if-IsWalkWithin :
      (b : Bool) (o o' : Walked)
      → IsWalkWithin budget o
      → IsWalkWithin budget o'
      → IsWalkWithin budget (if b then o else o')
  if-IsWalkWithin true o o' h k = h
  if-IsWalkWithin false o o' h k = k

  then_walk-IsWalkWithin :
      (o : Walked) (more : Walk → Walked)
      → IsWalkWithin budget o
      → KeepsWithin more
      → IsWalkWithin budget (then_walk o more)
  then_walk-IsWalkWithin (w, none) more h k = k w h
  then_walk-IsWalkWithin (w, some why) more h k = h

  lifted :
      (top : Bytes) (seen : Bool) (o : Outcome)
      → IsWithin budget o
      → IsWalkWithin budget (record { top_dir = top; found = seen; extractor = o.0 }, failed? o.1)
  lifted top seen (e, none) h = h
  lifted top seen (e, some why) h = h

  module _ (disk : Disk) where
    write_entry-Keeps : (path : Bytes) (h : ArchiveEntry) → Keeps budget (write_entry disk path h)
    unfolding write_entry write_archive_file
    write_entry-Keeps path h =
        if-Keeps budget h.is_dir _ _ (mkdir_all-Keeps budget disk path 0o755) (
          seq-Keeps budget _ _ (mkdir_all-Keeps budget disk (dir path) 0o755)
            (write_file-Keeps budget disk path h.contents (safe_mode h.mode)))

    extract_selected-KeepsWithin :
        (dst rel : Bytes) (h : ArchiveEntry) (chosen : Bool × Bool)
        → KeepsWithin (extract_selected disk dst rel h chosen)
    unfolding extract_selected
    extract_selected-KeepsWithin dst rel h (selected, shows) w v =
        if-IsWalkWithin (not selected) _ _ v (
          lifted w.top_dir (w.found || shows) (write_entry disk (join_path dst rel) h w.extractor)
            (write_entry-Keeps (join_path dst rel) h w.extractor v))

    extract_below-KeepsWithin :
        (dst subdir : Bytes) (h : ArchiveEntry) → KeepsWithin (extract_below disk dst subdir h)
    unfolding extract_below
    extract_below-KeepsWithin dst subdir h w v =
        let rel = trim_prefix w.top_dir h.name in
        if-IsWalkWithin (is_empty rel) _ _ v
          (extract_selected-KeepsWithin dst rel h (selects subdir rel h.is_dir) w v)

    extract_entry-KeepsWithin :
        (dst subdir : Bytes) (h : ArchiveEntry) → KeepsWithin (extract_entry disk dst subdir h)
    unfolding extract_entry
    extract_entry-KeepsWithin dst subdir h w v = if-IsWalkWithin h.is_pax _ _ v (
        if-IsWalkWithin (contains_dot_dot h.name) _ _ (omega arith)
          (extract_below-KeepsWithin dst subdir h _ v))

    extract_entries-KeepsWithin :
        (dst subdir : Bytes) (entries : List ArchiveNext)
        → KeepsWithin (extract_entries disk dst subdir entries)
    unfolding extract_entries
    extract_entries-KeepsWithin dst subdir [] w v = v
    extract_entries-KeepsWithin dst subdir (broken ∷ rest) w v = omega arith
    extract_entries-KeepsWithin dst subdir (header e ∷ rest) w v =
        then_walk-IsWalkWithin (extract_entry disk dst subdir e w) _
          (extract_entry-KeepsWithin dst subdir e w v) (extract_entries-KeepsWithin dst subdir rest)

  check_found-KeepsWithin : (subdir : Bytes) → KeepsWithin (check_found subdir)
  unfolding check_found
  check_found-KeepsWithin subdir w v = ground arith

-- With a positive limit, whatever a platform's archive holds and wherever its extraction stops:
-- without an error the bytes written and the budget left make up the limit, and with one at most
-- one byte more than the limit has been written.
pub extract_archive-IsWalkWithin :
    (disk : Disk) (dst subdir : Bytes) (n : ℕ) (entries : List ArchiveNext)
    → IsWalkWithin (suc n) (extract_archive disk dst subdir (pos (suc n)) entries)
unfolding extract_archive new_extractor
extract_archive-IsWalkWithin disk dst subdir n entries =
    then_walk-IsWalkWithin (suc n) _ (check_found subdir)
      (extract_entries-KeepsWithin (suc n) disk dst subdir entries _ (ground arith, omega arith))
      (check_found-KeepsWithin (suc n) subdir)
