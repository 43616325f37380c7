-- ===== src/Git/Archive/Landing.antt =====
-- Where `extractArchive` of git_archive.go writes.
use grabber.Base.{
  Bool, true, false, not, List, [], ◌∷◌, ◌++◌, ◌≡◌, ◌≢◌, ◌⊎◌, inl, inr, refl, subst, sym, ap, ◌∙◌,
  none, some, if◌then◌else◌, Bool-cases, All, All-append_right, append_assoc, drop, length, ℤ, pos,
  negsuc,
}
use grabber.Text.{Bytes, is_empty, has_prefix, trim_prefix, split, cut}
use grabber.Text.Laws.{has_prefix_split}
use grabber.Text.Split.{split-append}
use grabber.FilePath.{slash, dir, clean_stack, join_path}
use grabber.SafePath.Inside.{IsInside, IsAnchored}
use grabber.SafePath.Downward.{NotUp, join_path-IsInside}
use grabber.Extract.Engine.{Disk, safe_mode, new_extractor}
use grabber.Extract.Inside.{
  Lands, KeepsLanding, mkdir_all-KeepsLanding, write_file-KeepsLanding, seq-KeepsLanding,
  if-KeepsLanding, parent-Lands,
}
use grabber.Git.Archive.{
  ArchiveEntry, ArchiveNext, header, broken, contains_dot_dot, top_of, first_part, Walk, Walked,
  then_walk, write_archive_file, write_entry, selects, extract_selected, extract_below,
  extract_entry, extract_entries, check_found, extract_archive,
}
use grabber.Git.Archive.Dots.{contains_dot_dot-NotUp}

-- No top-level directory yet, or one with the slash after it.
abbrev IsTop : Bytes → Type 0
IsTop top = (top ≡ []) ⊎ ((t : Bytes) × (top ≡ t ++ slash ∷ []))

trim_prefix-NotUp :
    (top name : Bytes)
    → IsTop top
    → All NotUp (split slash name)
    → All NotUp (split slash (trim_prefix top name))
unfolding trim_prefix
trim_prefix-NotUp top name is_top h = elim (Bool-cases (has_prefix top name)) [
  | inl pre ↦ rw pre (strip is_top (has_prefix_split top name pre))
  | inr other ↦ rw other h
]
  where
    strip :
        IsTop top
        → name ≡ top ++ drop (length top) name
        → All NotUp (split slash (drop (length top) name))
    strip (inl e) split_at = rw e h
    strip (inr (t, e)) split_at =
        let rest = drop (length top) name in
        All-append_right NotUp (split slash t) (split slash rest) (
          subst (All NotUp)
            (ap (split slash) (split_at ∙ ap (λ x. x ++ rest) e ∙ append_assoc t (slash ∷ []) rest)
              ∙ split-append slash t rest)
            h)

module _ (dst : Bytes) where
  abbrev IsLanding : Walk → Type 0
  IsLanding w = IsTop w.top_dir × All (Lands dst) w.extractor.effects

  abbrev KeepsWalk : (Walk → Walked) → Type 0
  KeepsWalk act = (w : Walk) → IsLanding w → IsLanding (act w).0

  if-IsLanding :
      (b : Bool) (o o' : Walked)
      → IsLanding o.0
      → IsLanding o'.0
      → IsLanding (if b then o else o').0
  if-IsLanding true o o' h k = h
  if-IsLanding false o o' h k = k

  then_walk-IsLanding :
      (o : Walked) (more : Walk → Walked)
      → IsLanding o.0
      → KeepsWalk more
      → IsLanding (then_walk o more).0
  then_walk-IsLanding (w, none) more h k = k w h
  then_walk-IsLanding (w, some why) more h k = h

  module _ (disk : Disk) where
    write_entry-KeepsLanding :
        (path : Bytes) (h : ArchiveEntry)
        → IsInside dst path
        → KeepsLanding dst (write_entry disk path h)
    unfolding write_entry write_archive_file
    write_entry-KeepsLanding path h inside =
        if-KeepsLanding dst h.is_dir _ _ (mkdir_all-KeepsLanding dst disk path 0o755 (inl inside)) (
          seq-KeepsLanding dst _ _
            (mkdir_all-KeepsLanding dst disk (dir path) 0o755
              (parent-Lands dst disk path 0o755 inside))
            (write_file-KeepsLanding dst disk path h.contents (safe_mode h.mode) inside))

    module _ (ne : dst ≢ []) (deep : clean_stack dst ≢ []) (anchored : IsAnchored dst) where
      extract_selected-KeepsWalk :
          (rel : Bytes) (h : ArchiveEntry) (chosen : Bool × Bool)
          → All NotUp (split slash rel)
          → KeepsWalk (extract_selected disk dst rel h chosen)
      unfolding extract_selected
      extract_selected-KeepsWalk rel h (selected, shows) down w (top, landed) =
          if-IsLanding (not selected) _ _ (top, landed)
            (
              top,
              write_entry-KeepsLanding (join_path dst rel) h
                  (join_path-IsInside dst rel ne deep anchored down) w.extractor landed,
            )

      extract_below-KeepsWalk :
          (subdir : Bytes) (h : ArchiveEntry)
          → All NotUp (split slash h.name)
          → KeepsWalk (extract_below disk dst subdir h)
      unfolding extract_below
      extract_below-KeepsWalk subdir h down w (top, landed) =
          let rel = trim_prefix w.top_dir h.name in
          if-IsLanding (is_empty rel) _ _ (top, landed)
            (extract_selected-KeepsWalk rel h (selects subdir rel h.is_dir)
              (trim_prefix-NotUp w.top_dir h.name top down) w (top, landed))

      top_of-IsTop :
          (top name : Bytes) → IsTop top → IsTop (if is_empty top then top_of name else top)
      unfolding top_of is_empty
      top_of-IsTop [] name h = inr (first_part name (cut (slash ∷ []) name), refl)
      top_of-IsTop (c ∷ top) name h = h

      extract_entry-KeepsWalk :
          (subdir : Bytes) (h : ArchiveEntry) → KeepsWalk (extract_entry disk dst subdir h)
      unfolding extract_entry
      extract_entry-KeepsWalk subdir h w (top, landed) =
          if-IsLanding h.is_pax _ _ (top, landed)
            (elim (Bool-cases (contains_dot_dot h.name)) [
              | inl refused ↦ rw refused (top, landed)
              | inr let_pass ↦ rw let_pass (
                  extract_below-KeepsWalk subdir h (contains_dot_dot-NotUp h.name let_pass) _
                    (top_of-IsTop w.top_dir h.name top, landed))
            ])

      extract_entries-KeepsWalk :
          (subdir : Bytes) (entries : List ArchiveNext)
          → KeepsWalk (extract_entries disk dst subdir entries)
      unfolding extract_entries
      extract_entries-KeepsWalk subdir [] w h = h
      extract_entries-KeepsWalk subdir (broken ∷ rest) w h = h
      extract_entries-KeepsWalk subdir (header e ∷ rest) w h =
          then_walk-IsLanding (extract_entry disk dst subdir e w) _
            (extract_entry-KeepsWalk subdir e w h) (extract_entries-KeepsWalk subdir rest)

      new_extractor-effects : (max_bytes : ℤ) → (new_extractor max_bytes).effects ≡ []
      unfolding new_extractor
      new_extractor-effects (pos n) = refl
      new_extractor-effects (negsuc n) = refl

      -- For a destination that is not empty, whose cleaned path is not "/" or "." and does not end
      -- in "..": whatever names the entries of a platform's archive have, and wherever its
      -- extraction stops, each file that is created or written is inside the destination, and each
      -- directory is inside it or is the parent of something inside it.
      pub extract_archive-Lands :
          (subdir : Bytes) (max_bytes : ℤ) (entries : List ArchiveNext)
          → All (Lands dst) (extract_archive disk dst subdir max_bytes entries).0.extractor.effects
      unfolding extract_archive check_found
      extract_archive-Lands subdir max_bytes entries =
          (then_walk-IsLanding _ (check_found subdir)
            (extract_entries-KeepsWalk subdir entries _
              (inl refl, subst (All (Lands dst)) (sym (new_extractor-effects max_bytes)) tt))
            (λ w h. h)).1
