-- ===== src/Git/Sparse/Complete.antt =====
-- A sparse download leaves no file of the subdirectory out.
use grabber.Base.{true, false, List, [], ◌∷◌, ◌++◌, ◌≡◌, subst, some, Result, ok, err}
use grabber.Text.{Bytes, is_empty}
use grabber.FilePath.{join_path}
use grabber.Git.Sparse.{
  Mode, regular, executable, symlink, submodule, deprecated, Node, blob, tree, Entries, nil, entry,
  SparseEntry, SparseSelection, SparseError, materialisable, is_submodule, add, add_walk, add_below,
  tree_at, no_selection, add_ancestors, add_subdir, with_subdir, sparse_entries, ancestor_dirs,
}

-- A member of a list.
pub data IsIn (x : SparseEntry) : List SparseEntry → Type 0 where
  first : {y : SparseEntry} {ys : List SparseEntry} → x ≡ y → IsIn x (y ∷ ys)
  other : {y : SparseEntry} {ys : List SparseEntry} → IsIn x ys → IsIn x (y ∷ ys)

-- A file of a directory tree that can be written, at any depth, with its path from `dir` on.
pub data FileBelow (x : SparseEntry) : Bytes → Entries → Type 0 where
  here :
      {dir name : Bytes} {mode : Mode} {hash : Bytes} {rest : Entries}
      → materialisable mode ≡ true
      → x ≡ record { path = join_path dir name; mode = mode; hash = hash }
      → FileBelow x dir (entry name (blob mode hash) rest)
  inside :
      {dir name : Bytes} {es rest : Entries}
      → FileBelow x (join_path dir name) es
      → FileBelow x dir (entry name (tree es) rest)
  later :
      {dir name : Bytes} {node : Node} {rest : Entries}
      → FileBelow x dir rest
      → FileBelow x dir (entry name node rest)

module _ (x : SparseEntry) where
  IsIn-append_left : (xs ys : List SparseEntry) → IsIn x xs → IsIn x (xs ++ ys)
  IsIn-append_left [] ys i = elim i [ ]
  IsIn-append_left (y ∷ xs) ys (first e) = first e
  IsIn-append_left (y ∷ xs) ys (other i) = other (IsIn-append_left xs ys i)

  IsIn-append_last : (xs : List SparseEntry) (y : SparseEntry) → x ≡ y → IsIn x (xs ++ y ∷ [])
  IsIn-append_last [] y e = first e
  IsIn-append_last (z ∷ xs) y e = other (IsIn-append_last xs y e)

  add-IsIn :
      (sel : SparseSelection) (p : Bytes) (node : Node)
      → IsIn x sel.files
      → IsIn x (add sel p node).files
  unfolding add is_submodule materialisable
  add-IsIn sel p (tree es) i = i
  add-IsIn sel p (blob regular hash) i = IsIn-append_left sel.files _ i
  add-IsIn sel p (blob executable hash) i = IsIn-append_left sel.files _ i
  add-IsIn sel p (blob symlink hash) i = IsIn-append_left sel.files _ i
  add-IsIn sel p (blob submodule hash) i = i
  add-IsIn sel p (blob deprecated hash) i = i

  add-file :
      (sel : SparseSelection) (p : Bytes) (mode : Mode) (hash : Bytes)
      → materialisable mode ≡ true
      → x ≡ record { path = p; mode = mode; hash = hash }
      → IsIn x (add sel p (blob mode hash)).files
  unfolding add is_submodule materialisable
  add-file sel p regular hash m e = IsIn-append_last sel.files _ e
  add-file sel p executable hash m e = IsIn-append_last sel.files _ e
  add-file sel p symlink hash m e = IsIn-append_last sel.files _ e
  add-file sel p submodule hash m e = absurd (cc m)
  add-file sel p deprecated hash m e = absurd (cc m)

  add_walk-IsIn :
      (es : Entries) (dir : Bytes) (sel : SparseSelection)
      → IsIn x sel.files
      → IsIn x (add_walk dir sel es).files
  unfolding add_walk add_below
  add_walk-IsIn nil dir sel i = i
  add_walk-IsIn (entry name (blob mode hash) rest) dir sel i =
      add_walk-IsIn rest dir _ (add-IsIn sel (join_path dir name) (blob mode hash) i)
  add_walk-IsIn (entry name (tree es) rest) dir sel i =
      add_walk-IsIn rest dir _
        (add_walk-IsIn es (join_path dir name) _ (add-IsIn sel (join_path dir name) (tree es) i))

  FileBelow-IsIn :
      (es : Entries) (dir : Bytes) (sel : SparseSelection)
      → FileBelow x dir es
      → IsIn x (add_walk dir sel es).files
  unfolding add_walk add_below
  FileBelow-IsIn nil dir sel f = elim f [ ]
  FileBelow-IsIn (entry name (blob mode hash) rest) dir sel (here m e) =
      add_walk-IsIn rest dir _ (add-file sel (join_path dir name) mode hash m e)
  FileBelow-IsIn (entry name (blob mode hash) rest) dir sel (later f) = FileBelow-IsIn rest dir _ f
  FileBelow-IsIn (entry name (tree es) rest) dir sel (inside f) =
      add_walk-IsIn rest dir _ (FileBelow-IsIn es (join_path dir name) _ f)
  FileBelow-IsIn (entry name (tree es) rest) dir sel (later f) = FileBelow-IsIn rest dir _ f

  -- If the selection for a subdirectory succeeds, every file, executable and symbolic link below
  -- the subdirectory, at any depth, is selected with its path from the root.
  pub sparse_entries-complete :
      (subdir : Bytes) (root es : Entries) (sel : SparseSelection)
      → is_empty subdir ≡ false
      → tree_at subdir root ≡ some es
      → sparse_entries subdir root ≡ ok sel
      → FileBelow x subdir es
      → IsIn x sel.files
  unfolding sparse_entries
  sparse_entries-complete subdir root es sel full found h f =
      walked (add_ancestors root no_selection (ancestor_dirs subdir)) h
    where
      walked :
          (r : Result SparseError SparseSelection)
          → with_subdir subdir root r ≡ ok sel
          → IsIn x sel.files
      walked (err why) k = absurd (unfold with_subdir in cc k)
      walked (ok above) k = at_tree above (unfold with_subdir in rw full at k)
        where
          at_tree :
              (above : SparseSelection)
              → add_subdir subdir root above (tree_at subdir root) ≡ ok sel
              → IsIn x sel.files
          at_tree above k =
              is_result above (add_walk subdir above es) (unfold add_subdir in rw found at k)
                (FileBelow-IsIn es subdir above f)
            where
              is_result :
                  (above walked : SparseSelection)
                  → ◌≡◌ {A = Result SparseError SparseSelection} (ok walked) (ok sel)
                  → IsIn x walked.files
                  → IsIn x sel.files
              is_result above walked e i =
                  let same : walked ≡ sel = cc in
                  subst (λ (s : SparseSelection). IsIn x s.files) same i
