-- ===== src/Git/Sparse.antt =====
-- protocols/git/sparse.go: which files a sparse download selects, which objects it asks for, and
-- where it writes them. The repository's tree is data; go-git and the disk are parameters.
pub mod Complete
pub mod Wants
pub mod Inside
use grabber.Base.{
  ℕ, Bool, true, false, not, ◌&&◌, ◌||◌, List, [], ◌∷◌, ◌++◌, Option, none, some, if◌then◌else◌,
  Result, ok, err, any,
}
use grabber.Text.{Bytes, text_eq, is_empty, split, join}
use grabber.FilePath.{join_path}
use grabber.SafePath.{PathError, safe_join}
use grabber.Settings.Types.{Settings}

-- `filemode.FileMode` of an entry that is not a directory. `deprecated` stands for the modes that
-- git no longer writes.
pub data Mode : Type 0 where
  regular executable symlink submodule deprecated : Mode

-- `object.Tree`: an entry's name with the object's mode and hash, or with the subtree.
mutual
  pub data Node : Type 0 where
    blob : Mode → Bytes → Node
    tree : Entries → Node

  pub data Entries : Type 0 where
    nil : Entries
    entry : Bytes → Node → Entries → Entries

-- `sparseEntry`
pub record SparseEntry : Type 0 where
  pub path : Bytes
  pub mode : Mode
  pub hash : Bytes

-- `sparseSelection`
pub record SparseSelection : Type 0 where
  pub files : List SparseEntry
  pub submodules : List Bytes

abbrev pub no_selection : SparseSelection
no_selection = record { files = []; submodules = [] }

-- `sparseEligible`
unfoldable pub sparse_eligible : Bytes → Bool
sparse_eligible subdir = not (is_empty subdir)

abbrev is_empty_list : List Bytes → Bool
is_empty_list [] = true
is_empty_list (w ∷ ws) = false

-- `needsWorktree`
unfoldable pub needs_worktree : SparseSelection → Settings → Bool
needs_worktree sel s = not (is_empty_list sel.submodules) && s.git.recurse_submodules

-- `materialisable`
unfoldable pub materialisable : Mode → Bool
materialisable regular = true
materialisable executable = true
materialisable symlink = true
materialisable _ = false

is_submodule : Mode → Bool
is_submodule submodule = true
is_submodule _ = false

-- `add`
unfoldable pub add : SparseSelection → Bytes → Node → SparseSelection
unfolding is_submodule
add sel p (tree entries) = sel
add sel p (blob mode hash) =
    if is_submodule mode
    then record sel { submodules = sel.submodules ++ p ∷ [] }
    else if materialisable mode
    then record sel { files = sel.files ++ record { path = p; mode = mode; hash = hash } ∷ [] }
    else sel

-- The entry of a directory by name, if it is a directory itself.
unfoldable pub subtree : Bytes → Entries → Option Entries
subtree name nil = none
subtree name (entry n (tree es) rest) = if text_eq n name then some es else subtree name rest
subtree name (entry n (blob mode hash) rest) = if text_eq n name then none else subtree name rest

-- `Tree.Tree` along the elements of a path.
unfoldable pub walk_to : List Bytes → Entries → Option Entries
walk_to [] root = some root
walk_to (name ∷ names) root = elim (subtree name root) [ none ↦ none | some es ↦ walk_to names es ]

unfoldable pub tree_at : Bytes → Entries → Option Entries
tree_at path root = if is_empty path then some root else walk_to (split b'/' path) root

-- The loop over the entries of one directory.
unfoldable pub add_entries : Bytes → SparseSelection → Entries → SparseSelection
add_entries dir sel nil = sel
add_entries dir sel (entry name node rest) =
    add_entries dir (add sel (join_path dir name) node) rest

-- `object.NewTreeWalker` with recursion, and the loop over what it yields: an entry, what is below
-- it, and then the next one.
unfoldable mutual
  pub add_walk : Bytes → SparseSelection → Entries → SparseSelection
  add_walk dir sel nil = sel
  add_walk dir sel (entry name node rest) =
      add_walk dir (add_below (join_path dir name) (add sel (join_path dir name) node) node) rest

  pub add_below : Bytes → SparseSelection → Node → SparseSelection
  add_below dir sel (blob mode hash) = sel
  add_below dir sel (tree es) = add_walk dir sel es

-- The proper prefixes of a list, the shortest first, from one element on.
prefixes_from : List Bytes → List Bytes → List (List Bytes)
prefixes_from done [] = []
prefixes_from done (w ∷ []) = []
prefixes_from done (w ∷ v ∷ ws) = (done ++ w ∷ []) ∷ prefixes_from (done ++ w ∷ []) (v ∷ ws)

join_all : List (List Bytes) → List Bytes
join_all [] = []
join_all (ws ∷ wss) = join b'/' ws ∷ join_all wss

-- `ancestorDirs`
unfoldable pub ancestor_dirs : Bytes → List Bytes
unfolding prefixes_from join_all
ancestor_dirs subdir =
    [] ∷ (if is_empty subdir then [] else join_all (prefixes_from [] (split b'/' subdir)))

pub data SparseError : Type 0 where
  missing_tree : Bytes → SparseError
  missing_subdir : Bytes → SparseError
  unsupported mkdir_failed : SparseError
  path_escapes : PathError → SparseError
  write_failed : Bytes → SparseError

-- The loop over the ancestors.
unfoldable pub add_ancestors :
    Entries → SparseSelection → List Bytes → Result SparseError SparseSelection
add_ancestors root sel [] = ok sel
add_ancestors root sel (dir ∷ dirs) = elim (tree_at dir root) [
  | none ↦ err (missing_tree dir)
  | some es ↦ add_ancestors root (add_entries dir sel es) dirs
]

add_subdir : Bytes → Entries → SparseSelection → Option Entries → Result SparseError SparseSelection
add_subdir subdir root sel none = err (missing_subdir subdir)
add_subdir subdir root sel (some es) = ok (add_walk subdir sel es)

with_subdir :
    Bytes → Entries → Result SparseError SparseSelection → Result SparseError SparseSelection
unfolding add_subdir
with_subdir subdir root (err why) = err why
with_subdir subdir root (ok sel) =
    if is_empty subdir then ok sel else add_subdir subdir root sel (tree_at subdir root)

-- `sparseEntries`, on the tree of the commit.
unfoldable pub sparse_entries : Bytes → Entries → Result SparseError SparseSelection
unfolding with_subdir
sparse_entries subdir root =
    with_subdir subdir root (add_ancestors root no_selection (ancestor_dirs subdir))

unfoldable pub is_seen : Bytes → List Bytes → Bool
is_seen hash hashes = any (λ h. text_eq h hash) hashes

-- The loop of `fetchBlobs`: the hashes to ask for, with `present` as the object store's lookup.
unfoldable pub wants : (Bytes → Bool) → List Bytes → List SparseEntry → List Bytes
wants present seen [] = []
wants present seen (e ∷ es) =
    let again = wants present seen es in
    let next = wants present (e.hash ∷ seen) es in
    if is_seen e.hash seen then again else if present e.hash then next else e.hash ∷ next

-- What making the parent directory and writing one blob gives: done, no directory, not delivered by
-- the remote, or another error.
pub data Written : Type 0 where
  done no_directory not_delivered failed : Written

pub write_error : SparseEntry → Written → Option SparseError
write_error e done = none
write_error e no_directory = some mkdir_failed
write_error e not_delivered = some unsupported
write_error e failed = some (write_failed e.path)

-- `materialise`: the paths where the entries were to be written, the last one first, and the error.
unfoldable pub materialise :
    (Bytes → SparseEntry → Written)
    → Bytes
    → List Bytes
    → List SparseEntry
    → List Bytes × Option SparseError
unfolding write_error
materialise disk root out [] = (out, none)
materialise disk root out (e ∷ es) = elim (safe_join root e.path) [
  | err why ↦ (out, some (path_escapes why))
  | ok dst ↦ elim (write_error e (disk dst e)) [
    | none ↦ materialise disk root (dst ∷ out) es
    | some why ↦ (dst ∷ out, some why)
  ]
]
