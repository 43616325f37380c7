-- ===== src/File/Copy.antt =====
-- `copyDir`, `copySymlink` and `copyFile` of grabber.go and of protocols/file/file.go, which are the
-- same but for how `copyFile` gets the mode. The tree that `filepath.Walk` visits is data, and
-- which calls the disk refuses is a parameter.
pub mod Inside
use grabber.Base.{
  ℕ, Bool, true, false, not, ◌&&◌, List, [], ◌∷◌, ◌++◌, Option, none, some, if◌then◌else◌,
}
use grabber.Text.{Bytes, codes, join}
use grabber.FilePath.{slash, dot, dir, join_path}

-- What `Walk` finds at a path. A file has its mode, whether it can be opened and whether it can be
-- read to its end; a link has its target, `none` if that cannot be read; `gone` is an
-- error, also that of a directory that cannot be listed, which the function gets in its place.
mutual
  pub data Node : Type 0 where
    file : ℕ → Bool → Bool → Node
    link : Option Bytes → Node
    folder : ℕ → Nodes → Node
    gone : Node

  -- A directory's entries in order.
  pub data Nodes : Type 0 where
    nil : Nodes
    node : Bytes → Node → Nodes → Nodes

-- The calls that change the destination. `remove` changes nothing where there is nothing.
pub data Change : Type 0 where
  make_dir : Bytes → ℕ → Change
  remove : Bytes → Change
  symlink : Bytes → Bytes → Change
  create : Bytes → ℕ → Change

-- The changes so far, the first one first, and whether there was no error.
abbrev pub Copied : Type 0
Copied = List Change × Bool

abbrev pub Step : Type 0
Step = List Change → Copied

abbrev pub go_on : Copied → Step → Copied
go_on (done, true) more = more done
go_on (done, false) more = (done, false)

infixl 5 ◌then_do◌
abbrev pub ◌then_do◌ : Step → Step → Step
◌then_do◌ first second done = go_on (first done) second

abbrev pub give_up : Step
give_up done = (done, false)

abbrev pub keep_on : Step
keep_on done = (done, true)

-- The path below `dst` of what has these names below the source.
unfoldable pub target_path : Bytes → List Bytes → Bytes
target_path dst [] = join_path dst dot
target_path dst (w ∷ ws) = join_path dst (join slash (w ∷ ws))

module _ (refuses : Change → Bool) where
  unfoldable pub change : Change → Step
  change c done = if refuses c then (done, false) else (done ++ c ∷ [], true)

  -- `copySymlink`
  unfoldable pub copy_symlink : Option Bytes → Bytes → Step
  copy_symlink none dst = give_up
  copy_symlink (some target) dst =
      change (make_dir (dir dst) 0o755)
      then_do change (remove dst)
      then_do change (symlink target dst)

  -- `copyFile`
  unfoldable pub copy_file : ℕ → Bool → Bool → Bytes → Step
  copy_file mode opens reads dst =
      if not opens
      then give_up
      else (change (make_dir (dir dst) 0o755)
          then_do change (create dst mode)
          then_do (if reads then keep_on else give_up))

  -- `filepath.Walk` with the function that `copyDir` gives it.
  unfoldable mutual
    pub copy_node : Bytes → List Bytes → Node → Step
    copy_node dst names (file mode opens reads) = copy_file mode opens reads (target_path dst names)
    copy_node dst names (link target) = copy_symlink target (target_path dst names)
    copy_node dst names (folder mode nodes) =
        change (make_dir (target_path dst names) mode) then_do copy_nodes dst names nodes
    copy_node dst names gone = give_up

    pub copy_nodes : Bytes → List Bytes → Nodes → Step
    copy_nodes dst names nil = keep_on
    copy_nodes dst names (node w n rest) =
        copy_node dst (names ++ w ∷ []) n then_do copy_nodes dst names rest

  -- `copyDir`
  unfoldable pub copy_dir : Bytes → Node → Copied
  copy_dir dst root = copy_node dst [] root []
