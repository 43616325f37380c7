-- ===== src/File/Copy/Inside.antt =====
-- Where `copyDir` writes.
use grabber.Base.{
  ℕ, Bool, true, false, not, List, [], ◌∷◌, ◌++◌, ◌≡◌, ◌≢◌, ◌⊎◌, inl, inr, refl, subst, sym, Option,
  none, some, if◌then◌else◌, All, All-append, All-imp,
}
use grabber.Text.{Bytes, text_eq, split, join}
use grabber.Text.Split.{split-join}
use grabber.FilePath.{slash, dot, dir, clean_stack}
use grabber.FilePath.Laws.{IsPlain}
use grabber.SafePath.Inside.{IsInside, IsAnchored}
use grabber.SafePath.Downward.{NotUp, join_path-IsInside}
use grabber.File.Copy.{
  Node, file, link, folder, gone, Nodes, nil, node, Change, make_dir, remove, symlink, create,
  Copied, Step, go_on, ◌then_do◌, give_up, keep_on, change, copy_symlink, copy_file, target_path,
  copy_node, copy_nodes, copy_dir,
}

-- The names in a tree are plain, as those that a directory lists are.
abbrev mutual
  pub HasPlainNames : Node → Type 0
  HasPlainNames (folder mode nodes) = HavePlainNames nodes
  HasPlainNames _ = Unit

  pub HavePlainNames : Nodes → Type 0
  HavePlainNames (node w n rest) = IsPlain w × HasPlainNames n × HavePlainNames rest
  HavePlainNames _ = Unit

module _ (dst : Bytes) where
  -- A directory that is made is inside, or is the parent of something inside; all else is inside.
  abbrev pub Stays : Change → Type 0
  Stays (make_dir path mode) = IsInside dst path ⊎ ((t : Bytes) × IsInside dst t × (path ≡ dir t))
  Stays (remove path) = IsInside dst path
  Stays (symlink target path) = IsInside dst path
  Stays (create path mode) = IsInside dst path

  abbrev KeepsStaying : Step → Type 0
  KeepsStaying step = (done : List Change) → All Stays done → All Stays (step done).0

  then_do-KeepsStaying :
      (first second : Step)
      → KeepsStaying first
      → KeepsStaying second
      → KeepsStaying (first then_do second)
  then_do-KeepsStaying first second h k done v = after (first done) (h done v)
    where
      after : (o : Copied) → All Stays o.0 → All Stays (go_on o second).0
      after (done', true) v = k done' v
      after (done', false) v = v

  keep_on-KeepsStaying : KeepsStaying keep_on
  keep_on-KeepsStaying done v = v

  give_up-KeepsStaying : KeepsStaying give_up
  give_up-KeepsStaying done v = v

  if-KeepsStaying :
      (b : Bool) (m n : Step) → KeepsStaying m → KeepsStaying n → KeepsStaying (if b then m else n)
  if-KeepsStaying true m n h k = h
  if-KeepsStaying false m n h k = k

  module _ (refuses : Change → Bool) where
    change-KeepsStaying : (c : Change) → Stays c → KeepsStaying (change refuses c)
    unfolding change
    change-KeepsStaying c h done v = either (refuses c)
      where
        chosen : Bool → Copied
        chosen b = if b then (done, false) else (done ++ c ∷ [], true)

        either : (b : Bool) → All Stays (chosen b).0
        either true = v
        either false = All-append Stays done (c ∷ []) v (h, tt)

    copy_symlink-KeepsStaying :
        (target : Option Bytes) (path : Bytes)
        → IsInside dst path
        → KeepsStaying (copy_symlink refuses target path)
    unfolding copy_symlink
    copy_symlink-KeepsStaying none path i = give_up-KeepsStaying
    copy_symlink-KeepsStaying (some target) path i =
        let parent = make_dir (dir path) 0o755 in
        then_do-KeepsStaying (change refuses parent then_do change refuses (remove path))
          (change refuses (symlink target path))
          (then_do-KeepsStaying (change refuses parent) (change refuses (remove path))
            (change-KeepsStaying parent (inr (path, i, refl)))
            (change-KeepsStaying (remove path) i))
          (change-KeepsStaying (symlink target path) i)

    copy_file-KeepsStaying :
        (mode : ℕ) (opens reads : Bool) (path : Bytes)
        → IsInside dst path
        → KeepsStaying (copy_file refuses mode opens reads path)
    unfolding copy_file
    copy_file-KeepsStaying mode opens reads path i =
        let parent = make_dir (dir path) 0o755 in
        let made = change refuses parent then_do change refuses (create path mode) in
        let read = if reads then keep_on else give_up in
        if-KeepsStaying (not opens) give_up (made then_do read) give_up-KeepsStaying (
          then_do-KeepsStaying made read
            (then_do-KeepsStaying (change refuses parent) (change refuses (create path mode))
              (change-KeepsStaying parent (inr (path, i, refl)))
              (change-KeepsStaying (create path mode) i))
            (if-KeepsStaying reads keep_on give_up keep_on-KeepsStaying give_up-KeepsStaying))

    module _ (ne : dst ≢ []) (deep : clean_stack dst ≢ []) (anchored : IsAnchored dst) where
      target_path-IsInside :
          (names : List Bytes) → All IsPlain names → IsInside dst (target_path dst names)
      unfolding target_path
      target_path-IsInside [] h =
          join_path-IsInside dst dot ne deep anchored (unfold split text_eq in (refl, tt))
      target_path-IsInside (w ∷ ws) h =
          join_path-IsInside dst (join slash (w ∷ ws)) ne deep anchored (
            subst (All NotUp)
              (sym (split-join slash (w ∷ ws) (cc) (All-imp (w ∷ ws) (λ x p. p.no_slash) h)))
              (All-imp (w ∷ ws) (λ x p. p.not_dot_dot) h))

      mutual
        unfolding copy_node copy_nodes

        copy_node-KeepsStaying :
            (names : List Bytes) (n : Node)
            → All IsPlain names
            → HasPlainNames n
            → KeepsStaying (copy_node refuses dst names n)
        copy_node-KeepsStaying names (file mode opens reads) h k =
            copy_file-KeepsStaying mode opens reads (target_path dst names)
              (target_path-IsInside names h)
        copy_node-KeepsStaying names (link target) h k =
            copy_symlink-KeepsStaying target (target_path dst names) (target_path-IsInside names h)
        copy_node-KeepsStaying names (folder mode nodes) h k =
            let made = make_dir (target_path dst names) mode in
            then_do-KeepsStaying (change refuses made) (copy_nodes refuses dst names nodes)
              (change-KeepsStaying made (inl (target_path-IsInside names h)))
              (copy_nodes-KeepsStaying names nodes h k)
        copy_node-KeepsStaying names gone h k = give_up-KeepsStaying

        copy_nodes-KeepsStaying :
            (names : List Bytes) (ns : Nodes)
            → All IsPlain names
            → HavePlainNames ns
            → KeepsStaying (copy_nodes refuses dst names ns)
        copy_nodes-KeepsStaying names nil h k = keep_on-KeepsStaying
        copy_nodes-KeepsStaying names (node w n rest) h (p, k, ks) =
            then_do-KeepsStaying (copy_node refuses dst (names ++ w ∷ []) n)
              (copy_nodes refuses dst names rest)
              (copy_node-KeepsStaying (names ++ w ∷ []) n
                (All-append IsPlain names (w ∷ []) h (p, tt)) k)
              (copy_nodes-KeepsStaying names rest h ks)

      -- For a destination that is not empty, whose cleaned path is not "/" or "." and does not end
      -- in "..", and a tree of plain names: wherever the copy stops, all that it creates, links or
      -- removes is inside the destination, and each directory that it makes is inside it or is the
      -- parent of something inside it.
      pub copy_dir-Stays :
          (root : Node) → HasPlainNames root → All Stays (copy_dir refuses dst root).0
      unfolding copy_dir
      copy_dir-Stays root h = copy_node-KeepsStaying [] root tt h [] tt
