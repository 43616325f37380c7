-- ===== src/Extract/Inside.antt =====
-- Where the entries of an archive land.
use grabber.Base.{
  ℕ, Bool, true, false, not, List, [], ◌∷◌, ◌++◌, ◌≡◌, ◌≢◌, ◌⊎◌, refl, none, some, if◌then◌else◌,
  Result, ok, err, inl, inr, Bool-cases, arith, All, All-append,
}
use grabber.Text.{Bytes}
use grabber.FilePath.{dir}
use grabber.SafePath.{PathError, safe_join}
use grabber.SafePath.Inside.{IsInside, IsAnchored, safe_join-IsInside}
use grabber.Extract.Engine.{
  Stream, Kind, directory, regular, other, TarEntry, TarNext, entry, corrupt, ZipEntry, Disk,
  Effect, make_dir, create, write, ExtractError, Extractor, Outcome, Act, next, ◌>>◌, fail, skip,
  open_error, corrupt_archive, entry_escapes, record_effect, read_limit, min_of, mkdir_all,
  write_file, untar, unzip, copy_all, copy_limited, tar_target, tar_joined, zip_file, zip_joined,
}

module _ (dst : Bytes) where
  -- A file is inside `dst`; a directory is inside it, or is the parent of something inside it.
  abbrev pub Lands : Effect → Type 0
  Lands (make_dir path mode) = IsInside dst path ⊎ ((t : Bytes) × IsInside dst t × (path ≡ dir t))
  Lands (create path mode) = IsInside dst path
  Lands (write path n) = IsInside dst path

  abbrev pub AllLand : Outcome → Type 0
  AllLand o = All Lands o.0.effects

  abbrev pub KeepsLanding : Act → Type 0
  KeepsLanding act = (e : Extractor) → All Lands e.effects → AllLand (act e)

  pub if-KeepsLanding :
      (b : Bool) (m act : Act)
      → KeepsLanding m
      → KeepsLanding act
      → KeepsLanding (if b then m else act)
  if-KeepsLanding true m act h k = h
  if-KeepsLanding false m act h k = k

  if-AllLand : (b : Bool) (o o' : Outcome) → AllLand o → AllLand o' → AllLand (if b then o else o')
  if-AllLand true o o' h k = h
  if-AllLand false o o' h k = k

  next-AllLand : (o : Outcome) (act : Act) → AllLand o → KeepsLanding act → AllLand (next o act)
  next-AllLand (e, none) act h k = k e h
  next-AllLand (e, some why) act h k = h

  pub seq-KeepsLanding : (m act : Act) → KeepsLanding m → KeepsLanding act → KeepsLanding (m >> act)
  seq-KeepsLanding m act h k e v = next-AllLand (m e) act (h e v) k

  skip-KeepsLanding : KeepsLanding skip
  skip-KeepsLanding e v = v

  fail-KeepsLanding : (why : ExtractError) → KeepsLanding (fail why)
  fail-KeepsLanding why e v = v

  land_one : (xs : List Effect) (x : Effect) → All Lands xs → Lands x → All Lands (xs ++ x ∷ [])
  land_one xs x h k = All-append Lands xs (x ∷ []) h (k, tt)

  module _ (disk : Disk) where
    pub mkdir_all-KeepsLanding :
        (path : Bytes) (mode : ℕ)
        → Lands (make_dir path mode)
        → KeepsLanding (mkdir_all disk path mode)
    unfolding mkdir_all
    mkdir_all-KeepsLanding path mode h e v = elim (Bool-cases (disk.mkdir_fails path)) [
      | inl stop ↦ rw stop v
      | inr go ↦ rw go (land_one e.effects (make_dir path mode) v h)
    ]

    copy_limited-effects :
        (path : Bytes) (r : Stream) (e : Extractor)
        → (copy_limited disk path r e).0.effects
          ≡ e.effects ++ write path (min_of r.size (read_limit e.remaining)) ∷ []
    unfolding copy_limited
    copy_limited-effects path r e = ground arith

    copy_limited-KeepsLanding :
        (path : Bytes) (r : Stream) → IsInside dst path → KeepsLanding (copy_limited disk path r)
    copy_limited-KeepsLanding path r h e v =
        rw (copy_limited-effects path r e)
          (land_one e.effects (write path (min_of r.size (read_limit e.remaining))) v h)

    copy_all-KeepsLanding :
        (path : Bytes) (r : Stream) → IsInside dst path → KeepsLanding (copy_all disk path r)
    unfolding copy_all
    copy_all-KeepsLanding path r h e v = land_one e.effects (write path r.size) v h

    pub write_file-KeepsLanding :
        (path : Bytes) (r : Stream) (mode : ℕ)
        → IsInside dst path
        → KeepsLanding (write_file disk path r mode)
    unfolding write_file
    write_file-KeepsLanding path r mode h e v =
        let e' = record_effect (create path mode) e in
        let made = land_one e.effects (create path mode) v h in
        if-AllLand (disk.create_fails path) _ _ v (
          if-AllLand (not e.limited) _ _ (copy_all-KeepsLanding path r h e' made)
            (copy_limited-KeepsLanding path r h e' made))

    pub parent-Lands :
        (target : Bytes) (mode : ℕ) → IsInside dst target → Lands (make_dir (dir target) mode)
    parent-Lands target mode h = inr (target, h, refl)

    tar_target-KeepsLanding :
        (target : Bytes) (k : Kind) (h : TarEntry)
        → IsInside dst target
        → KeepsLanding (tar_target disk target k h)
    unfolding tar_target
    tar_target-KeepsLanding target directory h i = mkdir_all-KeepsLanding target _ (inl i)
    tar_target-KeepsLanding target regular h i =
        seq-KeepsLanding _ _ (mkdir_all-KeepsLanding (dir target) _ (parent-Lands target 0o755 i))
          (write_file-KeepsLanding target h.contents _ i)
    tar_target-KeepsLanding target other h i = skip-KeepsLanding

    zip_file-KeepsLanding :
        (target : Bytes) (f : ZipEntry)
        → IsInside dst target
        → KeepsLanding (zip_file disk target f)
    unfolding zip_file
    zip_file-KeepsLanding target f i =
        if-KeepsLanding f.open_fails _ _ (fail-KeepsLanding open_error)
          (write_file-KeepsLanding target f.contents _ i)

    module _ (ne : dst ≢ []) (anchored : IsAnchored dst) where
      tar_joined-KeepsLanding :
          (name : Bytes) (joined : Result PathError Bytes) (h : TarEntry)
          → safe_join dst name ≡ joined
          → KeepsLanding (tar_joined disk joined h)
      unfolding tar_joined
      tar_joined-KeepsLanding name (err why) h e = fail-KeepsLanding (entry_escapes why)
      tar_joined-KeepsLanding name (ok target) h e =
          tar_target-KeepsLanding target h.kind h (safe_join-IsInside dst name target ne anchored e)

      zip_joined-KeepsLanding :
          (name : Bytes) (joined : Result PathError Bytes) (f : ZipEntry)
          → safe_join dst name ≡ joined
          → KeepsLanding (zip_joined disk joined f)
      unfolding zip_joined
      zip_joined-KeepsLanding name (err why) f e = fail-KeepsLanding (entry_escapes why)
      zip_joined-KeepsLanding name (ok target) f e =
          let i = safe_join-IsInside dst name target ne anchored e in
          if-KeepsLanding f.is_dir _ _ (mkdir_all-KeepsLanding target _ (inl i)) (
            seq-KeepsLanding _ _
              (mkdir_all-KeepsLanding (dir target) _ (parent-Lands target 0o755 i))
              (zip_file-KeepsLanding target f i))

      untar-KeepsLanding : (entries : List TarNext) → KeepsLanding (untar disk dst entries)
      unfolding untar
      untar-KeepsLanding [] = skip-KeepsLanding
      untar-KeepsLanding (corrupt ∷ rest) = fail-KeepsLanding corrupt_archive
      untar-KeepsLanding (entry h ∷ rest) =
          seq-KeepsLanding _ _ (tar_joined-KeepsLanding h.name (safe_join dst h.name) h refl)
            (untar-KeepsLanding rest)

      unzip-KeepsLanding : (entries : List ZipEntry) → KeepsLanding (unzip disk dst entries)
      unfolding unzip
      unzip-KeepsLanding [] = skip-KeepsLanding
      unzip-KeepsLanding (f ∷ rest) =
          seq-KeepsLanding _ _ (zip_joined-KeepsLanding f.name (safe_join dst f.name) f refl)
            (unzip-KeepsLanding rest)

      -- For a destination that is not empty and whose cleaned path is not "." and does not end in
      -- "..", and with everything so far inside it: whatever names the entries of a tar or zip
      -- archive have, and wherever its extraction stops, each file that is created or written is
      -- inside the destination, and each directory is inside it or is the parent of something
      -- inside it.
      pub untar-unzip-AllLand :
          (e : Extractor) (entries : List TarNext) (files : List ZipEntry)
          → All Lands e.effects
          → AllLand (untar disk dst entries e) × AllLand (unzip disk dst files e)
      untar-unzip-AllLand e entries files v =
          (untar-KeepsLanding entries e v, unzip-KeepsLanding files e v)
