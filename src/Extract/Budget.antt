-- ===== src/Extract/Budget.antt =====
-- How many bytes an extraction writes.
use grabber.Base.{
  ℕ, suc, ◌+◌, ◌≤◌, Bool, true, false, not, ◌&&◌, List, [], ◌∷◌, ◌++◌, ◌≡◌, subst, sym, Option,
  none, some, if◌then◌else◌, Result, ok, err, pos, inl, inr, Bool-cases, arith,
}
use grabber.Text.{Bytes}
use grabber.SafePath.{PathError, safe_join}
use grabber.Extract.Format.{
  Format, tar, tar_gzip, tar_bzip2, tar_xz, tar_zstd, tar_lz4, zip, gzip, bzip2, xz, zstd, lz4,
}
use grabber.Extract.Engine.{
  Stream, Kind, directory, regular, other, TarEntry, TarNext, entry, corrupt, ZipEntry, Archive,
  Disk, Effect, make_dir, create, write, ExtractError, Extractor, Outcome, Act, next, ◌>>◌, fail,
  skip, open_error, decoder_error, entry_escapes, corrupt_archive, record_effect, read_limit,
  min_of, mkdir_all, write_file, untar, unzip, extract_format, copy_all, copy_limited, tar_target,
  tar_joined, zip_file, zip_joined, opened, single_file, run_format, new_extractor,
  extract_with_limit,
}

abbrev pub written : List Effect → ℕ
written [] = 0
written (write path n ∷ xs) = n + written xs
written (make_dir path mode ∷ xs) = written xs
written (create path mode ∷ xs) = written xs

written-append : (xs ys : List Effect) → written (xs ++ ys) ≡ written xs + written ys
written-append [] ys = omega arith
written-append (write path n ∷ xs) ys = omega (arith, written-append xs ys)
written-append (make_dir path mode ∷ xs) ys = written-append xs ys
written-append (create path mode ∷ xs) ys = written-append xs ys

-- What is left of a budget and what has been written make up the budget; an error may come one
-- byte after the budget is used up.
abbrev pub IsWithin : ℕ → Outcome → Type 0
IsWithin budget (e, none) = (e.limited ≡ true) × (written e.effects + e.remaining ≡ budget)
IsWithin budget (e, some why) = written e.effects ≤ budget + 1

abbrev pub Keeps : ℕ → Act → Type 0
Keeps budget act = (e : Extractor) → IsWithin budget (e, none) → IsWithin budget (act e)

read_limit-le : (r : ℕ) → read_limit r ≤ r + 1
unfolding read_limit
read_limit-le r = ground arith

module _ (budget : ℕ) where
  next-IsWithin :
      (o : Outcome) (act : Act)
      → IsWithin budget o
      → Keeps budget act
      → IsWithin budget (next o act)
  next-IsWithin (e, none) act h k = k e h
  next-IsWithin (e, some why) act h k = h

  pub seq-Keeps : (m act : Act) → Keeps budget m → Keeps budget act → Keeps budget (m >> act)
  seq-Keeps m act h k e v = next-IsWithin (m e) act (h e v) k

  pub if-Keeps :
      (b : Bool) (m act : Act)
      → Keeps budget m
      → Keeps budget act
      → Keeps budget (if b then m else act)
  if-Keeps true m act h k = h
  if-Keeps false m act h k = k

  skip-Keeps : Keeps budget skip
  skip-Keeps e v = v

  fail-Keeps : (why : ExtractError) → Keeps budget (fail why)
  fail-Keeps why e v = omega arith

  module _ (disk : Disk) where
    pub mkdir_all-Keeps : (path : Bytes) (mode : ℕ) → Keeps budget (mkdir_all disk path mode)
    unfolding mkdir_all
    mkdir_all-Keeps path mode e v =
        ground (arith, written-append e.effects (make_dir path mode ∷ []))

    copy_limited-Keeps : (path : Bytes) (r : Stream) → Keeps budget (copy_limited disk path r)
    unfolding copy_limited
    copy_limited-Keeps path r e v =
        let n = min_of r.size (read_limit e.remaining) in
        ground (arith, written-append e.effects (write path n ∷ []), read_limit-le e.remaining)

    pub write_file-Keeps :
        (path : Bytes) (r : Stream) (mode : ℕ) → Keeps budget (write_file disk path r mode)
    unfolding write_file
    write_file-Keeps path r mode e (lim, v) = elim (Bool-cases (disk.create_fails path)) [
      | inl stop ↦ rw stop (omega arith)
      | inr go ↦
          let e' = record_effect (create path mode) e in
          rw go (
            subst
              (λ b.
                IsWithin budget
                  (if not b then copy_all disk path r e' else copy_limited disk path r e'))
              (sym lim)
              (copy_limited-Keeps path r e'
                (lim, omega (arith, written-append e.effects (create path mode ∷ [])))))
    ]

    tar_target-Keeps :
        (target : Bytes) (k : Kind) (h : TarEntry) → Keeps budget (tar_target disk target k h)
    unfolding tar_target
    tar_target-Keeps target directory h = mkdir_all-Keeps target _
    tar_target-Keeps target regular h =
        seq-Keeps _ _ (mkdir_all-Keeps _ _) (write_file-Keeps target h.contents _)
    tar_target-Keeps target other h = skip-Keeps

    tar_joined-Keeps :
        (joined : Result PathError Bytes) (h : TarEntry) → Keeps budget (tar_joined disk joined h)
    unfolding tar_joined
    tar_joined-Keeps (err why) h = fail-Keeps (entry_escapes why)
    tar_joined-Keeps (ok target) h = tar_target-Keeps target h.kind h

    untar-Keeps : (dst : Bytes) (entries : List TarNext) → Keeps budget (untar disk dst entries)
    unfolding untar
    untar-Keeps dst [] = skip-Keeps
    untar-Keeps dst (corrupt ∷ rest) = fail-Keeps corrupt_archive
    untar-Keeps dst (entry h ∷ rest) =
        seq-Keeps _ _ (tar_joined-Keeps (safe_join dst h.name) h) (untar-Keeps dst rest)

    zip_file-Keeps : (target : Bytes) (f : ZipEntry) → Keeps budget (zip_file disk target f)
    unfolding zip_file
    zip_file-Keeps target f =
        if-Keeps f.open_fails _ _ (fail-Keeps open_error) (write_file-Keeps target f.contents _)

    zip_joined-Keeps :
        (joined : Result PathError Bytes) (f : ZipEntry) → Keeps budget (zip_joined disk joined f)
    unfolding zip_joined
    zip_joined-Keeps (err why) f = fail-Keeps (entry_escapes why)
    zip_joined-Keeps (ok target) f =
        if-Keeps f.is_dir _ _ (mkdir_all-Keeps target _)
          (seq-Keeps _ _ (mkdir_all-Keeps _ _) (zip_file-Keeps target f))

    unzip-Keeps : (dst : Bytes) (entries : List ZipEntry) → Keeps budget (unzip disk dst entries)
    unfolding unzip
    unzip-Keeps dst [] = skip-Keeps
    unzip-Keeps dst (f ∷ rest) =
        seq-Keeps _ _ (zip_joined-Keeps (safe_join dst f.name) f) (unzip-Keeps dst rest)

    module _ (a : Archive) (src dst : Bytes) where
      opened-Keeps :
          (d : Bool) (act : Act) → Keeps budget act → Keeps budget (opened disk a src dst d act)
      unfolding opened
      opened-Keeps d act k =
          if-Keeps a.open_fails _ _ (fail-Keeps open_error)
            (if-Keeps (d && a.decoder_fails) _ _ (fail-Keeps decoder_error) k)

      single_file-Keeps : (suffix : Bytes) → Keeps budget (single_file disk a src dst suffix)
      unfolding single_file
      single_file-Keeps suffix = write_file-Keeps _ _ _

      extract_format-Keeps : (f : Format) → Keeps budget (extract_format disk a src dst f)
      unfolding extract_format
      extract_format-Keeps tar = opened-Keeps _ _ (untar-Keeps dst a.tar_entries)
      extract_format-Keeps tar_gzip = opened-Keeps _ _ (untar-Keeps dst a.tar_entries)
      extract_format-Keeps tar_bzip2 = opened-Keeps _ _ (untar-Keeps dst a.tar_entries)
      extract_format-Keeps tar_xz = opened-Keeps _ _ (untar-Keeps dst a.tar_entries)
      extract_format-Keeps tar_zstd = opened-Keeps _ _ (untar-Keeps dst a.tar_entries)
      extract_format-Keeps tar_lz4 = opened-Keeps _ _ (untar-Keeps dst a.tar_entries)
      extract_format-Keeps zip = opened-Keeps _ _ (unzip-Keeps dst a.zip_entries)
      extract_format-Keeps gzip = opened-Keeps _ _ (single_file-Keeps _)
      extract_format-Keeps bzip2 = opened-Keeps _ _ (single_file-Keeps _)
      extract_format-Keeps xz = opened-Keeps _ _ (single_file-Keeps _)
      extract_format-Keeps zstd = opened-Keeps _ _ (single_file-Keeps _)
      extract_format-Keeps lz4 = opened-Keeps _ _ (single_file-Keeps _)

run_format-IsWithin :
    (disk : Disk) (read : Format → Archive) (src dst : Bytes) (budget : ℕ) (e : Extractor)
    (found : Option Format)
    → IsWithin budget (e, none)
    → IsWithin budget (run_format disk read src dst e found).1
unfolding run_format
run_format-IsWithin disk read src dst budget e none h = h
run_format-IsWithin disk read src dst budget e (some f) h =
    extract_format-Keeps budget disk (read f) src dst f e h

-- With a positive limit, whatever the archive holds and wherever the extraction stops: without an
-- error the bytes written and the budget left make up the limit, and with one at most one byte more
-- than the limit has been written.
pub extract_with_limit-IsWithin :
    (disk : Disk) (read : Format → Archive) (src dst : Bytes) (n : ℕ)
    → IsWithin (suc n) (extract_with_limit disk read src dst (pos (suc n))).1
unfolding extract_with_limit new_extractor
extract_with_limit-IsWithin disk read src dst n =
    run_format-IsWithin disk read src dst (suc n) _ _ (ground arith, omega arith)
