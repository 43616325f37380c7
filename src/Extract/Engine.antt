-- ===== src/Extract/Engine.antt =====
-- `extractor` and its methods in extract/extract.go. Each method takes the state to a state and
-- an error; the state keeps the budget and what has been done to the disk so far.
use grabber.Base.{
  ℕ, ◌+◌, ◌-◌, ◌^◌, ◌%◌, Bool, true, false, not, ◌&&◌, List, [], ◌∷◌, ◌++◌, Option, none, some,
  if◌then◌else◌, ltb, Result, ok, err, ℤ, pos, negsuc,
}
use grabber.Text.{Bytes, codes, trim_suffix}
use grabber.FilePath.{dir, base, join_path}
use grabber.SafePath.{PathError, safe_join}
use grabber.Extract.Format.{
  Format, tar, tar_gzip, tar_bzip2, tar_xz, tar_zstd, tar_lz4, zip, gzip, bzip2, xz, zstd, lz4,
  extractors, detect_extension,
}

-- What a reader yields: `size` bytes, and then its end, or an error of the copy if `breaks`.
pub record Stream : Type 0 where
  pub size : ℕ
  pub breaks : Bool

pub data Kind : Type 0 where
  directory regular other : Kind

-- A tar header with the entry's contents.
pub record TarEntry : Type 0 where
  pub name : Bytes
  pub kind : Kind
  pub mode : ℕ
  pub contents : Stream

-- What `tr.Next` gives before the end of the archive.
pub data TarNext : Type 0 where
  entry : TarEntry → TarNext
  corrupt : TarNext

pub record ZipEntry : Type 0 where
  pub name : Bytes
  pub is_dir : Bool
  pub mode : ℕ
  pub open_fails : Bool
  pub contents : Stream

-- The file as the decoders read it.
pub record Archive : Type 0 where
  pub open_fails : Bool
  pub decoder_fails : Bool
  pub tar_entries : List TarNext
  pub zip_entries : List ZipEntry
  pub single : Stream

-- Which calls the disk refuses.
pub record Disk : Type 0 where
  pub mkdir_fails : Bytes → Bool
  pub create_fails : Bytes → Bool

pub data Effect : Type 0 where
  make_dir : Bytes → ℕ → Effect
  create : Bytes → ℕ → Effect
  write : Bytes → ℕ → Effect

pub data ExtractError : Type 0 where
  open_error decoder_error corrupt_archive mkdir_error create_error copy_error : ExtractError
  exceeds_size : ExtractError
  entry_escapes : PathError → ExtractError

-- `extractor`, with the effects so far, the first one first.
pub record Extractor : Type 0 where
  pub remaining : ℕ
  pub limited : Bool
  pub effects : List Effect

abbrev pub Outcome : Type 0
Outcome = Extractor × Option ExtractError

abbrev pub Act : Type 0
Act = Extractor → Outcome

abbrev pub next : Outcome → Act → Outcome
next (e, none) act = act e
next (e, some why) act = (e, some why)

infixl 5 ◌>>◌
abbrev pub ◌>>◌ : Act → Act → Act
◌>>◌ m act e = next (m e) act

abbrev pub fail : ExtractError → Act
fail why e = (e, some why)

abbrev pub skip : Act
skip e = (e, none)

abbrev pub record_effect : Effect → Extractor → Extractor
record_effect x e = record e { effects = e.effects ++ x ∷ [] }

-- `safeMode`: the permission bits.
unfoldable pub safe_mode : ℕ → ℕ
safe_mode mode = mode % 512

-- `e.remaining+1` as `io.LimitReader` reads it: in int64 the sum of the largest number and one is
-- negative, and a limit that is not positive yields nothing.
unfoldable pub read_limit : ℕ → ℕ
read_limit remaining = if ltb (remaining + 1) (2 ^ 63) then remaining + 1 else 0

abbrev pub min_of : ℕ → ℕ → ℕ
min_of a b = if ltb a b then a else b

module _ (disk : Disk) where
  unfoldable pub mkdir_all : Bytes → ℕ → Act
  mkdir_all path mode e =
      if disk.mkdir_fails path
      then (e, some mkdir_error)
      else (record_effect (make_dir path mode) e, none)

  unfoldable pub copy_all : Bytes → Stream → Act
  copy_all path r e =
      (record_effect (write path r.size) e, if r.breaks then some copy_error else none)

  unfoldable pub copy_limited : Bytes → Stream → Act
  copy_limited path r e =
      let limit = read_limit e.remaining in
      let n = min_of r.size limit in
      let e' = record_effect (write path n) e in
      if r.breaks && ltb r.size limit
      then (e', some copy_error)
      else if ltb e.remaining n
      then (e', some exceeds_size)
      else (record e' { remaining = e.remaining - n }, none)

  -- `writeFile`
  unfoldable pub write_file : Bytes → Stream → ℕ → Act
  write_file path r mode e =
      if disk.create_fails path
      then (e, some create_error)
      else let e' = record_effect (create path mode) e in
        if not e.limited then copy_all path r e' else copy_limited path r e'

  -- The `switch` of `untar` on the entry's type.
  unfoldable pub tar_target : Bytes → Kind → TarEntry → Act
  tar_target target directory h = mkdir_all target (safe_mode h.mode)
  tar_target target regular h =
      mkdir_all (dir target) 0o755 >> write_file target h.contents (safe_mode h.mode)
  tar_target target other h = skip

  unfoldable pub tar_joined : Result PathError Bytes → TarEntry → Act
  tar_joined (err why) h = fail (entry_escapes why)
  tar_joined (ok target) h = tar_target target h.kind h

  -- `untar`
  unfoldable pub untar : Bytes → List TarNext → Act
  untar dst [] = skip
  untar dst (corrupt ∷ rest) = fail corrupt_archive
  untar dst (entry h ∷ rest) = tar_joined (safe_join dst h.name) h >> untar dst rest

  unfoldable pub zip_file : Bytes → ZipEntry → Act
  zip_file target f =
      if f.open_fails then fail open_error else write_file target f.contents (safe_mode f.mode)

  unfoldable pub zip_joined : Result PathError Bytes → ZipEntry → Act
  zip_joined (err why) f = fail (entry_escapes why)
  zip_joined (ok target) f =
      if f.is_dir
      then mkdir_all target (safe_mode f.mode)
      else (mkdir_all (dir target) 0o755 >> zip_file target f)

  -- The loop of `extractZip`.
  unfoldable pub unzip : Bytes → List ZipEntry → Act
  unzip dst [] = skip
  unzip dst (f ∷ rest) = zip_joined (safe_join dst f.name) f >> unzip dst rest

  module _ (a : Archive) (src dst : Bytes) where
    -- `os.Open` and, where the format has one that can fail, the decoder's constructor.
    unfoldable pub opened : Bool → Act → Act
    opened has_decoder act =
        if a.open_fails
        then fail open_error
        else if has_decoder && a.decoder_fails
        then fail decoder_error
        else act

    -- `extractGzip` and the other single-file methods, which differ in the suffix.
    unfoldable pub single_file : Bytes → Act
    single_file suffix = write_file (join_path dst (trim_suffix suffix (base src))) a.single 0o644

    unfoldable pub extract_format : Format → Act
    extract_format tar = opened false (untar dst a.tar_entries)
    extract_format tar_gzip = opened true (untar dst a.tar_entries)
    extract_format tar_bzip2 = opened false (untar dst a.tar_entries)
    extract_format tar_xz = opened true (untar dst a.tar_entries)
    extract_format tar_zstd = opened true (untar dst a.tar_entries)
    extract_format tar_lz4 = opened false (untar dst a.tar_entries)
    extract_format zip = opened true (unzip dst a.zip_entries)
    extract_format gzip = opened true (single_file (codes ".gz"))
    extract_format bzip2 = opened false (single_file (codes ".bz2"))
    extract_format xz = opened true (single_file (codes ".xz"))
    extract_format zstd = opened true (single_file (codes ".zst"))
    extract_format lz4 = opened false (single_file (codes ".lz4"))

-- The extractor that `ExtractWithLimit` makes.
unfoldable pub new_extractor : ℤ → Extractor
new_extractor (pos n) = record { remaining = n; limited = ltb 0 n; effects = [] }
new_extractor (negsuc n) = record { remaining = 0; limited = false; effects = [] }

unfoldable pub run_format :
    Disk → (Format → Archive) → Bytes → Bytes → Extractor → Option Format → Bool × Outcome
run_format disk read src dst e none = (false, (e, none))
run_format disk read src dst e (some f) = (true, extract_format disk (read f) src dst f e)

-- `ExtractWithLimit`: whether the format is known, and the outcome.
unfoldable pub extract_with_limit : Disk → (Format → Archive) → Bytes → Bytes → ℤ → Bool × Outcome
extract_with_limit disk read src dst max_bytes =
    run_format disk read src dst (new_extractor max_bytes) (extractors (detect_extension src))

-- `Extract`
unfoldable pub extract : Disk → (Format → Archive) → Bytes → Bytes → Bool × Outcome
extract disk read src dst = extract_with_limit disk read src dst (pos 0)
