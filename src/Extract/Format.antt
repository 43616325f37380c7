-- ===== src/Extract/Format.antt =====
-- `detectExtension` and the table `extractors` of extract/extract.go.
use Prim.Native.String.{String}
use grabber.Base.{List, [], ◌∷◌, ◌++◌, Option, none, some, if◌then◌else◌}
use grabber.Text.{Bytes, codes, text_eq, to_lower, has_suffix, trim_prefix}
use grabber.FilePath.{ext}

pub data Format : Type 0 where
  tar tar_gzip tar_bzip2 tar_xz tar_zstd tar_lz4 zip gzip bzip2 xz zstd lz4 : Format

abbrev table : List (String × Format)
table =
    ("tar", tar)
    ∷ ("tar.gz", tar_gzip)
    ∷ ("tgz", tar_gzip)
    ∷ ("tar.bz2", tar_bzip2)
    ∷ ("tbz2", tar_bzip2)
    ∷ ("tar.xz", tar_xz)
    ∷ ("txz", tar_xz)
    ∷ ("tar.zst", tar_zstd)
    ∷ ("tzst", tar_zstd)
    ∷ ("tar.lz4", tar_lz4)
    ∷ ("zip", zip)
    ∷ ("gz", gzip)
    ∷ ("bz2", bzip2)
    ∷ ("xz", xz)
    ∷ ("zst", zstd)
    ∷ ("lz4", lz4)
    ∷ []

find_format : Bytes → List (String × Format) → Option Format
find_format name [] = none
find_format name ((key, f) ∷ rest) =
    if text_eq (codes key) name then some f else find_format name rest

-- `extractors[name]`
unfoldable pub extractors : Bytes → Option Format
unfolding find_format
extractors name = find_format name table

abbrev compounds : List String
compounds = "tar.gz" ∷ "tar.bz2" ∷ "tar.xz" ∷ "tar.zst" ∷ "tar.lz4" ∷ []

first_compound : Bytes → List String → Bytes
first_compound name [] = trim_prefix (codes ".") (ext name)
first_compound name (c ∷ cs) =
    if has_suffix (codes "." ++ codes c) name then codes c else first_compound name cs

-- `detectExtension`
unfoldable pub detect_extension : Bytes → Bytes
unfolding first_compound
detect_extension name = first_compound (to_lower name) compounds
