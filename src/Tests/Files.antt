-- ===== src/Tests/Files.antt =====
-- The theorems on paths, archives, copies and environments at concrete inputs.
use grabber.Base.{
  ◌+◌, ◌^◌, ◌-◌, true, false, List, [], ◌∷◌, ◌++◌, ◌≡◌, ◌≢◌, refl, none, some, ok, arith,
  if◌then◌else◌, ltb, pos,
}
use grabber.Text.{Bytes, codes}
use grabber.FilePath.{is_rooted}
use grabber.SafePath.{safe_join}
use grabber.SafePath.Inside.{IsInside, IsAnchored, safe_join-IsInside}
use grabber.Extract.Engine.{
  Stream, Disk, Archive, Extractor, create, write, TarNext, entry, regular, ZipEntry, untar, unzip,
  write_file, copy_limited, read_limit, extract_with_limit,
}
use grabber.Extract.Inside.{AllLand, untar-unzip-AllLand}
use grabber.Extract.Budget.{IsWithin, extract_with_limit-IsWithin}
use grabber.Extract.Whole.{write_file_largest}
use grabber.Limitio
use grabber.Limitio.{copy_within_limit}
use grabber.Childenv.{
  non_interactive, forced, env_value, or_else, is_blocked, non_interactive_value,
}

abbrev root : Bytes
root = codes "/out"

root-not_empty : root ≢ []
root-not_empty = cc

root-IsAnchored : IsAnchored root
unfolding is_rooted
root-IsAnchored = refl

joined : safe_join root (codes "../out/a/./b") ≡ ok (codes "/out/a/b")
unfolding safe_join
joined = refl

safe_join-IsInside_example : IsInside root (codes "/out/a/b")
safe_join-IsInside_example =
    safe_join-IsInside root (codes "../out/a/./b") (codes "/out/a/b") root-not_empty root-IsAnchored
      joined

abbrev disk : Disk
disk = record { mkdir_fails = λ path. false; create_fails = λ path. false }

abbrev some_bytes : Stream
some_bytes = record { size = 7; breaks = false }

abbrev start : Extractor
start = record { remaining = 10; limited = true; effects = [] }

abbrev tar_entries : List TarNext
tar_entries =
    entry (record { name = codes "a/b"; kind = regular; mode = 0o644; contents = some_bytes })
    ∷ entry (record { name = codes "../evil"; kind = regular; mode = 0o644; contents = some_bytes })
    ∷ []

abbrev zip_entries : List ZipEntry
zip_entries =
    record {
      name = codes "d/";
      is_dir = true;
      mode = 0o755;
      open_fails = false;
      contents = some_bytes;
    }
    ∷ []

untar-unzip-AllLand_example :
    AllLand root (untar disk root tar_entries start)
    × AllLand root (unzip disk root zip_entries start)
untar-unzip-AllLand_example =
    untar-unzip-AllLand root disk root-not_empty root-IsAnchored start tar_entries zip_entries tt

abbrev archive : Archive
archive = record {
  open_fails = false;
  decoder_fails = false;
  tar_entries = tar_entries;
  zip_entries = zip_entries;
  single = some_bytes;
}

extract_with_limit-IsWithin_example :
    IsWithin 10 (extract_with_limit disk (λ f. archive) (codes "x.tar") root (pos 10)).1
extract_with_limit-IsWithin_example =
    extract_with_limit-IsWithin disk (λ f. archive) (codes "x.tar") root 9

abbrev after_write : Extractor
after_write = record {
  remaining = 3;
  limited = true;
  effects = create (codes "f") 0o644 ∷ write (codes "f") 7 ∷ [];
}

wrote : write_file disk (codes "f") some_bytes 0o644 start ≡ (after_write, none)
unfolding write_file copy_limited read_limit
wrote = refl

abbrev largest : Extractor
largest = record { remaining = 2 ^ 63 - 1; limited = true; effects = [] }

write_file_largest_example :
    ((write_file disk (codes "f") some_bytes 0o644 largest).1 ≡ none)
    × ((write_file disk (codes "f") some_bytes 0o644 largest).0.effects
        ≡ (largest.effects ++ create (codes "f") 0o644 ∷ []) ++ write (codes "f") 0 ∷ [])
write_file_largest_example =
    write_file_largest disk (codes "f") some_bytes 0o644 largest refl refl refl

abbrev source : Limitio.Source
source = record { size = 12; breaks = false }

copy_within_limit_example : Limitio.copy source (pos 10) ≡ (
    if ltb 10 12
    then (10 + 1, some Limitio.limit_exceeded)
    else (12, if false then some Limitio.copy_failed else none))
copy_within_limit_example = copy_within_limit source 10 (omega arith) (omega arith)

abbrev parent : List Bytes
parent = codes "PATH=/bin" ∷ codes "GIT_ASKPASS=/bin/ask" ∷ []

non_interactive_value_example :
    env_value (codes "PATH") (non_interactive parent)
    ≡ or_else
        (env_value (codes "PATH") forced)
        (if is_blocked (some (codes "PATH")) then none else env_value (codes "PATH") parent)
non_interactive_value_example = non_interactive_value (codes "PATH") parent
