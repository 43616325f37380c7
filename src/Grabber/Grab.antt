-- ===== src/Grabber/Grab.antt =====
-- `grab` and `copyDir` of grabber.go: the order of the steps of a download, and where it stops.
pub mod Verified
use grabber.Base.{
  Bool, true, false, not, ◌&&◌, List, [], ◌∷◌, ◌++◌, Option, none, some, if◌then◌else◌, Result, ok,
  err, ◌>>=◌, ◌>>◌,
}
use grabber.Text.{Bytes, is_empty}
use grabber.Grabber.Checksum.{
  ChecksumSpec, QueryView, Staging, ChecksumError, extract_checksum, verify_checksum,
}

pub data GrabError : Type 0 where
  temp_dir_failed download_failed not_single_file : GrabError
  checksum_failed : ChecksumError → GrabError
  unreadable_temp_dir not_one_entry extract_failed remove_archive_failed copy_failed : GrabError

-- What extraction does with the archive: an error, nothing (the format is unknown), or contents
-- in "_extracted".
pub data Extraction : Type 0 where
  broken not_archive extracted : Extraction

-- What the environment does in one call: the results of the calls on the disk, of the download
-- (`some` says whether one file was written) and of the extraction.
pub record World : Type 0 where
  pub temp_dir_made : Bool
  pub download : Bytes → Option Bool
  pub staging : Staging
  pub extraction : Bytes → Extraction
  pub archive_removed : Bool
  pub destination_exists : Bool
  pub renamed : Bool
  pub copied : Bool

-- Which tree ends up at the destination.
pub data Placed : Type 0 where
  downloaded_tree extracted_tree : Placed

-- The explicit checksum, or else the one in the URL.
unfoldable pub effective : ChecksumSpec → ChecksumSpec → ChecksumSpec
effective explicit from_url = if is_empty explicit.algorithm then from_url else explicit

downloaded : Option Bool → Result GrabError Bool
downloaded none = err download_failed
downloaded (some is_file) = ok is_file

verified : Result ChecksumError (Unit {0}) → Result GrabError (Unit {0})
verified (ok _) = ok tt
verified (err why) = err (checksum_failed why)

unfoldable pub check_sum : World → ChecksumSpec → Bool → Result GrabError (Unit {0})
unfolding verified
check_sum w spec is_file =
    if is_empty spec.algorithm
    then ok tt
    else if not is_file
    then err not_single_file
    else verified (verify_checksum w.staging spec)

place_extracted : World → Extraction → Result GrabError Placed
place_extracted w broken = err extract_failed
place_extracted w not_archive = ok downloaded_tree
place_extracted w extracted =
    if w.archive_removed then ok extracted_tree else err remove_archive_failed

extract_entries : World → Option (List Bytes) → Result GrabError Placed
unfolding place_extracted
extract_entries w none = err unreadable_temp_dir
extract_entries w (some (name ∷ [])) = place_extracted w (w.extraction name)
extract_entries w (some _) = err not_one_entry

unfoldable pub auto_extract : World → Bool → Bool → Result GrabError Placed
unfolding extract_entries
auto_extract w enabled is_file =
    if is_file && enabled then extract_entries w w.staging.entries else ok downloaded_tree

-- The rename where the destination does not exist, else or if it fails the copy.
unfoldable pub place : World → Placed → Result GrabError Placed
place w tree =
    if not w.destination_exists && w.renamed
    then ok tree
    else if w.copied
    then ok tree
    else err copy_failed

-- `grab`: what ends up at the destination.
unfoldable pub grab :
    (Bytes → Option QueryView) → World → Bool → Bytes → ChecksumSpec → Result GrabError Placed
unfolding downloaded
grab view w enable_auto_extract raw_url explicit =
    if not w.temp_dir_made then err temp_dir_failed else do
      let (clean_url, from_url) = extract_checksum view raw_url
      let spec = effective explicit from_url
      is_file ← downloaded (w.download clean_url)
      check_sum w spec is_file
      tree ← auto_extract w enable_auto_extract is_file
      place w tree
