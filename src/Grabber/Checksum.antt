-- ===== src/Grabber/Checksum.antt =====
-- Checksums in grabber.go. `url.Parse`, the query and `URL.String` are a parameter, and so is the
-- hexadecimal digest of a file for each algorithm.
pub mod Laws
pub mod Fetched
use grabber.Base.{
  Bool, true, false, not, ◌&&◌, ◌||◌, List, [], ◌∷◌, ◌++◌, Option, none, some, if◌then◌else◌,
  Result, ok, err,
}
use grabber.Text.{Bytes, codes, text_eq, cut, contains, is_empty, to_lower, equal_fold}
use grabber.Git.Url.{query_get}
use grabber.Http.{query_del}

-- `checksumSpec`
pub record ChecksumSpec : Type 0 where
  pub algorithm : Bytes
  pub expected : Bytes

abbrev pub no_checksum : ChecksumSpec
no_checksum = record { algorithm = []; expected = [] }

-- What package url makes of a URL: the pairs of its query, and the URL written again with other
-- pairs for them.
pub record QueryView : Type 0 where
  pub query : List (Bytes × Bytes)
  pub with_query : List (Bytes × Bytes) → Bytes

abbrev pub Extracted : Type 0
Extracted = Bytes × ChecksumSpec

-- Without an algorithm the value is a SHA-256 hash.
spec_of : Bytes → Option (Bytes × Bytes) → ChecksumSpec
spec_of value none = record { algorithm = codes "sha256"; expected = value }
spec_of value (some (algo, expected)) = record { algorithm = algo; expected = expected }

accept : Bytes → Bytes → Bytes → ChecksumSpec → Extracted
accept raw_url prefix clean spec =
    if is_empty spec.algorithm || is_empty spec.expected
    then (raw_url, no_checksum)
    else (prefix ++ clean, spec)

viewed : Bytes → Bytes → Option QueryView → Extracted
unfolding accept spec_of
viewed raw_url prefix none = (raw_url, no_checksum)
viewed raw_url prefix (some q) =
    let value = query_get (codes "checksum") q.query in
    if is_empty value
    then (raw_url, no_checksum)
    else accept raw_url prefix (q.with_query (query_del (codes "checksum") q.query))
        (spec_of value (cut (codes ":") value))

parsed : (Bytes → Option QueryView) → Bytes → Bytes → Bytes → Extracted
unfolding viewed
parsed view raw_url prefix to_parse =
    if not (contains (codes "checksum=") to_parse)
    then (raw_url, no_checksum)
    else viewed raw_url prefix (view to_parse)

after_prefix : (Bytes → Option QueryView) → Bytes → Option (Bytes × Bytes) → Extracted
unfolding parsed
after_prefix view raw_url none = parsed view raw_url [] raw_url
after_prefix view raw_url (some (p, remainder)) = parsed view raw_url (p ++ codes "::") remainder

-- `extractChecksum`
unfoldable pub extract_checksum : (Bytes → Option QueryView) → Bytes → Extracted
unfolding after_prefix
extract_checksum view raw_url = after_prefix view raw_url (cut (codes "::") raw_url)

pub data Hash : Type 0 where
  md5 sha1 sha256 sha512 : Hash

-- `newHash`; `none` for an unsupported algorithm.
unfoldable pub new_hash : Bytes → Option Hash
new_hash algorithm =
    let name = to_lower algorithm in
    if text_eq name (codes "md5")
    then some md5
    else if text_eq name (codes "sha1")
    then some sha1
    else if text_eq name (codes "sha256")
    then some sha256
    else if text_eq name (codes "sha512")
    then some sha512
    else none

pub data ChecksumError : Type 0 where
  unreadable_directory not_one_file unsupported_algorithm unreadable_file mismatch : ChecksumError

-- The names in the temporary directory, and the digest of a file: `none` where reading fails.
pub record Staging : Type 0 where
  pub entries : Option (List Bytes)
  pub digest : Hash → Bytes → Option Bytes

compare_digest : ChecksumSpec → Option Bytes → Result ChecksumError (Unit {0})
compare_digest spec none = err unreadable_file
compare_digest spec (some actual) =
    if not (equal_fold actual spec.expected) then err mismatch else ok tt

hash_file :
    (Hash → Bytes → Option Bytes)
    → ChecksumSpec
    → Bytes
    → Option Hash
    → Result ChecksumError (Unit {0})
unfolding compare_digest
hash_file digest spec name none = err unsupported_algorithm
hash_file digest spec name (some h) = compare_digest spec (digest h name)

verify_entries :
    (Hash → Bytes → Option Bytes)
    → ChecksumSpec
    → Option (List Bytes)
    → Result ChecksumError (Unit {0})
unfolding hash_file
verify_entries digest spec none = err unreadable_directory
verify_entries digest spec (some (name ∷ [])) = hash_file digest spec name (new_hash spec.algorithm)
verify_entries digest spec (some _) = err not_one_file

-- `verifyChecksum`
unfoldable pub verify_checksum : Staging → ChecksumSpec → Result ChecksumError (Unit {0})
unfolding verify_entries
verify_checksum d spec = verify_entries d.digest spec d.entries
