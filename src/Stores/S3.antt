-- ===== src/Stores/S3.antt =====
-- protocols/s3/s3.go. Package url and the SDK are parameters.
use grabber.Base.{Bool, false, not, List, [], ◌∷◌, ◌++◌, Option, none, some, if◌then◌else◌}
use grabber.Text.{
  Bytes, codes, text_eq, is_empty, has_prefix, trim_prefix, cut, contains, split, join, to_lower,
}
use grabber.Settings.Types.{Url, Settings}
use grabber.Git.Url.{query_get}
use grabber.Stores.{Store, Written, download_key, no_client}

-- `Downloader`
pub record Downloader : Type 0 where
  pub bucket : Bytes
  pub key : Bytes
  pub region : Bytes
  pub endpoint : Bytes

abbrev pub bucket_and_key : Bytes → Option (Bytes × Bytes) → Bytes × Bytes
bucket_and_key path none = (path, [])
bucket_and_key path (some (bucket, key)) = (bucket, key)

with_bucket : Bytes → Bytes → Bytes → Bytes → Option Downloader
with_bucket bucket key region endpoint =
    if is_empty bucket
    then none
    else some record { bucket = bucket; key = key; region = region; endpoint = endpoint }

-- The s3:// form.
unfoldable pub parse_s3_scheme : Bytes → Option Downloader
unfolding with_bucket
parse_s3_scheme raw_url =
    let path = trim_prefix (codes "/") (trim_prefix (codes "s3://") raw_url) in
    let (bucket, key) = bucket_and_key path (cut (codes "/") path) in
    if is_empty path
    then none
    else some record { bucket = bucket; key = key; region = []; endpoint = [] }

-- `parseCustomEndpointURL`, with the field `Host` as `url_host`.
unfoldable pub parse_custom_endpoint_url : (Url → Bytes) → Url → Option Downloader
unfolding with_bucket
parse_custom_endpoint_url url_host u =
    let path = trim_prefix (codes "/") u.path in
    let (bucket, key) = bucket_and_key path (cut (codes "/") path) in
    let region = query_get (codes "region") u.query in
    with_bucket bucket key (if is_empty region then codes "us-east-1" else region)
      (u.scheme ++ codes "://" ++ url_host u)

-- The parts before the first "s3" and after it.
unfoldable pub find_s3 : List Bytes → Option (List Bytes × List Bytes)
find_s3 [] = none
find_s3 (part ∷ parts) =
    let later = find_s3 parts in
    if text_eq part (codes "s3")
    then some ([], parts)
    else (elim later [ none ↦ none | some (before, after) ↦ some (part ∷ before, after) ])

abbrev region_of : List Bytes → Bytes
region_of [] = []
region_of (part ∷ parts) = if not (text_eq part (codes "amazonaws")) then part else []

-- The host's parts: path-style if "s3" is the first, else virtual-hosted.
unfoldable pub parse_aws_parts : Bytes → Option (List Bytes × List Bytes) → Option Downloader
unfolding with_bucket
parse_aws_parts path none = none
parse_aws_parts path (some ([], after)) =
    let (bucket, key) = bucket_and_key path (cut (codes "/") path) in
    with_bucket bucket key (region_of after) []
parse_aws_parts path (some (b ∷ before, after)) =
    with_bucket (join b'.' (b ∷ before)) path (region_of after) []

of_url : (Url → Bytes) → Bool → Option Url → Option Downloader
of_url url_host allow_custom none = none
of_url url_host allow_custom (some u) =
    let host = to_lower u.hostname in
    if not (contains (codes "amazonaws.com") host)
    then if not allow_custom then none else parse_custom_endpoint_url url_host u
    else parse_aws_parts (trim_prefix (codes "/") u.path) (find_s3 (split b'.' host))

-- `parseS3URL`; `none` for an error.
unfoldable pub parse_s3_url :
    (Bytes → Option Url) → (Url → Bytes) → Bytes → Bool → Option Downloader
unfolding of_url
parse_s3_url parse_url url_host raw_url allow_custom =
    if has_prefix (codes "s3://") raw_url
    then parse_s3_scheme raw_url
    else of_url url_host allow_custom (
        parse_url
          (if not (contains (codes "://") raw_url) then codes "https://" ++ raw_url else raw_url))

-- `resolveRegion`
unfoldable pub resolve_region : Downloader → Settings → Bytes
resolve_region d s =
    if not (is_empty s.aws_credentials.region)
    then s.aws_credentials.region
    else if not (is_empty d.region)
    then d.region
    else codes "us-east-1"

pub data AwsAuth : Type 0 where
  static : Bytes → Bytes → Bytes → AwsAuth
  anonymous : AwsAuth
  -- The SDK's default chain, which looks at the environment.
  default_chain : AwsAuth

-- What `newClient` sets; a custom endpoint also means path-style addressing.
pub record ClientOptions : Type 0 where
  pub region : Bytes
  pub credentials : AwsAuth
  pub base_endpoint : Option Bytes

-- `newClient`
unfoldable pub new_client : Downloader → Settings → ClientOptions
new_client d s = record {
  region = resolve_region d s;
  credentials =
      if not (is_empty s.aws_credentials.access_key_id)
      then static s.aws_credentials.access_key_id s.aws_credentials.secret_access_key
          s.aws_credentials.session_token
      else if s.no_ambient_credentials
      then anonymous
      else default_chain;
  base_endpoint = if not (is_empty d.endpoint) then some d.endpoint else none;
}

-- `Download`: `connect` is the SDK's client for these options, and what its bucket holds.
unfoldable pub download_s3 :
    (ClientOptions → Bytes → Option Store) → Downloader → Settings → Bytes → Bool × Written
download_s3 connect d s tmp_dir = elim (connect (new_client d s) d.bucket) [
  | none ↦ (false, ([], some no_client))
  | some store ↦ download_key store d.key tmp_dir s.max_bytes
]
