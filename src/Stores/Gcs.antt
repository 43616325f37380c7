-- ===== src/Stores/Gcs.antt =====
-- protocols/gcs/gcs.go. Package url, the JSON and token packages and the client are parameters.
use grabber.Base.{
  Bool, false, not, ◌||◌, [], ◌++◌, Option, none, some, if◌then◌else◌, Result, ok, err,
}
use grabber.Text.{
  Bytes, codes, text_eq, is_empty, has_suffix, trim_prefix, trim_suffix, cut, contains, to_lower,
}
use grabber.Settings.Types.{Url, Settings}
use grabber.Stores.{Store, Written, download_key, no_client}

-- `Downloader`
pub record Downloader : Type 0 where
  pub bucket : Bytes
  pub key : Bytes
  pub endpoint : Bytes

abbrev cut_or_all : Bytes → Option (Bytes × Bytes) → Bytes × Bytes
cut_or_all path none = (path, [])
cut_or_all path (some parts) = parts

-- `splitBucketKey`
unfoldable pub split_bucket_key : Bytes → Bytes × Bytes
split_bucket_key path =
    let stripped = trim_prefix (codes "/") path in cut_or_all stripped (cut (codes "/") stripped)

with_bucket : Bytes × Bytes → Bytes → Option Downloader
with_bucket (bucket, key) endpoint =
    if is_empty bucket
    then none
    else some record { bucket = bucket; key = key; endpoint = endpoint }

of_url : (Url → Bytes) → Bool → Option Url → Option Downloader
unfolding with_bucket
of_url url_host forced none = none
of_url url_host forced (some u) =
    let host = to_lower u.hostname in
    if text_eq host (codes "storage.googleapis.com")
      || text_eq host (codes "storage.cloud.google.com")
    then with_bucket (split_bucket_key u.path) []
    else if has_suffix (codes ".storage.googleapis.com") host
    then with_bucket
        (trim_suffix (codes ".storage.googleapis.com") host, trim_prefix (codes "/") u.path) []
    else if forced
    then with_bucket (split_bucket_key u.path) (u.scheme ++ codes "://" ++ url_host u)
    else none

-- `parseGCSURL`, with the field `Host` as `url_host`; `none` for an error.
unfoldable pub parse_gcs_url :
    (Bytes → Option Url) → (Url → Bytes) → Bytes → Bool → Option Downloader
unfolding of_url
parse_gcs_url parse_url url_host raw_url forced = of_url url_host forced (
    parse_url
      (if not (contains (codes "://") raw_url) then codes "https://" ++ raw_url else raw_url))

pub data GcsAuth : Type 0 where
  service_account : Bytes → GcsAuth
  without_authentication : GcsAuth
  -- Application Default Credentials, which come from the environment.
  application_default : GcsAuth

pub data AuthError : Type 0 where
  invalid_json invalid_key : AuthError

-- Whether a key is JSON, whether it gives credentials, and whether there are default ones.
pub record Google : Type 0 where
  pub is_json : Bytes → Bool
  pub is_key : Bytes → Bool
  pub has_default : Bool

-- `authOption`
unfoldable pub auth_option : Google → Settings → Bytes → Result AuthError GcsAuth
auth_option google s endpoint =
    let key = s.gcp_credentials.service_account_key in
    if not (is_empty key)
    then if not (google.is_json key)
      then err invalid_json
      else if not (google.is_key key)
      then err invalid_key
      else ok (service_account key)
    else if not (is_empty endpoint) || s.no_ambient_credentials
    then ok without_authentication
    else if google.has_default
    then ok application_default
    else ok without_authentication

-- The endpoint that `newService` takes: the URL's own, or else the configured one.
unfoldable pub service_endpoint : Downloader → Settings → Bytes
service_endpoint d s = if is_empty d.endpoint then s.gcp_credentials.endpoint else d.endpoint

-- `newService`: the endpoint, if it is not empty, and the authentication.
unfoldable pub new_service : Google → Downloader → Settings → Result AuthError (Bytes × GcsAuth)
new_service google d s =
    let endpoint = service_endpoint d s in
    elim (auth_option google s endpoint) [ err why ↦ err why | ok auth ↦ ok (endpoint, auth) ]

-- `Download`: `connect` is the client for an endpoint and an authentication, and what its bucket
-- holds.
unfoldable pub download_gcs :
    (Bytes × GcsAuth → Bytes → Option Store)
    → Google
    → Downloader
    → Settings
    → Bytes
    → Bool × Written
download_gcs connect google d s tmp_dir = elim (new_service google d s) [
  | err why ↦ (false, ([], some no_client))
  | ok service ↦ elim (connect service d.bucket) [
    | none ↦ (false, ([], some no_client))
    | some store ↦ download_key store d.key tmp_dir s.max_bytes
  ]
]
