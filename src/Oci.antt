-- ===== src/Oci.antt =====
-- protocols/oci/oci.go. Package url, the netrc lookup, the oras client and the disk are parameters.
use grabber.Base.{
  Bool, true, false, not, ◌&&◌, ◌||◌, List, [], ◌∷◌, ◌++◌, Option, none, some, if◌then◌else◌, ◌==◌,
  Result, ok, err,
}
use grabber.Text.{Bytes, codes, text_eq, is_empty, has_prefix, trim_prefix, contains}
use grabber.FilePath.{join_path}
use grabber.Netrc.{Machine}
use grabber.Settings.Types.{Url, Settings, OciCredential, BaseTransport}
use grabber.Settings.Match.{match_oci_credential}
use grabber.Settings.Credentials.{request_credential}
use grabber.Settings.Transport.{
  Crypto, TransportError, RoundTripper, nil_tripper, plain, env_proxied, round_tripper_for_host,
}

-- `Downloader`
pub record Downloader : Type 0 where
  pub ref : Bytes
  pub registry : Bytes

of_reference : Bytes → Bytes → Option Downloader
of_reference host repo =
    if is_empty host
    then none
    else if is_empty repo
    then none
    else some record { ref = host ++ codes "/" ++ repo; registry = host }

of_oci_url : (Url → Bytes) → Option Url → Option Downloader
unfolding of_reference
of_oci_url url_host none = none
of_oci_url url_host (some u) = of_reference (url_host u) (trim_prefix (codes "/") u.path)

-- `parseOCIURL`, with the parser of package url and the field `Host`; `none` for an error.
unfoldable pub parse_oci_url :
    (Bytes → Option Url) → (Url → Bytes) → Bytes → Bool → Option Downloader
unfolding of_oci_url
parse_oci_url parse_url url_host raw_url forced =
    if not forced && not (has_prefix (codes "oci://") raw_url)
    then none
    else if forced && contains (codes "://") raw_url && not (has_prefix (codes "oci://") raw_url)
    then none
    else of_oci_url url_host (parse_url (codes "https://" ++ trim_prefix (codes "oci://") raw_url))

before_tag : Bytes → Bytes
before_tag [] = []
before_tag (c ∷ s) = let rest = before_tag s in if c == b':' || c == b'@' then [] else c ∷ rest

-- `ociRepoPath`
unfoldable pub oci_repo_path : Bytes → Bytes → Bytes
unfolding before_tag
oci_repo_path ref registry = before_tag (trim_prefix (codes "/") (trim_prefix registry ref))

of_machine : Option Machine → Option (Bytes × Bytes)
of_machine none = none
of_machine (some m) =
    if not (is_empty m.login) || not (is_empty m.password) then some (m.login, m.password) else none

-- The request function, and netrc after it.
dynamic_credential :
    (Bytes → Option Machine) → Bool → Bytes → Option (Bytes × Bytes) → Option (Bytes × Bytes)
unfolding of_machine
dynamic_credential lookup netrc registry (some account) = some account
dynamic_credential lookup netrc registry none = if netrc then of_machine (lookup registry) else none

static_credential : Option OciCredential → Option (Bytes × Bytes) → Option (Bytes × Bytes)
static_credential none later = later
static_credential (some c) later =
    if not (is_empty c.username) || not (is_empty c.password)
    then some (c.username, c.password)
    else later

-- The credential of the registry, `none` if there is none. `lookup` is `netrc.Lookup`, with `none`
-- for an error.
unfoldable pub oci_credential :
    (Bytes → Option Machine) → Settings → Downloader → Option (Bytes × Bytes)
unfolding static_credential dynamic_credential
oci_credential lookup s d = static_credential (match_oci_credential s d.registry) (
    dynamic_credential lookup s.netrc d.registry
      (request_credential s (codes "oci") d.registry (oci_repo_path d.ref d.registry)))

-- `auth.Client`: its transport, which is nil for the default one, and its credential.
pub record AuthClient : Type 0 where
  pub base : RoundTripper
  pub credential : Option (Bytes × Bytes)

-- The client of the repository, `none` for the one that oras makes.
unfoldable pub client_for : RoundTripper → Option (Bytes × Bytes) → Option AuthClient
client_for nil_tripper none = none
client_for nil_tripper (some account) =
    some record { base = nil_tripper; credential = some account }
client_for (plain t) account = some record { base = plain t; credential = account }
client_for (env_proxied proxy own_tls g) account =
    some record { base = env_proxied proxy own_tls g; credential = account }

pub data OciError : Type 0 where
  bad_reference no_store pull_failed : OciError
  transport_failed : TransportError → OciError

pub record World : Type 0 where
  pub repository_ok : Bytes → Bool
  pub store_ok : Bytes → Bool
  -- `MediaTypeImageManifest` and `MediaTypeImageIndex`.
  pub manifest_type : Bytes
  pub index_type : Bytes
  -- `oras.Copy` of a reference with a client, over plain HTTP or not: the media type.
  pub copy : Option AuthClient → Bool → Bytes → Option Bytes
  -- The entries of a directory after the copy, with whether each is a directory.
  pub read_dir : Bytes → Option (List (Bytes × Bool))

is_empty_listing : Option (List (Bytes × Bool)) → Bool
is_empty_listing (some []) = true
is_empty_listing _ = false

-- `cleanupOrasMetadata`: the paths that are removed.
unfoldable pub cleanup_oras_metadata : World → Bytes → List Bytes
unfolding is_empty_listing
cleanup_oras_metadata w dir =
    let blobs_dir = join_path dir (codes "blobs") in
    join_path dir (codes "oci-layout")
    ∷ join_path dir (codes "index.json")
    ∷ (if is_empty_listing (w.read_dir blobs_dir) then blobs_dir ∷ [] else [])

is_one_file : Option (List (Bytes × Bool)) → Bool
is_one_file (some ((name, is_dir) ∷ [])) = not is_dir
is_one_file _ = false

-- Whether a single file was pulled.
unfoldable pub pulled_file : World → Bytes → Bytes → Bool
unfolding is_one_file
pulled_file w dir media_type =
    (not (text_eq media_type w.manifest_type) && not (text_eq media_type w.index_type))
    || is_one_file (w.read_dir dir)

-- Whether a file was fetched, with the paths that were removed.
abbrev pub Outcome : Type 0
Outcome = Result OciError (Bool × List Bytes)

pulled : World → Bytes → Option Bytes → Outcome
pulled w dir none = err pull_failed
pulled w dir (some media_type) = ok (pulled_file w dir media_type, cleanup_oras_metadata w dir)

pull : World → Bytes → Settings → Downloader → Option AuthClient → Outcome
unfolding pulled
pull w dir s d client =
    if not (w.store_ok dir)
    then err no_store
    else pulled w dir (w.copy client s.oci_plain_http d.ref)

with_transport :
    (Bytes → Option Machine)
    → World
    → Bytes
    → Settings
    → Downloader
    → Result TransportError RoundTripper
    → Outcome
unfolding pull
with_transport lookup w dir s d (err why) = err (transport_failed why)
with_transport lookup w dir s d (ok tripper) =
    pull w dir s d (client_for tripper (oci_credential lookup s d))

-- `Download`
unfoldable pub download_oci :
    Crypto
    → Option BaseTransport
    → (Bytes → Option Machine)
    → World
    → Bytes
    → Settings
    → Downloader
    → Outcome
unfolding with_transport
download_oci x default_transport lookup w dir s d =
    if not (w.repository_ok d.ref)
    then err bad_reference
    else with_transport lookup w dir s d (round_tripper_for_host x default_transport s d.registry)
