-- ===== src/Http.antt =====
-- protocols/http/http.go. Package url, `net/http`, the netrc lookup, the dialer of the probe and the
-- disk are parameters.
pub mod FileName
use grabber.Base.{
  ℕ, suc, ◌+◌, ◌-◌, Bool, true, false, not, ◌&&◌, ◌||◌, List, [], ◌∷◌, ◌++◌, Option, none, some,
  if◌then◌else◌, ltb, leb, Result, ok, err, ◌>>=◌, length, drop, any,
}
use grabber.Text.{Bytes, codes, text_eq, is_empty, has_prefix, contains}
use grabber.FilePath.{base, join_path, slash, dot}
use grabber.Limitio.{Source, CopyError, copy}
use grabber.Netrc.{Machine}
use grabber.Settings.Types.{Url, Settings, ProxyFunction, HttpsCredential}
use grabber.Settings.Credentials.{match_https_credential, request_credential}
use grabber.Settings.Network.{Dialer, ProbeError, probe_connect_for}
use grabber.Git.Url.{query_get, query_has}

-- Package url: `Parse`, the field `Host`, and `String` with the query's pairs encoded.
pub record UrlPackage : Type 0 where
  pub parse_url : Bytes → Option Url
  pub url_host : Url → Bytes
  pub url_string : Url → Bytes

-- `Downloader`
pub record Downloader : Type 0 where
  pub url : Bytes
  pub archive : Bytes

-- `q.Del(key)`
unfoldable pub query_del : Bytes → List (Bytes × Bytes) → List (Bytes × Bytes)
query_del key [] = []
query_del key ((k, v) ∷ q) =
    let rest = query_del key q in if text_eq k key then rest else (k, v) ∷ rest

without_archive : UrlPackage → Url → Downloader
without_archive pkg u =
    if query_has (codes "archive") u.query
    then record {
      url = pkg.url_string (record u { query = query_del (codes "archive") u.query });
      archive = query_get (codes "archive") u.query;
    }
    else record { url = pkg.url_string u; archive = [] }

http_url : UrlPackage → Option Url → Option Downloader
unfolding without_archive
http_url pkg none = none
http_url pkg (some u) =
    if not (text_eq u.scheme (codes "http")) && not (text_eq u.scheme (codes "https"))
    then none
    else if is_empty (pkg.url_host u)
    then none
    else some (without_archive pkg u)

-- `parseHTTPURL`; `none` for an error.
unfoldable pub parse_http_url : UrlPackage → Bytes → Option Downloader
unfolding http_url
parse_http_url pkg raw_url =
    if has_prefix (codes "/") raw_url
      || has_prefix (codes "./") raw_url
      || has_prefix (codes "../") raw_url
    then none
    else http_url pkg (
        pkg.parse_url
          (if not (contains (codes "://") raw_url) then codes "https://" ++ raw_url else raw_url))

abbrev pub max_file_name : ℕ
max_file_name = 255

-- The texts that `strconv.ParseBool` takes.
abbrev bool_texts : List Bytes
bool_texts =
    codes "1"
    ∷ codes "t"
    ∷ codes "T"
    ∷ codes "TRUE"
    ∷ codes "true"
    ∷ codes "True"
    ∷ codes "0"
    ∷ codes "f"
    ∷ codes "F"
    ∷ codes "FALSE"
    ∷ codes "false"
    ∷ codes "False"
    ∷ []

-- The name from a URL's path.
unfoldable pub name_of_path : Bytes → Bytes
name_of_path path =
    let name = base path in
    if is_empty name || text_eq name dot || text_eq name (slash ∷ [])
    then codes "download"
    else if ltb max_file_name (length name)
    then drop (length name - max_file_name) name
    else name

unfoldable pub name_of_url : Option Url → Bytes
unfolding name_of_path
name_of_url none = codes "download"
name_of_url (some u) = name_of_path u.path

-- `fileName`
unfoldable pub file_name : UrlPackage → Downloader → Bytes
unfolding name_of_url
file_name pkg d =
    if not (is_empty d.archive)
    then if any (λ t. text_eq t d.archive) bool_texts
      then codes "download"
      else codes "archive." ++ d.archive
    else name_of_url (pkg.parse_url d.url)

-- `httpPort`
unfoldable pub http_port : Url → Bytes
http_port u =
    if not (is_empty u.port)
    then u.port
    else if text_eq u.scheme (codes "https")
    then codes "443"
    else codes "80"

-- A netrc machine with a login.
netrc_auth : Result (Unit {0}) (Option Machine) → Option (Bytes × Bytes)
netrc_auth (ok (some m)) = if not (is_empty m.login) then some (m.login, m.password) else none
netrc_auth _ = none

or_netrc :
    (Bytes → Result (Unit {0}) (Option Machine))
    → Settings
    → Url
    → Option (Bytes × Bytes)
    → Option (Bytes × Bytes)
unfolding netrc_auth
or_netrc lookup s u (some found) = some found
or_netrc lookup s u none = if s.netrc then netrc_auth (lookup u.hostname) else none

or_requested :
    (Bytes → Result (Unit {0}) (Option Machine))
    → Settings
    → Url
    → Option HttpsCredential
    → Option (Bytes × Bytes)
unfolding or_netrc
or_requested lookup s u (some cred) = some (cred.username, cred.password)
or_requested lookup s u none = or_netrc lookup s u (request_credential s u.scheme u.hostname u.path)

-- What `Download` sets by `SetBasicAuth`; user information in the URL is left to net/http.
unfoldable pub http_auth :
    UrlPackage
    → (Bytes → Result (Unit {0}) (Option Machine))
    → Settings
    → Bytes
    → Url
    → Option (Bytes × Bytes)
unfolding or_requested
http_auth pkg lookup s url u = elim u.user [
  | some user ↦ none
  | none ↦ or_requested lookup s u (match_https_credential pkg.parse_url s url)
]

pub data HttpError : Type 0 where
  bad_request bad_transport not_sent not_created : HttpError
  unreachable_host : ProbeError → HttpError
  bad_status : ℕ → HttpError
  copy_error : CopyError → HttpError

pub record Response : Type 0 where
  pub status : ℕ
  pub body : Source

-- The world of a download: the settings' transport, the dialer, the server and the disk.
pub record World : Type 0 where
  pub netrc_lookup : Bytes → Result (Unit {0}) (Option Machine)
  pub default_proxy : Option ProxyFunction
  pub dialer : Dialer
  pub transport_ok : Bytes → Bool
  pub send : Url → Option (Bytes × Bytes) → Option Response
  pub create_ok : Bytes → Bool

unfoldable pub written : Bytes → ℕ × Option CopyError → Result HttpError (Bytes × ℕ)
written dst (n, none) = ok (dst, n)
written dst (n, some why) = err (copy_error why)

unfoldable pub receive : World → Settings → Bytes → Option Response → Result HttpError (Bytes × ℕ)
unfolding written
receive w s dst none = err not_sent
receive w s dst (some r) =
    if ltb r.status 200 || leb 300 r.status
    then err (bad_status r.status)
    else if not (w.create_ok dst)
    then err not_created
    else written dst (copy r.body s.max_bytes)

probed : Result ProbeError (Unit {0}) → Result HttpError (Unit {0})
probed (ok _) = ok tt
probed (err why) = err (unreachable_host why)

request :
    UrlPackage → World → Settings → Downloader → Bytes → Option Url → Result HttpError (Bytes × ℕ)
unfolding receive probed
request pkg w s d tmp_dir none = err bad_request
request pkg w s d tmp_dir (some u) =
    probed (probe_connect_for w.default_proxy w.dialer s u.scheme u.hostname (http_port u)) >>= λ _.
    if not (w.transport_ok u.hostname)
    then err bad_transport
    else receive w s (join_path tmp_dir (file_name pkg d))
        (w.send u (http_auth pkg w.netrc_lookup s d.url u))

-- `Download`: the file that is written, with its size.
unfoldable pub download_http :
    UrlPackage → World → Settings → Downloader → Bytes → Result HttpError (Bytes × ℕ)
unfolding request
download_http pkg w s d tmp_dir = request pkg w s d tmp_dir (pkg.parse_url d.url)
