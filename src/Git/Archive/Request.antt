-- ===== src/Git/Archive/Request.antt =====
-- The request for an archive: `fetchArchive`, `archiveCredentials`, `archiveURL`, `tokenFromEnv`
-- and `parseOwnerRepo` of protocols/git/git_archive.go. What the platform answers is a parameter,
-- and so is the transport; `archiveURLOverride` is left empty, as it is outside tests.
use grabber.Base.{
  ℕ, Bool, not, ◌&&◌, ◌||◌, List, [], ◌∷◌, ◌++◌, Option, none, some, if◌then◌else◌, ◌==◌, Result,
  ok, err,
}
use grabber.Text.{
  Bytes, codes, text_eq, is_empty, has_suffix, trim_prefix, trim_suffix, split, to_lower,
}
use grabber.Settings.Types.{Url, Settings}
use grabber.Settings.Credentials.{match_https_credential, request_credential}
use grabber.Extract.Engine.{Disk}
use grabber.Git.Url.{UrlPackage}
use grabber.Git.Scheme.{is_http_scheme, ssh_to_https}
use grabber.Git.Auth.{System}
use grabber.Git.Archive.{ArchiveNext, ArchiveError, Walked, extract_archive}

owner_and_repo : List Bytes → Option (Bytes × Bytes)
owner_and_repo (owner ∷ repo ∷ rest) =
    if is_empty owner || is_empty repo then none else some (owner, repo)
owner_and_repo _ = none

-- `parseOwnerRepo`; `none` for the error.
unfoldable pub parse_owner_repo : Bytes → Option (Bytes × Bytes)
unfolding owner_and_repo
parse_owner_repo raw_path =
    owner_and_repo (split b'/' (trim_suffix (codes ".git") (trim_prefix (codes "/") raw_path)))

-- `host == domain || strings.HasSuffix(host, "."+domain)`
unfoldable pub is_of_domain : Bytes → Bytes → Bool
is_of_domain domain host = text_eq host domain || has_suffix (codes "." ++ domain) host

pub data Platform : Type 0 where
  github gitlab bitbucket : Platform

-- The cases of the `switch` in `archiveURL` and `tokenFromEnv`.
unfoldable pub platform_of : Bytes → Option Platform
platform_of hostname =
    let host = to_lower hostname in
    if is_of_domain (codes "github.com") host
    then some github
    else if is_of_domain (codes "gitlab.com") host
    then some gitlab
    else if is_of_domain (codes "bitbucket.org") host
    then some bitbucket
    else none

unfoldable pub platform_url : Platform → Bytes → Bytes → Bytes → Bytes
platform_url github owner repo ref =
    codes "https://api.github.com/repos/" ++ owner ++ codes "/" ++ repo ++ codes "/tarball/" ++ ref
platform_url gitlab owner repo ref =
    codes "https://gitlab.com/api/v4/projects/"
    ++ owner
    ++ codes "%2F"
    ++ repo
    ++ codes "/repository/archive.tar.gz?sha="
    ++ ref
platform_url bitbucket owner repo ref =
    codes "https://bitbucket.org/"
    ++ owner
    ++ codes "/"
    ++ repo
    ++ codes "/get/"
    ++ ref
    ++ codes ".tar.gz"

-- `archiveURL`; `none` for an error.
unfoldable pub archive_url : Url → Bytes → Option Bytes
archive_url u ref = elim (parse_owner_repo u.path) [
  | none ↦ none
  | some (owner, repo) ↦ elim (platform_of u.hostname) [
    | none ↦ none
    | some p ↦ some (platform_url p owner repo ref)
  ]
]

abbrev or_second : Bytes → Bytes → Bytes
or_second a b = if not (is_empty a) then a else b

-- `tokenFromEnv`, with `os.Getenv` as `getenv`.
unfoldable pub token_from_env : (Bytes → Bytes) → Bytes → Bytes
token_from_env getenv hostname = elim (platform_of hostname) [
  | some github ↦ or_second (getenv (codes "GH_TOKEN")) (getenv (codes "GITHUB_TOKEN"))
  | some gitlab ↦ or_second (getenv (codes "GITLAB_TOKEN")) (getenv (codes "GL_TOKEN"))
  | some bitbucket ↦ getenv (codes "BITBUCKET_TOKEN")
  | none ↦ []
]

-- A user name that is not the placeholder "git", with its password.
unfoldable pub archive_user : Url → Bytes × Option Bytes
archive_user u = elim u.user [
  | none ↦ ([], none)
  | some (name, password) ↦
      if is_empty name || text_eq name (codes "git") then ([], none) else (name, password)
]

abbrev pub username_only : Bytes → Option (Bytes × Bytes)
username_only user = if not (is_empty user) then some (user, []) else none

-- The sources after the URL's own password.
unfoldable pub helper_or_username : System → Settings → Url → Bytes → Option (Bytes × Bytes)
helper_or_username sys s u user =
    elim (if not s.no_system_fallback && is_http_scheme u.scheme
      then sys.helper u.scheme u.hostname user
      else none) [ some found ↦ some found | none ↦ username_only user ]

unfoldable pub requested_or : System → Settings → Url → Bytes → Option (Bytes × Bytes)
unfolding helper_or_username
requested_or sys s u user = elim (request_credential s u.scheme u.hostname u.path) [
  | some found ↦ some found
  | none ↦ helper_or_username sys s u user
]

unfoldable pub configured_or :
    UrlPackage → System → Settings → Url → Bytes × Option Bytes → Option (Bytes × Bytes)
unfolding requested_or
configured_or pkg sys s u (user, some password) = some (user, password)
configured_or pkg sys s u (user, none) =
    elim (match_https_credential pkg.parse_url s (pkg.url_string u)) [
      | some cred ↦ some (cred.username, cred.password)
      | none ↦ requested_or sys s u user
    ]

-- `archiveCredentials`
unfoldable pub archive_credentials : UrlPackage → System → Settings → Url → Option (Bytes × Bytes)
unfolding configured_or
archive_credentials pkg sys s u = configured_or pkg sys s u (archive_user u)

pub data Authorization : Type 0 where
  unauthenticated : Authorization
  basic_auth : Bytes → Bytes → Authorization
  bearer : Bytes → Authorization

abbrev pub with_token : Bytes → Authorization
with_token token = if not (is_empty token) then bearer token else unauthenticated

unfoldable pub authorize : System → Settings → Url → Option (Bytes × Bytes) → Authorization
authorize sys s u (some (user, password)) = basic_auth user password
authorize sys s u none =
    if not s.no_system_fallback
    then with_token (token_from_env sys.getenv u.hostname)
    else unauthenticated

-- How `fetchArchive` authorizes the request.
unfoldable pub archive_authorization : UrlPackage → System → Settings → Url → Authorization
unfolding authorize
archive_authorization pkg sys s u = authorize sys s u (archive_credentials pkg sys s u)

pub data FetchError : Type 0 where
  bad_url no_archive_url bad_transport not_sent bad_gzip : FetchError
  bad_status : ℕ → FetchError
  not_extracted : ArchiveError → FetchError

-- What the platform answers: the status, and the entries unless `gzip.NewReader` fails.
pub record Response : Type 0 where
  pub status : ℕ
  pub entries : Option (List ArchiveNext)

module _ (pkg : UrlPackage) (disk : Disk) (transport_ok : Bytes → Bool)
    (send : Bytes → Authorization → Option Response) where
  unfoldable pub extracted : Walked → Result FetchError Walked
  extracted (w, none) = ok (w, none)
  extracted (w, some why) = err (not_extracted why)

  read_archive : Bytes → Bytes → Settings → Option Response → Result FetchError Walked
  unfolding extracted
  read_archive dst subdir s none = err not_sent
  read_archive dst subdir s (some r) =
      if not (r.status == 200) then err (bad_status r.status) else (elim r.entries [
        | none ↦ err bad_gzip
        | some entries ↦ extracted (extract_archive disk dst subdir s.max_bytes entries)
      ])

  url_host : Option Url → Bytes
  url_host none = []
  url_host (some u) = u.hostname

  fetch_from : System → Settings → Url → Bytes → Bytes → Option Bytes → Result FetchError Walked
  unfolding read_archive url_host
  fetch_from sys s u dst subdir none = err no_archive_url
  fetch_from sys s u dst subdir (some url) =
      if not (transport_ok (url_host (pkg.parse_url url)))
      then err bad_transport
      else read_archive dst subdir s (send url (archive_authorization pkg sys s u))

  -- `fetchArchive`
  unfoldable pub fetch_archive :
      System → Settings → Bytes → Bytes → Bytes → Bytes → Result FetchError Walked
  unfolding fetch_from
  fetch_archive sys s repo_url ref subdir dst = elim (pkg.parse_url (ssh_to_https pkg repo_url)) [
    | none ↦ err bad_url
    | some u ↦ fetch_from sys s u dst subdir (archive_url u ref)
  ]
