-- ===== src/Git/Scheme.antt =====
-- From SSH to HTTPS and back, and the hosts of Git URLs, in protocols/git/git.go.
use grabber.Base.{Bool, not, ◌&&◌, ◌||◌, List, [], ◌∷◌, ◌++◌, Option, none, some, if◌then◌else◌}
use grabber.Text.{Bytes, codes, text_eq, is_empty, cut, has_prefix, split, trim_prefix, trim_suffix}
use grabber.Settings.Types.{Url, Settings}
use grabber.Settings.Match.{match_ssh_key}
use grabber.Git.Url.{scp_pattern, UrlPackage}

abbrev host_of_url : Option Url → Bytes
host_of_url none = []
host_of_url (some u) = u.hostname

-- The host and the path of an SCP-style URL, user@host:path.
scp_rest : Option (Bytes × Bytes) → Bytes × Bytes
scp_rest none = ([], [])
scp_rest (some (host, path)) = (host, path)

scp_after_user : Option (Bytes × Bytes) → Bytes × Bytes
unfolding scp_rest
scp_after_user none = ([], [])
scp_after_user (some (user, rest)) = scp_rest (cut (codes ":") rest)

unfoldable pub scp_parts : Bytes → Bytes × Bytes
unfolding scp_after_user
scp_parts raw_url = scp_after_user (cut (codes "@") raw_url)

-- `sshHost`
unfoldable pub ssh_host : UrlPackage → Bytes → Bytes
ssh_host pkg raw_url =
    if scp_pattern raw_url then (scp_parts raw_url).0 else host_of_url (pkg.parse_url raw_url)

-- `gitURLHost`
unfoldable pub git_url_host : UrlPackage → Bytes → Bytes
git_url_host pkg raw_url =
    if has_prefix (codes "ssh://") raw_url || scp_pattern raw_url
    then ssh_host pkg raw_url
    else host_of_url (pkg.parse_url raw_url)

unfoldable pub is_http_scheme : Bytes → Bool
is_http_scheme scheme = text_eq scheme (codes "https") || text_eq scheme (codes "http")

http_only : Option Url → Option Url
http_only none = none
http_only (some u) = if is_http_scheme u.scheme then some u else none

-- `httpRemoteURL`
unfoldable pub http_remote_url : UrlPackage → Bytes → Option Url
unfolding http_only
http_remote_url pkg repo_url =
    if scp_pattern repo_url then none else http_only (pkg.parse_url repo_url)

abbrev scheme_of : Option Url → Bytes
scheme_of none = []
scheme_of (some u) = u.scheme

-- `gitURLScheme`
unfoldable pub git_url_scheme : UrlPackage → Bytes → Bytes
git_url_scheme pkg raw_url = scheme_of (http_remote_url pkg raw_url)

default_port : Bytes → Bytes → Bytes
default_port scheme port =
    if not (is_empty port)
    then port
    else if text_eq scheme (codes "ssh")
    then codes "22"
    else if text_eq scheme (codes "https")
    then codes "443"
    else if text_eq scheme (codes "http")
    then codes "80"
    else []

url_host_port : Option Url → Bytes × Bytes
unfolding default_port
url_host_port none = ([], [])
url_host_port (some u) =
    if is_empty u.hostname then ([], []) else (u.hostname, default_port u.scheme u.port)

-- `gitHostPort`
unfoldable pub git_host_port : UrlPackage → Bytes → Bytes × Bytes
unfolding url_host_port
git_host_port pkg raw_url =
    if scp_pattern raw_url
    then (ssh_host pkg raw_url, codes "22")
    else url_host_port (pkg.parse_url raw_url)

-- `azureDevOpsHTTPS`; `none` for "".
azure_parts : UrlPackage → Url → List Bytes → Option Bytes
azure_parts pkg u (v3 ∷ org ∷ project ∷ repo ∷ more) =
    if not (text_eq v3 (codes "v3"))
    then none
    else some (
        pkg.url_string (record u {
          hostname = codes "dev.azure.com";
          port = [];
          path = codes "/" ++ org ++ codes "/" ++ project ++ codes "/_git/" ++ repo;
        }))
azure_parts pkg u parts = none

azure_url : UrlPackage → Option Url → Option Bytes
unfolding azure_parts
azure_url pkg none = none
azure_url pkg (some u) =
    if not (text_eq u.hostname (codes "ssh.dev.azure.com"))
    then none
    else azure_parts pkg u (split b'/' (trim_prefix (codes "/") u.path))

unfoldable pub azure_devops_https : UrlPackage → Bytes → Option Bytes
unfolding azure_url
azure_devops_https pkg raw_url = azure_url pkg (pkg.parse_url raw_url)

or_keep : Bytes → Option Bytes → Bytes
or_keep https none = https
or_keep https (some azure) = azure

rewritten : UrlPackage → Bytes → Bytes
unfolding or_keep
rewritten pkg https = or_keep https (azure_devops_https pkg https)

swapped : UrlPackage → Bytes → Option Url → Bytes
unfolding rewritten
swapped pkg raw_url none = raw_url
swapped pkg raw_url (some u) =
    rewritten pkg (pkg.url_string (record u { scheme = codes "https"; user = none }))

-- `sshToHTTPS`
unfoldable pub ssh_to_https : UrlPackage → Bytes → Bytes
unfolding rewritten swapped
ssh_to_https pkg raw_url =
    if scp_pattern raw_url
    then (let (host, path) = scp_parts raw_url in
        rewritten pkg (codes "https://" ++ host ++ codes "/" ++ path))
    else if has_prefix (codes "ssh://") raw_url
    then swapped pkg raw_url (pkg.parse_url raw_url)
    else raw_url

azure_ssh : List Bytes → Bytes
azure_ssh (org ∷ project ∷ git ∷ repo ∷ more) =
    if text_eq git (codes "_git")
    then codes "ssh://git@ssh.dev.azure.com/v3/" ++ org ++ codes "/" ++ project ++ codes "/" ++ repo
    else []
azure_ssh parts = []

https_host : Bytes → Bytes → Bytes
https_host host path =
    if is_empty path then [] else codes "ssh://git@" ++ host ++ codes "/" ++ path ++ codes ".git"

of_https : Option Url → Bytes
unfolding azure_ssh https_host
of_https none = []
of_https (some u) =
    let path = trim_prefix (codes "/") u.path in
    if is_empty u.hostname
    then []
    else if text_eq u.hostname (codes "dev.azure.com")
    then azure_ssh (split b'/' path)
    else https_host u.hostname (trim_suffix (codes ".git") path)

-- `httpsToSSH`; empty where the URL cannot be converted.
unfoldable pub https_to_ssh : UrlPackage → Bytes → Bytes
unfolding of_https
https_to_ssh pkg raw_url = of_https (pkg.parse_url raw_url)

ssh_fallback : UrlPackage → Settings → Bytes → Option Url → List Bytes
ssh_fallback pkg s orig none = orig ∷ []
ssh_fallback pkg s orig (some u) =
    if is_http_scheme u.scheme
      && not (is_empty (match_ssh_key s u.hostname))
      && not (is_empty (https_to_ssh pkg orig))
    then orig ∷ https_to_ssh pkg orig ∷ []
    else orig ∷ []

-- `cloneCandidates`
unfoldable pub clone_candidates : UrlPackage → Settings → Bytes → List Bytes
unfolding ssh_fallback
clone_candidates pkg s orig =
    if s.git.ssh_to_https
    then ssh_to_https pkg orig ∷ []
    else if has_prefix (codes "ssh://") orig || scp_pattern orig
    then (if not (text_eq (ssh_to_https pkg orig) orig)
        then orig ∷ ssh_to_https pkg orig ∷ []
        else orig ∷ [])
    else ssh_fallback pkg s orig (pkg.parse_url orig)
