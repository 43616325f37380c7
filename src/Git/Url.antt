-- ===== src/Git/Url.antt =====
-- Reading a Git URL: protocols/git/git.go from `scpPattern` to `parseDepth`. `url.Parse` is the
-- parameter `parse_url`, and `url.ParseQuery` is `parse_query`.
pub mod Subdir
use grabber.Base.{
  ℕ, suc, ◌^◌, Bool, true, false, not, ◌&&◌, ◌||◌, List, [], ◌∷◌, ◌++◌, Option, none, some,
  if◌then◌else◌, ◌==◌, leb, ltb, any,
}
use grabber.Text.{
  Bytes, codes, text_eq, is_empty, cut, contains, split, trim, trim_prefix, has_suffix, to_lower,
}
use grabber.FilePath.{clean}
use grabber.Net.Parse.{decimal_from}
use grabber.Settings.Types.{Url}

unfoldable pub is_word : ℕ → Bool
is_word c =
    (leb b'a' c && leb c b'z')
    || (leb b'A' c && leb c b'Z')
    || (leb b'0' c && leb c b'9')
    || c == b'_'

unfoldable pub is_host_char : ℕ → Bool
is_host_char c = is_word c || c == b'.' || c == b'-'

-- The rest of the host of an SCP-style URL, up to the colon; the flag is whether it has a byte.
scp_host : Bool → Bytes → Bool
scp_host some_read [] = false
scp_host some_read (c ∷ s) = if c == b':' then some_read else is_host_char c && scp_host true s

scp_user : Bool → Bytes → Bool
unfolding scp_host
scp_user some_read [] = false
scp_user some_read (c ∷ s) =
    let more = scp_user true s in
    if c == b'@' then some_read && scp_host false s else is_word c && more

-- `scpPattern.MatchString`: ^(?:[a-zA-Z0-9_]+)@[a-zA-Z0-9._-]+:
unfoldable pub scp_pattern : Bytes → Bool
unfolding scp_user
scp_pattern s = scp_user false s

subdir_of : Bytes → Option (Bytes × Bytes) → Bytes × Bytes
subdir_of path none = (path, [])
subdir_of path (some (repo, rest)) = (repo, trim_prefix (codes "/") rest)

-- `splitSubdir`: the repository's path and the subdirectory.
unfoldable pub split_subdir : Bytes → Bytes × Bytes
unfolding subdir_of
split_subdir path = subdir_of path (cut (codes "//") path)

-- `resolveSubdir`
unfoldable pub resolve_subdir : Bytes → Bytes → Bytes
resolve_subdir path_subdir query_subdir =
    let chosen = if is_empty path_subdir then query_subdir else path_subdir in
    trim b'/' (clean (b'/' ∷ chosen))

-- `strconv.Atoi` of a text with no sign, and with one: 0 where `parseDepth` gives 0.
atoi : Option ℕ → ℕ
atoi none = 0
atoi (some n) = if ltb n (2 ^ 63) then n else 0

digits_of : Bytes → ℕ
unfolding atoi
digits_of [] = 0
digits_of (c ∷ s) = atoi (decimal_from 0 (c ∷ s))

-- `parseDepth`: a number that is not negative, else 0.
unfoldable pub parse_depth : Bytes → ℕ
unfolding digits_of
parse_depth [] = 0
parse_depth (c ∷ s) = if c == b'+' then digits_of s else digits_of (c ∷ s)

-- `Downloader`
pub record Downloader : Type 0 where
  pub repo_url : Bytes
  pub subdir : Bytes
  pub ref : Bytes
  pub depth : ℕ

-- The first value of a key in a query, empty if there is none.
unfoldable pub query_get : Bytes → List (Bytes × Bytes) → Bytes
query_get key [] = []
query_get key ((k, v) ∷ q) = if text_eq k key then v else query_get key q

unfoldable pub query_has : Bytes → List (Bytes × Bytes) → Bool
query_has key [] = false
query_has key ((k, v) ∷ q) = text_eq k key || query_has key q

abbrev pub known_git_hosts : List Bytes
known_git_hosts =
    codes "github.com"
    ∷ codes "gitlab.com"
    ∷ codes "bitbucket.org"
    ∷ codes "codeberg.org"
    ∷ codes "dev.azure.com"
    ∷ codes "sr.ht"
    ∷ []

abbrev pub reserved_host_paths : List Bytes
reserved_host_paths = codes "api" ∷ []

abbrev pub gitlab_legacy_routes : List Bytes
gitlab_legacy_routes =
    codes "raw" ∷ codes "blob" ∷ codes "tree" ∷ codes "archive" ∷ codes "releases" ∷ []

unfoldable pub is_in : List Bytes → Bytes → Bool
is_in names name = any (λ n. text_eq n name) names

-- The loop over the segments of a GitLab path, with their index.
unfoldable pub is_gitlab_route : ℕ → List Bytes → Bool
is_gitlab_route i [] = false
is_gitlab_route i (seg ∷ segs) =
    text_eq seg (codes "-")
    || (leb 2 i && is_in gitlab_legacy_routes seg)
    || is_gitlab_route (suc i) segs

unfoldable pub is_flat_host : Bytes → Bool
is_flat_host host =
    text_eq host (codes "github.com")
    || text_eq host (codes "bitbucket.org")
    || text_eq host (codes "codeberg.org")

abbrev is_empty_list : List Bytes → Bool
is_empty_list [] = true
is_empty_list (w ∷ ws) = false

-- `isRepoPath` on the segments of the repository's path.
unfoldable pub is_repo_segments : Bytes → List Bytes → Bool
is_repo_segments host [] = false
is_repo_segments host (s ∷ []) = false
is_repo_segments host (s ∷ t ∷ segs) =
    if is_in reserved_host_paths (to_lower s)
    then false
    else if is_flat_host host
    then is_empty_list segs
    else if text_eq host (codes "gitlab.com")
    then not (is_gitlab_route 0 (s ∷ t ∷ segs))
    else true

-- `isRepoPath`
unfoldable pub is_repo_path : Bytes → Bytes → Bool
is_repo_path host p = is_repo_segments host (split b'/' (trim b'/' (split_subdir p).0))

-- `isGitURL`
unfoldable pub is_git_url : Url → Bool
is_git_url u =
    if text_eq u.scheme (codes "ssh")
    then true
    else if query_has (codes "archive") u.query
    then false
    else if has_suffix (codes ".git") u.path || contains (codes ".git//") u.path
    then true
    else let host = to_lower u.hostname in is_in known_git_hosts host && is_repo_path host u.path

-- `URL.String` of the URL with this path and no query and fragment is a parameter too.
pub record UrlPackage : Type 0 where
  pub parse_url : Bytes → Option Url
  pub parse_query : Bytes → Option (List (Bytes × Bytes))
  pub url_string : Url → Bytes

with_params : Bytes → Bytes → List (Bytes × Bytes) → Downloader
with_params repo_url subdir q = record {
  repo_url = repo_url;
  ref = query_get (codes "ref") q;
  subdir = resolve_subdir subdir (query_get (codes "subdir") q);
  depth = parse_depth (query_get (codes "depth") q);
}

scp_query : UrlPackage → Bytes → Bytes → Option Downloader
unfolding with_params
scp_query pkg raw_url query_str =
    let (repo_url, subdir) = split_subdir raw_url in
    if is_empty query_str
    then some (with_params repo_url subdir [])
    else (elim (pkg.parse_query query_str) [
      | none ↦ none
      | some q ↦ some (with_params repo_url subdir q)
    ])

scp_parts : UrlPackage → Bytes → Option (Bytes × Bytes) → Option Downloader
unfolding scp_query
scp_parts pkg raw_url none = scp_query pkg raw_url []
scp_parts pkg raw_url (some (before, query_str)) = scp_query pkg before query_str

-- `parseSCPURL`
unfoldable pub parse_scp_url : UrlPackage → Bytes → Option Downloader
unfolding scp_parts
parse_scp_url pkg raw_url = scp_parts pkg raw_url (cut (codes "?") raw_url)

of_url : UrlPackage → Bool → Option Url → Option Downloader
unfolding with_params
of_url pkg forced none = none
of_url pkg forced (some u) =
    if not forced && not (is_git_url u)
    then none
    else let (repo_path, subdir) = split_subdir u.path in
      some (with_params (pkg.url_string (record u { path = repo_path; query = [] })) subdir u.query)

-- `parseGitURL`; `none` for an error.
unfoldable pub parse_git_url : UrlPackage → Bool → Bytes → Option Downloader
unfolding of_url
parse_git_url pkg forced raw_url =
    if scp_pattern raw_url
    then parse_scp_url pkg raw_url
    else let full =
        if not (contains (codes "://") raw_url) then codes "https://" ++ raw_url else raw_url in
      of_url pkg forced (pkg.parse_url full)
