-- ===== src/Settings/Credentials.antt =====
-- `MatchHTTPSCredentials` of settings/settings.go and what it calls.
pub mod Order
pub mod Scope
use grabber.Base.{
  ℕ, zero, suc, Bool, true, false, not, ◌&&◌, ◌||◌, List, [], ◌∷◌, ◌++◌, map, Option, none, some,
  if◌then◌else◌, ◌==◌, leb, ltb, length, take, drop,
}
use grabber.Text.{Bytes, codes, is_empty, equal_fold, trim_suffix}
use grabber.Settings.Types.{Url, HttpsCredential, Settings, CredentialRequest}

-- `hasPrefixFold`
unfoldable pub has_prefix_fold : Bytes → Bytes → Bool
has_prefix_fold s p = leb (length p) (length s) && equal_fold (take (length p) s) p

unfoldable pub starts_slash : Bytes → Bool
starts_slash [] = false
starts_slash (c ∷ s) = c == b'/'

-- `hasSegmentPrefixFold`
unfoldable pub has_segment_prefix_fold : Bytes → Bytes → Bool
has_segment_prefix_fold s p =
    if not (has_prefix_fold s p)
    then false
    else length s == length p || starts_slash (drop (length p) s)

-- The path length of a match: 0 stands for -1, a credential with no path, and n + 1 for n.
abbrev pub Match : Type 0
Match = HttpsCredential × ℕ

user_name : Option (Bytes × Option Bytes) → Bytes
user_name none = []
user_name (some (name, password)) = name

unfoldable pub url_user : Url → Bytes
unfolding user_name
url_user u = user_name u.user

-- The path of the request as it is compared: without a trailing slash and a ".git" suffix.
unfoldable pub url_path : Url → Bytes
url_path u = trim_suffix (codes ".git") (trim_suffix (codes "/") u.path)

unfoldable pub cred_path : HttpsCredential → Bytes
cred_path c = trim_suffix (codes "/") c.path

unfoldable pub path_match : Url → HttpsCredential → Option Match
path_match u c =
    if is_empty c.path
    then some (c, 0)
    else if not (has_segment_prefix_fold (url_path u) (cred_path c))
    then none
    else some (c, suc (length (cred_path c)))

-- One round of the loop: whether the credential matches, and how specifically.
unfoldable pub match_one : Url → HttpsCredential → Option Match
match_one u c =
    if not (equal_fold c.host u.hostname)
    then none
    else if not (is_empty (url_user u)) && not (equal_fold c.username (url_user u))
    then none
    else path_match u c

unfoldable pub add_match : Option Match → List Match → List Match
add_match none ms = ms
add_match (some m) ms = m ∷ ms

unfoldable pub matches : Url → List HttpsCredential → List Match
matches u [] = []
matches u (c ∷ cs) = add_match (match_one u c) (matches u cs)

-- `slices.SortStableFunc` by falling path length, as insertion that keeps equal elements in order.
unfoldable pub insert_match : Match → List Match → List Match
insert_match m [] = m ∷ []
insert_match m (n ∷ ms) =
    let rest = insert_match m ms in if leb n.1 m.1 then m ∷ n ∷ ms else n ∷ rest

unfoldable pub sort_matches : List Match → List Match
sort_matches [] = []
sort_matches (m ∷ ms) = insert_match m (sort_matches ms)

creds_of : Settings → Option Url → List HttpsCredential
creds_of s none = []
creds_of s (some u) = map (λ m. m.0) (sort_matches (matches u s.https_credentials))

-- `MatchHTTPSCredentials`, with `url.Parse` as `parse_url`.
unfoldable pub match_https_credentials :
    (Bytes → Option Url) → Settings → Bytes → List HttpsCredential
unfolding creds_of
match_https_credentials parse_url s raw_url = creds_of s (parse_url raw_url)

head? : List HttpsCredential → Option HttpsCredential
head? [] = none
head? (c ∷ cs) = some c

-- `MatchHTTPSCredential`
unfoldable pub match_https_credential :
    (Bytes → Option Url) → Settings → Bytes → Option HttpsCredential
unfolding head?
match_https_credential parse_url s raw_url = head? (match_https_credentials parse_url s raw_url)

abbrev or_empty : Option Bytes → Bytes
or_empty none = []
or_empty (some v) = v

granted : Option (Option Bytes × Option Bytes) → Option (Bytes × Bytes)
granted none = none
granted (some (u, p)) = some (or_empty u, or_empty p)

ask : Option CredentialRequest → Bytes → Bytes → Bytes → Option (Bytes × Bytes)
unfolding granted
ask none protocol host path = none
ask (some request) protocol host path = granted (request protocol host path)

-- `RequestCredential`: `none` for ok == false.
unfoldable pub request_credential : Settings → Bytes → Bytes → Bytes → Option (Bytes × Bytes)
unfolding ask
request_credential s protocol host path = ask s.http_credential_request protocol host path
