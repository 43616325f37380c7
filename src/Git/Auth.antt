-- ===== src/Git/Auth.antt =====
-- The credentials of a clone: protocols/git/git.go from `credentialFillFunc` to
-- `gitCredentialFill`. The user's own system (the credential helper, the SSH agent and the
-- environment), the key parsers of x/crypto/ssh and the URL parser are parameters.
pub mod KnownHosts
pub mod Recorded
pub mod Helper
pub mod Chain
pub mod Policy
use grabber.Base.{
  ℕ, Bool, true, false, not, ◌&&◌, ◌||◌, List, [], ◌∷◌, ◌++◌, map, Option, none, some,
  if◌then◌else◌, Result, ok, err,
}
use grabber.Text.{Bytes, codes, is_empty, has_prefix}
use grabber.Settings.Types.{Url, Settings, HttpsCredential}
use grabber.Settings.Credentials.{match_https_credentials, request_credential}
use grabber.Settings.Match.{match_ssh_keys}
use grabber.Git.Url.{scp_pattern, UrlPackage}
use grabber.Git.Scheme.{ssh_host, is_http_scheme}
use grabber.Git.Download.{Offer, offers, declines, resolve_fails}
use grabber.Git.Auth.KnownHosts.{KnownNext, HostKeys, known_hosts_callback}

-- What belongs to the user's system. `helper` is `credentialFillFunc`; `agent` is what
-- `NewSSHAgentAuth` gives, and then its callback, each `none` for an error.
pub record System : Type 0 where
  pub helper : Bytes → Bytes → Bytes → Option (Bytes × Bytes)
  pub agent : Option (Option (List Bytes))
  pub getenv : Bytes → Bytes

-- x/crypto/ssh: whether `ParsePrivateKey` takes a key, and what `ParseKnownHosts` finds.
pub record SshPackage : Type 0 where
  pub parses_key : Bytes → Bool
  pub known_lines : Bytes → List KnownNext

pub data HostKeyPolicy : Type 0 where
  accept_any : HostKeyPolicy
  verify : HostKeys → HostKeyPolicy
  -- A nil callback, for which go-git reads the user's known_hosts.
  go_git_default : HostKeyPolicy

-- `ssh.PublicKeysCallback`: the configured keys, the agent's callback and the host key callback.
pub record PublicKeys : Type 0 where
  pub static_signers : List Bytes
  pub agent_signers : Option (Option (List Bytes))
  pub host_key : HostKeyPolicy

pub data Auth : Type 0 where
  basic : Bytes → Bytes → Auth
  public_keys : PublicKeys → Auth

unfoldable pub verifying : Result (Unit {0}) HostKeys → Result (Unit {0}) HostKeyPolicy
verifying (err why) = err why
verifying (ok keys) = ok (verify keys)

-- `sshHostKeyCallback`
unfoldable pub ssh_host_key_callback : SshPackage → Settings → Result (Unit {0}) HostKeyPolicy
unfolding verifying
ssh_host_key_callback ssh s =
    if s.git.insecure_skip_host_key_verify
    then ok accept_any
    else if not (is_empty s.git.known_hosts)
    then verifying (known_hosts_callback (ssh.known_lines s.git.known_hosts))
    else if not s.no_system_fallback
    then ok go_git_default
    else ok accept_any

-- The loop over the configured keys.
unfoldable pub parse_keys : SshPackage → List Bytes → Result (Unit {0}) (List Bytes)
parse_keys ssh [] = ok []
parse_keys ssh (key ∷ keys) =
    let rest = parse_keys ssh keys in
    if ssh.parses_key key
    then (elim rest [ err why ↦ err why | ok signers ↦ ok (key ∷ signers) ])
    else err tt

combined :
    List Bytes
    → Option (Option (List Bytes))
    → HostKeyPolicy
    → Result (Unit {0}) (Option PublicKeys)
combined [] none policy = ok none
combined [] (some agent) policy =
    ok (some record { static_signers = []; agent_signers = some agent; host_key = policy })
combined (key ∷ keys) agent policy =
    ok (some record { static_signers = key ∷ keys; agent_signers = agent; host_key = policy })

abbrev is_empty_list : List Bytes → Bool
is_empty_list [] = true
is_empty_list (k ∷ ks) = false

-- The agent, and the error without one when there is no configured key.
with_agent :
    Bool
    → HostKeyPolicy
    → List Bytes
    → Option (Option (List Bytes))
    → Result (Unit {0}) (Option PublicKeys)
unfolding combined
with_agent fallback policy signers (some agent) =
    combined signers (if fallback then some agent else none) policy
with_agent fallback policy signers none =
    if fallback && is_empty_list signers then err tt else combined signers none policy

with_signers :
    Bool
    → System
    → HostKeyPolicy
    → Result (Unit {0}) (List Bytes)
    → Result (Unit {0}) (Option PublicKeys)
unfolding with_agent
with_signers fallback sys policy (err why) = err why
with_signers fallback sys policy (ok signers) = with_agent fallback policy signers sys.agent

with_policy :
    SshPackage
    → System
    → Settings
    → List Bytes
    → Result (Unit {0}) HostKeyPolicy
    → Result (Unit {0}) (Option PublicKeys)
unfolding with_signers
with_policy ssh sys s keys (err why) = err why
with_policy ssh sys s keys (ok policy) =
    with_signers (not s.no_system_fallback) sys policy (parse_keys ssh keys)

-- `resolveSSHAuth`
unfoldable pub resolve_ssh_auth :
    UrlPackage → SshPackage → System → Settings → Bytes → Result (Unit {0}) (Option PublicKeys)
unfolding with_policy
resolve_ssh_auth pkg ssh sys s repo_url =
    with_policy ssh sys s (match_ssh_keys s (ssh_host pkg repo_url)) (ssh_host_key_callback ssh s)

-- The callback of `resolveSSHAuth`: what one handshake offers.
unfoldable pub offered_signers : PublicKeys → List Bytes
offered_signers k = elim k.agent_signers [
  | some (some got) ↦ k.static_signers ++ got
  | _ ↦ k.static_signers
]

-- `authCandidate`: the source that a candidate's `resolve` asks.
pub data Source : Type 0 where
  ssh_identities : Source
  url_credential : Bytes → Bytes → Source
  configured : HttpsCredential → Source
  requested : Url → Source
  credential_helper : Url → Bytes → Source
  url_username : Bytes → Source

abbrev pub user_name : Option (Bytes × Option Bytes) → Bytes
user_name none = []
user_name (some (name, password)) = name

-- The sources after the configured credentials.
unfoldable pub later_sources : Settings → Url → List Source
later_sources s u =
    let user = user_name u.user in
    requested u
      ∷ (if not s.no_system_fallback && is_http_scheme u.scheme
          then credential_helper u user ∷ []
          else [])
    ++ (if not (is_empty user) then url_username user ∷ [] else [])

-- The candidates without a complete credential in the URL.
unfoldable pub http_candidates : UrlPackage → Settings → Bytes → Option Url → List Source
http_candidates pkg s repo_url none =
    map configured (match_https_credentials pkg.parse_url s repo_url)
http_candidates pkg s repo_url (some u) =
    map configured (match_https_credentials pkg.parse_url s repo_url) ++ later_sources s u

-- A user name with a password in the URL.
unfoldable pub complete_user : Option Url → Option (Bytes × Bytes)
complete_user none = none
complete_user (some u) = elim u.user [
  | some (name, some password) ↦ some (name, password)
  | _ ↦ none
]

-- `authCandidates`
unfoldable pub auth_candidates : UrlPackage → Settings → Bytes → List Source
auth_candidates pkg s repo_url =
    if has_prefix (codes "ssh://") repo_url || scp_pattern repo_url
    then ssh_identities ∷ []
    else let u = pkg.parse_url repo_url in
      elim (complete_user u) [
        | some (name, password) ↦ url_credential name password ∷ []
        | none ↦ http_candidates pkg s repo_url u
      ]

abbrev basic_offer : Option (Bytes × Bytes) → Offer Auth
basic_offer none = declines
basic_offer (some (user, password)) = offers (basic user password)

abbrev keys_offer : Result (Unit {0}) (Option PublicKeys) → Offer Auth
keys_offer (err why) = resolve_fails
keys_offer (ok none) = declines
keys_offer (ok (some keys)) = offers (public_keys keys)

-- A candidate's `resolve`.
unfoldable pub resolve : UrlPackage → SshPackage → System → Settings → Bytes → Source → Offer Auth
resolve pkg ssh sys s repo_url ssh_identities = keys_offer (resolve_ssh_auth pkg ssh sys s repo_url)
resolve pkg ssh sys s repo_url (url_credential user password) = offers (basic user password)
resolve pkg ssh sys s repo_url (configured cred) = offers (basic cred.username cred.password)
resolve pkg ssh sys s repo_url (requested u) =
    basic_offer (request_credential s u.scheme u.hostname u.path)
resolve pkg ssh sys s repo_url (credential_helper u user) =
    basic_offer (sys.helper u.scheme u.hostname user)
resolve pkg ssh sys s repo_url (url_username user) = offers (basic user [])

-- What the chain offers, in order.
unfoldable pub auth_offers : UrlPackage → SshPackage → System → Settings → Bytes → List (Offer Auth)
auth_offers pkg ssh sys s repo_url =
    map (resolve pkg ssh sys s repo_url) (auth_candidates pkg s repo_url)

-- The loop of `resolveAuth`.
unfoldable pub first_offer : List (Offer Auth) → Result (Unit {0}) (Option Auth)
first_offer [] = ok none
first_offer (resolve_fails ∷ rest) = err tt
first_offer (declines ∷ rest) = first_offer rest
first_offer (offers auth ∷ rest) = ok (some auth)

-- `resolveAuth`
unfoldable pub resolve_auth :
    UrlPackage → SshPackage → System → Settings → Bytes → Result (Unit {0}) (Option Auth)
resolve_auth pkg ssh sys s repo_url = first_offer (auth_offers pkg ssh sys s repo_url)
