-- ===== src/Git/Auth/Policy.antt =====
-- The host key policy of the SSH identities that are offered without the system fallback.
use grabber.Base.{
  Bool, true, false, not, ◌≡◌, ◌≢◌, ap, Option, none, some, if◌then◌else◌, Result, ok, err, List,
  [], ◌∷◌, map, All,
}
use grabber.Text.{Bytes, is_empty}
use grabber.Settings.Types.{Settings}
use grabber.Settings.Match.{match_ssh_keys}
use grabber.Git.Url.{UrlPackage}
use grabber.Git.Scheme.{ssh_host}
use grabber.Git.Download.{Offer, offers}
use grabber.Git.Auth.KnownHosts.{HostKeys, known_hosts_callback}
use grabber.Git.Auth.{
  System, SshPackage, HostKeyPolicy, go_git_default, accept_any, Auth, public_keys,
  ssh_host_key_callback, verifying, parse_keys, combined, with_agent, with_signers, with_policy,
  resolve_ssh_auth, Source, ssh_identities, url_credential, configured, requested,
  credential_helper, url_username, keys_offer, basic_offer, resolve, auth_candidates, auth_offers,
}

verifying-default : (r : Result (Unit {0}) HostKeys) → verifying r ≢ ok go_git_default
unfolding verifying
verifying-default (ok m) = cc
verifying-default (err why) = cc

callback-default :
    (ssh : SshPackage) (s : Settings)
    → s.no_system_fallback ≡ true
    → ssh_host_key_callback ssh s ≢ ok go_git_default
unfolding ssh_host_key_callback
callback-default ssh s off =
    pick (s.git.insecure_skip_host_key_verify) (is_empty s.git.known_hosts) s.no_system_fallback off
      (known_hosts_callback (ssh.known_lines s.git.known_hosts))
  where
    pick :
        (insecure unknown off : Bool)
        → off ≡ true
        → (keys : Result (Unit {0}) HostKeys)
        → (if insecure
            then ok accept_any
            else if not unknown
            then verifying keys
            else if not off
            then ok go_git_default
            else ok accept_any)
          ≢ ok go_git_default
    pick true unknown off e keys = cc
    pick false false off e keys = verifying-default keys
    pick false true true e keys = cc
    pick false true false e keys = cc

-- A credential that, where it is an SSH identity, does not leave the host key to the known_hosts
-- file of the user.
abbrev pub KeepsPolicy : Offer Auth → Type 0
KeepsPolicy (offers (public_keys k)) = k.host_key ≢ go_git_default
KeepsPolicy _ = Unit

keys_offer-KeepsPolicy :
    (policy : HostKeyPolicy) (signers : List Bytes) (agent : Option (Option (List Bytes)))
    → policy ≢ go_git_default
    → KeepsPolicy (keys_offer (combined signers agent policy))
unfolding combined
keys_offer-KeepsPolicy policy [] none h = tt
keys_offer-KeepsPolicy policy [] (some agent) h = h
keys_offer-KeepsPolicy policy (key ∷ keys) agent h = h

with_agent-KeepsPolicy :
    (policy : HostKeyPolicy) (signers : List Bytes) (agent : Option (Option (List Bytes)))
    → policy ≢ go_git_default
    → KeepsPolicy (keys_offer (with_agent false policy signers agent))
unfolding with_agent
with_agent-KeepsPolicy policy signers none h = keys_offer-KeepsPolicy policy signers none h
with_agent-KeepsPolicy policy signers (some a) h = keys_offer-KeepsPolicy policy signers none h

with_signers-KeepsPolicy :
    (sys : System) (policy : HostKeyPolicy) (signers : Result (Unit {0}) (List Bytes))
    → policy ≢ go_git_default
    → KeepsPolicy (keys_offer (with_signers false sys policy signers))
unfolding with_signers
with_signers-KeepsPolicy sys policy (err why) h = tt
with_signers-KeepsPolicy sys policy (ok signers) h =
    with_agent-KeepsPolicy policy signers sys.agent h

with_policy-KeepsPolicy :
    (ssh : SshPackage) (sys : System) (s : Settings) (keys : List Bytes)
    (policy : Result (Unit {0}) HostKeyPolicy)
    → s.no_system_fallback ≡ true
    → policy ≢ ok go_git_default
    → KeepsPolicy (keys_offer (with_policy ssh sys s keys policy))
unfolding with_policy
with_policy-KeepsPolicy ssh sys s keys (err why) off h = tt
with_policy-KeepsPolicy ssh sys s keys (ok policy) off h =
    rw off (with_signers-KeepsPolicy sys policy (parse_keys ssh keys) (λ e. h (ap ok e)))

basic_offer-KeepsPolicy : (o : Option (Bytes × Bytes)) → KeepsPolicy (basic_offer o)
basic_offer-KeepsPolicy none = tt
basic_offer-KeepsPolicy (some (user, password)) = tt

module _ (pkg : UrlPackage) (ssh : SshPackage) (sys : System) (s : Settings) (repo_url : Bytes)
    (off : s.no_system_fallback ≡ true) where
  resolve-KeepsPolicy : (src : Source) → KeepsPolicy (resolve pkg ssh sys s repo_url src)
  unfolding resolve resolve_ssh_auth
  resolve-KeepsPolicy ssh_identities =
      with_policy-KeepsPolicy ssh sys s (match_ssh_keys s (ssh_host pkg repo_url))
        (ssh_host_key_callback ssh s) off (callback-default ssh s off)
  resolve-KeepsPolicy (url_credential user password) = tt
  resolve-KeepsPolicy (configured cred) = tt
  resolve-KeepsPolicy (requested u) = basic_offer-KeepsPolicy _
  resolve-KeepsPolicy (credential_helper u user) = basic_offer-KeepsPolicy _
  resolve-KeepsPolicy (url_username user) = tt

  map-resolve-KeepsPolicy :
      (srcs : List Source) → All KeepsPolicy (map (resolve pkg ssh sys s repo_url) srcs)
  map-resolve-KeepsPolicy [] = tt
  map-resolve-KeepsPolicy (src ∷ srcs) = (resolve-KeepsPolicy src, map-resolve-KeepsPolicy srcs)

  pub auth_offers-KeepsPolicy : All KeepsPolicy (auth_offers pkg ssh sys s repo_url)
  unfolding auth_offers
  auth_offers-KeepsPolicy = map-resolve-KeepsPolicy (auth_candidates pkg s repo_url)
