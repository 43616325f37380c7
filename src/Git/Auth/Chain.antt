-- ===== src/Git/Auth/Chain.antt =====
-- What the chain of credentials keeps to: the settings, when the system's own are turned off, and
-- the single answer of `resolveAuth`.
use grabber.Base.{
  Bool, true, false, not, ◌&&◌, ◌||◌, List, [], ◌∷◌, map, ◌≡◌, refl, ap, ◌∙◌, Option, none, some,
  if◌then◌else◌, Result, ok, err, inl, inr, Bool-cases, All, All-append,
}
use grabber.Text.{Bytes, codes, is_empty, has_prefix}
use grabber.Settings.Types.{Url, Settings, HttpsCredential}
use grabber.Settings.Credentials.{match_https_credentials}
use grabber.Settings.Match.{match_ssh_keys}
use grabber.Git.Url.{scp_pattern, UrlPackage}
use grabber.Git.Scheme.{ssh_host, is_http_scheme}
use grabber.Git.Refs.{CloneError}
use grabber.Git.Download.{
  Offer, offers, declines, resolve_fails, resolving_auth, anonymous, git_download, offer_each,
  reset_then, after_clone, Done,
}
use grabber.Git.Auth.{
  System, SshPackage, HostKeyPolicy, Auth, Source, ssh_identities, url_credential, configured,
  credential_helper, url_username, ssh_host_key_callback, parse_keys, resolve_ssh_auth,
  auth_candidates, http_candidates, later_sources, complete_user, resolve, auth_offers, first_offer,
  keys_offer, with_agent, with_signers, with_policy, user_name, resolve_auth,
}

map_configured :
    (P : Source → Type 0) (cs : List HttpsCredential)
    → ((c : HttpsCredential) → P (configured c))
    → All P (map configured cs)
map_configured P [] h = tt
map_configured P (c ∷ cs) h = (h c, map_configured P cs h)

if-off :
    (P : Source → Type 0) (b c : Bool) (src : Source)
    → b ≡ true
    → All P (if not b && c then src ∷ [] else [])
if-off P true c src h = tt
if-off P false c src h = cc

module _ (pkg : UrlPackage) (ssh : SshPackage) (sys sys' : System) (s : Settings)
    (repo_url : Bytes) where
  with_agent-off :
      (policy : HostKeyPolicy) (signers : List Bytes) (agent agent' : Option (Option (List Bytes)))
      → with_agent false policy signers agent ≡ with_agent false policy signers agent'
  unfolding with_agent
  with_agent-off policy signers none none = refl
  with_agent-off policy signers none (some a) = refl
  with_agent-off policy signers (some a) none = refl
  with_agent-off policy signers (some a) (some b) = refl

  with_signers-off :
      (policy : HostKeyPolicy) (signers : Result (Unit {0}) (List Bytes))
      → with_signers false sys policy signers ≡ with_signers false sys' policy signers
  unfolding with_signers
  with_signers-off policy (err why) = refl
  with_signers-off policy (ok signers) = with_agent-off policy signers sys.agent sys'.agent

  -- A source that offers the same on both systems.
  abbrev IsOwn : Source → Type 0
  IsOwn src = resolve pkg ssh sys s repo_url src ≡ resolve pkg ssh sys' s repo_url src

  module _ (off : s.no_system_fallback ≡ true) where
    with_policy-off :
        (keys : List Bytes) (policy : Result (Unit {0}) HostKeyPolicy)
        → with_policy ssh sys s keys policy ≡ with_policy ssh sys' s keys policy
    unfolding with_policy
    with_policy-off keys (err why) = refl
    with_policy-off keys (ok policy) = rw off (with_signers-off policy (parse_keys ssh keys))

    ssh-IsOwn : IsOwn ssh_identities
    unfolding resolve resolve_ssh_auth
    ssh-IsOwn =
        ap keys_offer
          (with_policy-off (match_ssh_keys s (ssh_host pkg repo_url)) (ssh_host_key_callback ssh s))

    configured-IsOwn : (c : HttpsCredential) → IsOwn (configured c)
    unfolding resolve
    configured-IsOwn c = refl

    username-IsOwn :
        (user : Bytes) → All IsOwn (if not (is_empty user) then url_username user ∷ [] else [])
    unfolding resolve
    username-IsOwn user = elim (Bool-cases (is_empty user)) [
      | inl without ↦ rw without tt
      | inr given ↦ rw given (refl, tt)
    ]

    later-IsOwn : (u : Url) → All IsOwn (later_sources s u)
    unfolding later_sources
    later-IsOwn u =
        let user = user_name u.user in
        (
          unfold resolve in refl,
          All-append IsOwn
              (if not s.no_system_fallback && is_http_scheme u.scheme
                then credential_helper u user ∷ []
                else [])
              (if not (is_empty user) then url_username user ∷ [] else [])
              (if-off IsOwn s.no_system_fallback (is_http_scheme u.scheme)
                (credential_helper u user) off)
              (username-IsOwn user),
        )

    http-IsOwn : (u : Option Url) → All IsOwn (http_candidates pkg s repo_url u)
    unfolding http_candidates
    http-IsOwn none =
        map_configured IsOwn (match_https_credentials pkg.parse_url s repo_url) configured-IsOwn
    http-IsOwn (some u) =
        All-append IsOwn (map configured (match_https_credentials pkg.parse_url s repo_url))
          (later_sources s u)
          (map_configured IsOwn (match_https_credentials pkg.parse_url s repo_url) configured-IsOwn)
          (later-IsOwn u)

    candidates-IsOwn : All IsOwn (auth_candidates pkg s repo_url)
    unfolding auth_candidates
    candidates-IsOwn =
        elim (Bool-cases (has_prefix (codes "ssh://") repo_url || scp_pattern repo_url)) [
          | inl over_ssh ↦ rw over_ssh (ssh-IsOwn, tt)
          | inr over_http ↦ rw over_http (chosen (complete_user (pkg.parse_url repo_url)))
        ]
      where
        chosen :
            (o : Option (Bytes × Bytes))
            → All IsOwn (elim o [
              | some (name, password) ↦ url_credential name password ∷ []
              | none ↦ http_candidates pkg s repo_url (pkg.parse_url repo_url)
            ])
        chosen none = http-IsOwn (pkg.parse_url repo_url)
        chosen (some (name, password)) = (unfold resolve in refl, tt)

    map-resolve :
        (srcs : List Source)
        → All IsOwn srcs
        → map (resolve pkg ssh sys s repo_url) srcs ≡ map (resolve pkg ssh sys' s repo_url) srcs
    map-resolve [] h = refl
    map-resolve (src ∷ srcs) (e, h) =
        ap (λ o. o ∷ map (resolve pkg ssh sys s repo_url) srcs) e
        ∙ ap (◌∷◌ (resolve pkg ssh sys' s repo_url src)) (map-resolve srcs h)

    pub auth_offers-off : auth_offers pkg ssh sys s repo_url ≡ auth_offers pkg ssh sys' s repo_url
    unfolding auth_offers
    auth_offers-off = map-resolve (auth_candidates pkg s repo_url) candidates-IsOwn

-- How a download begins, given what the chain answers alone.
abbrev pub Begins :
    (Option Auth → Result CloneError (Unit {0})) → Result (Unit {0}) (Option Auth) → Done → Type 0
Begins clone (err _) done = done ≡ err resolving_auth
Begins clone (ok none) done = done ≡ anonymous (clone none)
Begins clone (ok (some auth)) done =
    (more : List CloneError → Done) × (done ≡ after_clone [] more (clone (some auth)))

offer_each-Begins :
    (reset_ok : Bool) (clone : Option Auth → Result CloneError (Unit {0})) (os : List (Offer Auth))
    → Begins clone (first_offer os) (offer_each reset_ok clone [] os)
unfolding first_offer offer_each reset_then
offer_each-Begins reset_ok clone [] = refl
offer_each-Begins reset_ok clone (resolve_fails ∷ os) = refl
offer_each-Begins reset_ok clone (declines ∷ os) = offer_each-Begins reset_ok clone os
offer_each-Begins reset_ok clone (offers auth ∷ os) =
    ((λ more. offer_each reset_ok clone more os), refl)

-- A download from a host that passes the check agrees with the single answer of the chain: it fails
-- if that is an error, it is one anonymous clone if there is none, and it begins with a clone with
-- the credential if there is one.
pub git_download-Begins :
    (pkg : UrlPackage) (ssh : SshPackage) (sys : System) (s : Settings) (repo_url : Bytes)
    (reset_ok : Bool) (clone : Option Auth → Result CloneError (Unit {0}))
    → Begins clone
        (resolve_auth pkg ssh sys s repo_url)
        (git_download reset_ok clone (ok tt) (ok tt) (auth_offers pkg ssh sys s repo_url))
unfolding resolve_auth git_download
git_download-Begins pkg ssh sys s repo_url reset_ok clone =
    offer_each-Begins reset_ok clone (auth_offers pkg ssh sys s repo_url)
