-- ===== src/Git/Isolation.antt =====
-- Without the system fallback, nothing of the user's system is used for a Git remote.
use grabber.Base.{
  Bool, true, false, not, ◌&&◌, ◌≡◌, refl, ap, ◌∙◌, Option, none, some, if◌then◌else◌, All,
}
use grabber.Text.{Bytes}
use grabber.Settings.Types.{Url, Settings}
use grabber.Settings.Credentials.{match_https_credential, request_credential}
use grabber.Git.Url.{UrlPackage}
use grabber.Git.Scheme.{is_http_scheme}
use grabber.Git.Auth.Policy.{KeepsPolicy, auth_offers-KeepsPolicy}
use grabber.Git.Auth.{System, SshPackage, auth_offers}
use grabber.Git.Auth.Chain.{auth_offers-off}
use grabber.Git.Archive.Request.{
  archive_user, archive_credentials, configured_or, requested_or, helper_or_username, username_only,
  archive_authorization, authorize, unauthenticated, with_token, token_from_env,
}

if-none {ℓ} :
    {A : Type ℓ} (b c : Bool) (x y : Option A)
    → b ≡ true
    → (if not b && c then x else none) ≡ (if not b && c then y else none)
if-none true c x y h = refl
if-none false c x y h = cc

if-same :
    {A : Type 0} (b : Bool) (x y z : A)
    → b ≡ true
    → (if not b then x else z) ≡ (if not b then y else z)
if-same true x y z h = refl
if-same false x y z h = cc

module _ (pkg : UrlPackage) (sys sys' : System) (s : Settings)
    (off : s.no_system_fallback ≡ true) where
  helper-off :
      (u : Url) (user : Bytes) → helper_or_username sys s u user ≡ helper_or_username sys' s u user
  unfolding helper_or_username
  helper-off u user =
      ap (λ o. elim o [ some found ↦ some found | none ↦ username_only user ])
        (if-none s.no_system_fallback (is_http_scheme u.scheme)
          (sys.helper u.scheme u.hostname user) (sys'.helper u.scheme u.hostname user) off)

  requested-off : (u : Url) (user : Bytes) → requested_or sys s u user ≡ requested_or sys' s u user
  unfolding requested_or
  requested-off u user =
      ap
        (λ r. elim (request_credential s u.scheme u.hostname u.path) [
          | some found ↦ some found
          | none ↦ r
        ])
        (helper-off u user)

  configured-off :
      (u : Url) (user : Bytes × Option Bytes)
      → configured_or pkg sys s u user ≡ configured_or pkg sys' s u user
  unfolding configured_or
  configured-off u (user, some password) = refl
  configured-off u (user, none) =
      ap
        (λ r. elim (match_https_credential pkg.parse_url s (pkg.url_string u)) [
          | some cred ↦ some (cred.username, cred.password)
          | none ↦ r
        ])
        (requested-off u user)

  authorize-off :
      (u : Url) (found : Option (Bytes × Bytes))
      → authorize sys s u found ≡ authorize sys' s u found
  unfolding authorize
  authorize-off u (some (user, password)) = refl
  authorize-off u none =
      if-same s.no_system_fallback (with_token (token_from_env sys.getenv u.hostname))
        (with_token (token_from_env sys'.getenv u.hostname)) unauthenticated off

  archive-off : (u : Url) → archive_authorization pkg sys s u ≡ archive_authorization pkg sys' s u
  unfolding archive_authorization archive_credentials
  archive-off u =
      authorize-off u (configured_or pkg sys s u (archive_user u))
      ∙ ap (authorize sys' s u) (configured-off u (archive_user u))

-- Without the system fallback, two systems that differ in their credential helper, SSH agent and
-- environment make no difference to what the chain of credentials offers a Git remote, nor to how
-- the request for an archive is authorized, and no SSH identity that is offered leaves the host key
-- to the known_hosts file of the user.
pub isolated :
    (pkg : UrlPackage) (ssh : SshPackage) (sys sys' : System) (s : Settings) (repo_url : Bytes)
    (u : Url)
    → s.no_system_fallback ≡ true
    → (auth_offers pkg ssh sys s repo_url ≡ auth_offers pkg ssh sys' s repo_url)
      × All KeepsPolicy (auth_offers pkg ssh sys s repo_url)
      × (archive_authorization pkg sys s u ≡ archive_authorization pkg sys' s u)
isolated pkg ssh sys sys' s repo_url u off = (
  auth_offers-off pkg ssh sys sys' s repo_url off,
  auth_offers-KeepsPolicy pkg ssh sys s repo_url off,
  archive-off pkg sys sys' s off u,
)
