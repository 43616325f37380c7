-- ===== src/Settings/Transport/Connection.antt =====
-- How a request connects over a round tripper of settings/settings.go: what `net/http` and
-- `newEnvProxyTransport` of settings/envproxy.go do with it.
use grabber.Base.{Bool, false, ◌&&◌, Option, none, some, if◌then◌else◌, Result, ok, err}
use grabber.Text.{Bytes, codes, text_eq}
use grabber.Ssrf.{Guard, GuardError, dial}
use grabber.Ssrf.Proxied.{Resolver}
use grabber.Settings.Types.{Url, ProxyFunction}
use grabber.Settings.Network.{env_route, env_dial}
use grabber.Settings.Transport.{
  Dialing, unguarded, guarded, Transport, RoundTripper, nil_tripper, plain, env_proxied,
}

-- A request, as far as its connection depends on it, with the address that is dialed for it and
-- the one that this resolves to.
pub record Request : Type 0 where
  pub scheme : Bytes
  pub authority : Bytes
  pub url_host : Bytes
  -- The `Host` field, which may be empty.
  pub header : Bytes
  pub addr : Bytes
  pub address : Bytes

unfoldable pub dial_as : Dialing → Request → Result GuardError (Unit {0})
dial_as unguarded q = ok tt
dial_as (guarded g exempt) q = dial g exempt q.addr q.address

unfoldable pub proxy_choice : Option ProxyFunction → Request → Result (Unit {0}) (Option Url)
proxy_choice none q = ok none
proxy_choice (some proxy) q = proxy q.scheme q.authority

-- Whether `net/http` uses the transport's own TLS dialer: the scheme of the proxy, or of the
-- request if there is none, is https.
unfoldable pub tls_dialed : Bool → Request → Result (Unit {0}) (Option Url) → Bool
tls_dialed own_tls q (err _) = false
tls_dialed own_tls q (ok none) = own_tls && text_eq q.scheme (codes "https")
tls_dialed own_tls q (ok (some u)) = own_tls && text_eq u.scheme (codes "https")

unfoldable pub plain_connection :
    Transport → Request → Result (Unit {0}) (Option Url) → Option (Result GuardError (Unit {0}))
unfolding dial_as
plain_connection t q (err _) = none
plain_connection t q (ok chosen) =
    if tls_dialed t.own_tls q (ok chosen) then some (ok tt) else some (dial_as t.dialing q)

unfoldable pub env_connection :
    Resolver
    → Bool
    → Guard
    → Request
    → Result (Unit {0}) (Option Url)
    → Option (Result GuardError (Unit {0}))
env_connection r own_tls g q (err e) =
    env_dial g (env_route r g (err e) q.url_host q.header) q.addr q.address
env_connection r own_tls g q (ok (some u)) =
    env_dial g (env_route r g (ok (some u)) q.url_host q.header) q.addr q.address
env_connection r own_tls g q (ok none) =
    if tls_dialed own_tls q (ok none)
    then some (ok tt)
    else env_dial g (env_route r g (ok none) q.url_host q.header) q.addr q.address

-- Whether a request may connect, `none` if it fails before it is dialed. For a nil round tripper
-- callers use a client of their own, which checks nothing.
unfoldable pub connection :
    Resolver → RoundTripper → Request → Option (Result GuardError (Unit {0}))
unfolding plain_connection env_connection proxy_choice
connection r nil_tripper q = some (ok tt)
connection r (plain t) q = plain_connection t q (proxy_choice t.proxy q)
connection r (env_proxied proxy own_tls g) q =
    env_connection r own_tls g q (proxy q.scheme q.authority)
