-- ===== src/Settings/Transport.antt =====
-- The transports for a host, in settings/settings.go: certificates, the proxy, and how they dial.
-- The system's pool, the PEM and key parsers, and `http.DefaultTransport` are parameters.
pub mod Connection
pub mod Safety
use grabber.Base.{
  Bool, true, false, not, ◌&&◌, ◌||◌, List, [], ◌∷◌, ◌++◌, Option, none, some, if◌then◌else◌,
  Result, ok, err, is_some, ◌>>=◌,
}
use grabber.Text.{Bytes, codes, text_eq, is_empty}
use grabber.Ssrf.{Guard, GuardError, dial, enabled, exempt_host}
use grabber.Ssrf.Proxied.{Resolver}
use grabber.Settings.Types.{
  Url, Settings, Pool, TlsConfig, BaseTransport, ProxyFunction, ProxyConfig, ClientCertificate,
}
use grabber.Settings.Match.{match_proxy, match_client_certificate}
use grabber.Settings.Network.{ssrf_guard, env_route, env_dial}

pub data TransportError : Type 0 where
  pool_unreadable bad_authority bad_certificate : TransportError

-- `x509.SystemCertPool`, `none` for an error and `some none` for a nil pool; whether
-- `AppendCertsFromPEM` succeeds; and whether `tls.X509KeyPair` does.
pub record Crypto : Type 0 where
  pub system_pool : Option (Option Pool)
  pub pem_ok : Bytes → Bool
  pub key_pair_ok : Bytes → Bytes → Bool

append_all : (Bytes → Bool) → Pool → List Bytes → Result TransportError (Option Pool)
append_all pem_ok pool [] = ok (some pool)
append_all pem_ok pool (pem ∷ pems) =
    let rest = append_all pem_ok (pool ++ pem ∷ []) pems in
    if not (pem_ok pem) then err bad_authority else rest

append_system : Crypto → List Bytes → Option (Option Pool) → Result TransportError (Option Pool)
unfolding append_all
append_system x pems none = err pool_unreadable
append_system x pems (some none) = append_all x.pem_ok [] pems
append_system x pems (some (some pool)) = append_all x.pem_ok pool pems

pool_of : Crypto → List Bytes → Result TransportError (Option Pool)
unfolding append_system
pool_of x [] = ok none
pool_of x (pem ∷ pems) = append_system x (pem ∷ pems) x.system_pool

-- `caCertPool`
unfoldable pub ca_cert_pool : Crypto → Settings → Result TransportError (Option Pool)
unfolding pool_of
ca_cert_pool x s = pool_of x s.tls_ca_certs

with_account : ProxyConfig → Option Url → Option Url
with_account p none = none
with_account p (some u) =
    if not (is_empty p.username) || not (is_empty p.password)
    then some (record u { user = some (p.username, some p.password) })
    else some u

-- `ProxyURL`
unfoldable pub proxy_url : Option ProxyConfig → Option Url
unfolding with_account
proxy_url none = none
proxy_url (some p) = with_account p p.url

-- How a transport dials: as it did before, or as `Guard.DialContext` with an exemption.
pub data Dialing : Type 0 where
  unguarded : Dialing
  guarded : Guard → Option (Bytes → Bool) → Dialing

pub record Transport : Type 0 where
  pub proxy : Option ProxyFunction
  pub tls : Option TlsConfig
  pub own_tls : Bool
  pub dialing : Dialing

base_config : Option TlsConfig → TlsConfig
base_config none = record { min_version = 771; root_cas = none; certificates = [] }
base_config (some config) = config

with_roots : Option Pool → TlsConfig → TlsConfig
with_roots none config = config
with_roots (some pool) config = record config { root_cas = some pool }

with_certificate :
    Crypto → Option ClientCertificate → TlsConfig → Result TransportError (Option TlsConfig)
with_certificate x none config = ok (some config)
with_certificate x (some c) config =
    if not (x.key_pair_ok c.cert c.key)
    then err bad_certificate
    else ok (some (record config { certificates = (c.cert, c.key) ∷ [] }))

unfoldable pub layer_tls :
    Crypto
    → Option Pool
    → Option ClientCertificate
    → Option TlsConfig
    → Result TransportError (Option TlsConfig)
unfolding base_config with_roots with_certificate
layer_tls x pool cert tls =
    if is_some pool || is_some cert
    then with_certificate x cert (with_roots pool (base_config tls))
    else ok tls

unfoldable pub layer_proxy : Option ProxyConfig → Option ProxyFunction → Option ProxyFunction
layer_proxy none own = own
layer_proxy (some p) own = some (λ scheme authority. ok (proxy_url (some p)))

exempt_url : Option Url → Option (Bytes → Bool)
exempt_url none = none
exempt_url (some u) = exempt_host u.hostname

-- The exemption of the address of a proxy that is configured.
unfoldable pub exempt_proxy : Option ProxyConfig → Option (Bytes → Bool)
unfolding exempt_url
exempt_proxy none = none
exempt_proxy (some p) = exempt_url p.url

unfoldable pub layer_dial : Settings → Option ProxyConfig → Dialing
layer_dial s proxy =
    if enabled (ssrf_guard s) then guarded (ssrf_guard s) (exempt_proxy proxy) else unguarded

unfoldable pub base_transport : Option BaseTransport → Option BaseTransport → BaseTransport
base_transport default_transport (some t) = t
base_transport none none = record { proxy = none; tls = none; own_tls = false }
base_transport (some t) none = t

-- Nothing is configured, so that the default client serves.
unfoldable pub is_unconfigured :
    Settings → Option Pool → Option ClientCertificate → Option ProxyConfig → Bool
is_unconfigured s pool cert proxy =
    not (is_some s.http_transport)
    && not (is_some pool)
    && not (is_some cert)
    && not (is_some proxy)
    && not (enabled (ssrf_guard s))

-- `TransportForHost`; `ok none` for a nil transport.
unfoldable pub transport_for_host :
    Crypto → Option BaseTransport → Settings → Bytes → Result TransportError (Option Transport)
unfolding base_transport layer_proxy
transport_for_host x default_transport s host = ca_cert_pool x s >>= λ pool.
    let cert = match_client_certificate s host in
    let proxy = match_proxy s host in
    let base = base_transport default_transport s.http_transport in
    if is_unconfigured s pool cert proxy
    then ok none
    else (layer_tls x pool cert base.tls >>= λ tls. ok (
        some record {
          proxy = layer_proxy proxy base.proxy;
          tls = tls;
          own_tls = base.own_tls;
          dialing = layer_dial s proxy;
        }))

-- `http.RoundTripper`: nil, a transport, or what `newEnvProxyTransport` makes of one with this
-- `Proxy`, and a TLS dialer of its own or not.
pub data RoundTripper : Type 0 where
  nil_tripper : RoundTripper
  plain : Transport → RoundTripper
  env_proxied : ProxyFunction → Bool → Guard → RoundTripper

tripper_of : Settings → Bytes → Transport → Option ProxyFunction → RoundTripper
tripper_of s host t none = plain t
tripper_of s host t (some proxy) =
    if not (enabled (ssrf_guard s)) || is_some (match_proxy s host)
    then plain t
    else env_proxied proxy t.own_tls (ssrf_guard s)

-- `withEnvProxy`
unfoldable pub with_env_proxy : Settings → Option Transport → Bytes → RoundTripper
unfolding tripper_of
with_env_proxy s none host = nil_tripper
with_env_proxy s (some t) host = tripper_of s host t t.proxy

-- `RoundTripperForHost`
unfoldable pub round_tripper_for_host :
    Crypto → Option BaseTransport → Settings → Bytes → Result TransportError RoundTripper
round_tripper_for_host x default_transport s host =
    transport_for_host x default_transport s host >>= λ tr. ok (with_env_proxy s tr host)
