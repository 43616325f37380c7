-- ===== src/Settings/Network.antt =====
-- How a request is dialed: the guard, the connect probe, the pre-fetch check and the proxy of the
-- environment, in settings/settings.go and settings/envproxy.go.
pub mod Header
pub mod Routing
use grabber.Base.{
  Bool, true, false, not, ◌&&◌, ◌||◌, List, [], ◌∷◌, ◌++◌, Option, none, some, if◌then◌else◌, ℤ,
  pos, negsuc, Result, ok, err, is_some, ltb, ◌>>=◌, ◌>>◌,
}
use grabber.Text.{Bytes, codes, text_eq, is_empty, contains, equal_fold}
use grabber.Net.{Ip}
use grabber.Net.Parse.{join_host_port, parse_ip, url_hostname}
use grabber.Ssrf.{
  Guard, GuardError, new_guard, enabled, host_allowed, control, check_host, dial, exempt_host,
}
use grabber.Ssrf.Proxied.{Resolver, check_proxied_host}
use grabber.Settings.Types.{
  Url, Settings, BaseTransport, ProxyFunction, ProxyConfig, ClientCertificate,
}
use grabber.Settings.Match.{match_proxy, match_client_certificate}

-- `SSRFGuard`
unfoldable pub ssrf_guard : Settings → Guard
ssrf_guard s = new_guard s.ssrf_level s.ssrf_custom s.ssrf_allow

-- `baseProxy`, with the proxy function of `http.DefaultTransport` as `default_proxy`.
unfoldable pub base_proxy : Option ProxyFunction → Option BaseTransport → Option ProxyFunction
base_proxy default_proxy none = default_proxy
base_proxy default_proxy (some t) = t.proxy

-- The authority of the request that `envProxyApplies` asks about.
authority : Bytes → Bytes → Bytes
authority host port =
    if not (is_empty port)
    then join_host_port host port
    else if contains (codes ":") host
    then codes "[" ++ host ++ codes "]"
    else host

is_chosen : Result (Unit {0}) (Option Url) → Bool
is_chosen (ok (some u)) = true
is_chosen _ = false

proxied_by : Option ProxyFunction → Bytes → Bytes → Bytes → Bool
unfolding authority is_chosen
proxied_by none scheme host port = false
proxied_by (some proxy) scheme host port = is_chosen (proxy scheme (authority host port))

-- `envProxyApplies`
unfoldable pub env_proxy_applies : Option ProxyFunction → Settings → Bytes → Bytes → Bytes → Bool
unfolding proxied_by
env_proxy_applies default_proxy s scheme host port =
    if not (text_eq scheme (codes "http")) && not (text_eq scheme (codes "https"))
    then false
    else if is_some (match_proxy s host)
    then false
    else proxied_by (base_proxy default_proxy s.http_transport) scheme host port

abbrev is_positive : ℤ → Bool
is_positive (pos n) = ltb 0 n
is_positive (negsuc n) = false

pub data ProbeError : Type 0 where
  refused : GuardError → ProbeError
  unreachable : ProbeError

-- The dialer's two results: the address "ip:port" that the host resolves to, which the dialer's
-- `Control` sees, and whether the connection is made.
pub record Dialer : Type 0 where
  pub resolved : Bytes
  pub connects : Bool

connected : Bool → Result ProbeError (Unit {0})
connected true = ok tt
connected false = err unreachable

controlled : Result GuardError (Unit {0}) → Bool → Result ProbeError (Unit {0})
unfolding connected
controlled (ok _) connects = connected connects
controlled (err why) connects = err (refused why)

-- `ProbeConnectFor`
unfoldable pub probe_connect_for :
    Option ProxyFunction → Dialer → Settings → Bytes → Bytes → Bytes → Result ProbeError (Unit {0})
unfolding controlled connected
probe_connect_for default_proxy net s scheme host port =
    if not (is_positive s.connect_probe_timeout) || is_empty host || is_empty port
    then ok tt
    else if is_some (match_proxy s host) || env_proxy_applies default_proxy s scheme host port
    then ok tt
    else if enabled (ssrf_guard s) && not (host_allowed (ssrf_guard s) host)
    then controlled (control (ssrf_guard s) net.resolved) net.connects
    else connected net.connects

-- `ProbeConnect`
unfoldable pub probe_connect :
    Option ProxyFunction → Dialer → Settings → Bytes → Bytes → Result ProbeError (Unit {0})
probe_connect default_proxy net s host port = probe_connect_for default_proxy net s [] host port

-- `CheckSSRFHost`
unfoldable pub check_ssrf_host :
    (Bytes → Option (List Ip)) → Settings → Bytes → Result GuardError (Unit {0})
check_ssrf_host resolve s host = check_host resolve (ssrf_guard s) host

-- `CheckSSRFHostFor`
unfoldable pub check_ssrf_host_for :
    (Bytes → Option (List Ip))
    → Resolver
    → Option ProxyFunction
    → Settings
    → Bytes
    → Bytes
    → Bytes
    → Result GuardError (Unit {0})
check_ssrf_host_for resolve r default_proxy s scheme host port =
    if env_proxy_applies default_proxy s scheme host port
    then check_proxied_host r (ssrf_guard s) host
    else check_ssrf_host resolve s host

-- `hostnameOf`
unfoldable pub hostname_of : Bytes → Bytes
hostname_of hostport = elim (parse_ip hostport) [
  | some ip ↦ hostport
  | none ↦ url_hostname hostport
]

-- `targetHosts`: the host of the URL, and that of the Host header if it is another.
header_host : Bytes → Bytes → List Bytes
header_host url_host header =
    if not (equal_fold header url_host) then url_host ∷ header ∷ [] else url_host ∷ []

unfoldable pub target_hosts : Bytes → Bytes → List Bytes
unfolding header_host
target_hosts url_host header =
    if is_empty header then url_host ∷ [] else header_host url_host (hostname_of header)

unfoldable pub check_targets : Resolver → Guard → List Bytes → Result GuardError (Unit {0})
check_targets r g [] = ok tt
check_targets r g (host ∷ hosts) = check_proxied_host r g host >> check_targets r g hosts

-- What the `Proxy` function that `newEnvProxyTransport` installs returns for a request: no proxy,
-- a proxy, the refusal of a target, or the error of the `Proxy` function that was there.
pub data Route : Type 0 where
  direct : Route
  through : Url → Route
  target_refused : GuardError → Route
  unrouted : Route

checked_route : Result GuardError (Unit {0}) → Url → Route
checked_route (ok _) u = through u
checked_route (err why) u = target_refused why

unfoldable pub env_route : Resolver → Guard → Result (Unit {0}) (Option Url) → Bytes → Bytes → Route
unfolding checked_route
env_route r g (err _) url_host header = unrouted
env_route r g (ok none) url_host header = direct
env_route r g (ok (some u)) url_host header =
    checked_route (check_targets r g (target_hosts url_host header)) u

-- The `DialContext` that goes with it: a dial for a request that was routed through a proxy is
-- not checked, any other is. A refused request is not dialed.
unfoldable pub env_dial : Guard → Route → Bytes → Bytes → Option (Result GuardError (Unit {0}))
env_dial g direct addr address = some (dial g none addr address)
env_dial g (through u) addr address = some (ok tt)
env_dial g (target_refused why) addr address = none
env_dial g unrouted addr address = none
