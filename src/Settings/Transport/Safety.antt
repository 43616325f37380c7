-- ===== src/Settings/Transport/Safety.antt =====
-- Where a request may connect over the round tripper for its host, in settings/settings.go.
use grabber.Base.{
  Bool, Bool-cases, inl, inr, err, sym, ◌∙◌, true, false, ◌≡◌, refl, Option, none, some, Result, ok,
  >>=-eq-ok, arith,
}
use grabber.Text.{Bytes}
use grabber.Ssrf.{GuardError, enabled}
use grabber.Ssrf.Dialing.{DialPermitted, dial_iff}
use grabber.Ssrf.Proxied.{Resolver}
use grabber.Settings.Types.{
  Settings, Url, BaseTransport, ProxyFunction, Pool, ProxyConfig, ClientCertificate,
}
use grabber.Settings.Match.{match_proxy, match_client_certificate}
use grabber.Settings.Network.{ssrf_guard}
use grabber.Settings.Network.Routing.{NamesPass, Connects, proxied, dialed, env_dial_iff}
use grabber.Settings.Transport.{
  base_transport, layer_proxy, Crypto, TransportError, Transport, RoundTripper, guarded,
  exempt_proxy, ca_cert_pool, is_unconfigured, layer_tls, layer_dial, tripper_of,
  transport_for_host, with_env_proxy, round_tripper_for_host,
}
use grabber.Settings.Transport.Connection.{
  proxy_choice, tls_dialed, plain_connection, env_connection, Request, dial_as, connection,
}

-- Why a request connects: the guard lets the dial through, where nothing but a configured proxy is
-- exempt; or a proxy of the environment takes it and every host it names was checked; or the
-- transport that was passed in has a TLS dialer of its own, and it is used.
pub data Reaches (r : Resolver) (s : Settings) (host : Bytes) (base : BaseTransport) (q : Request)
    : Type 0 where
  directly :
      DialPermitted (ssrf_guard s) (exempt_proxy (match_proxy s host)) q.addr q.address
      → Reaches r s host base q
  by_proxy :
      (proxy : ProxyFunction) (u : Url)
      → match_proxy s host ≡ none
      → base.proxy ≡ some proxy
      → proxy q.scheme q.authority ≡ ok (some u)
      → NamesPass r (ssrf_guard s) q.url_host q.header
      → Reaches r s host base q
  own_dialer :
      base.own_tls ≡ true
      → tls_dialed true q (proxy_choice (layer_proxy (match_proxy s host) base.proxy) q) ≡ true
      → Reaches r s host base q

some_ok :
    (d : Result GuardError (Unit {0}))
    → ◌≡◌ {A = Option (Result GuardError (Unit {0}))} (some d) (some (ok tt))
    → d ≡ ok tt
some_ok d h = cc

-- A transport that is made while the guard is on is there, and dials by the guard.
record IsGuarded (s : Settings) (host : Bytes) (base : BaseTransport) (t : Transport) : Type 0 where
  dials : t.dialing ≡ guarded (ssrf_guard s) (exempt_proxy (match_proxy s host))
  proxies : t.proxy ≡ layer_proxy (match_proxy s host) base.proxy
  owns : t.own_tls ≡ base.own_tls

layer_dial-guarded :
    (s : Settings) (host : Bytes)
    → enabled (ssrf_guard s) ≡ true
    → layer_dial s (match_proxy s host) ≡ guarded (ssrf_guard s) (exempt_proxy (match_proxy s host))
unfolding layer_dial
layer_dial-guarded s host on = rw on refl

is_unconfigured-of-enabled :
    (s : Settings) (pool : Option Pool) (cert : Option ClientCertificate)
    (proxy : Option ProxyConfig)
    → enabled (ssrf_guard s) ≡ true
    → is_unconfigured s pool cert proxy ≡ false
unfolding is_unconfigured
is_unconfigured-of-enabled s pool cert proxy on = ground (arith, on)

transport_for_host-IsGuarded :
    (x : Crypto) (default_transport : Option BaseTransport) (s : Settings) (host : Bytes)
    (tr : Option Transport)
    → enabled (ssrf_guard s) ≡ true
    → transport_for_host x default_transport s host ≡ ok tr
    → (t : Transport) × (tr ≡ some t)
      × IsGuarded s host (base_transport default_transport s.http_transport) t
unfolding transport_for_host
transport_for_host-IsGuarded x default_transport s host tr on h =
    let (pool, _, rest) = >>=-eq-ok (ca_cert_pool x s) _ h in
    let configured =
      is_unconfigured-of-enabled s pool (match_client_certificate s host) (match_proxy s host) on in
    let (tls, _, last) = >>=-eq-ok (layer_tls x pool _ _) _ (rw configured at rest) in
    (_, made _ last, record { dials = layer_dial-guarded s host on; proxies = refl; owns = refl })
  where
    made :
        (t : Transport)
        → ◌≡◌ {A = Result TransportError (Option Transport)} (ok (some t)) (ok tr)
        → tr ≡ some t
    made t e = cc

tls_dialed-own :
    (own : Bool) (q : Request) (p : Result (Unit {0}) (Option Url))
    → tls_dialed own q p ≡ true
    → (own ≡ true) × (tls_dialed true q p ≡ true)
unfolding tls_dialed
tls_dialed-own own q (err _) h = absurd (cc h)
tls_dialed-own true q (ok none) h = (refl, h)
tls_dialed-own false q (ok none) h = absurd (cc h)
tls_dialed-own true q (ok (some u)) h = (refl, h)
tls_dialed-own false q (ok (some u)) h = absurd (cc h)

module _ (r : Resolver) (s : Settings) (host : Bytes) (base : BaseTransport) (q : Request) where
  own-Reaches :
      (own : Bool) (p : Result (Unit {0}) (Option Url))
      → own ≡ base.own_tls
      → proxy_choice (layer_proxy (match_proxy s host) base.proxy) q ≡ p
      → tls_dialed own q p ≡ true
      → Reaches r s host base q
  own-Reaches own p e c h = let (o, d) = tls_dialed-own own q p h in own_dialer (sym e ∙ o) (rw c d)

  plain_connection-Reaches :
      (t : Transport) (p : Result (Unit {0}) (Option Url))
      → IsGuarded s host base t
      → proxy_choice t.proxy q ≡ p
      → plain_connection t q p ≡ some (ok tt)
      → Reaches r s host base q
  unfolding plain_connection
  plain_connection-Reaches t (err e) g c h = absurd (cc h)
  plain_connection-Reaches t (ok p) g c h = elim (Bool-cases (tls_dialed t.own_tls q (ok p))) [
    | inl own ↦ own-Reaches t.own_tls (ok p) g.owns (rw g.proxies at c) own
    | inr not_own ↦ directly (
        (dial_iff (ssrf_guard s) _ q.addr q.address).0
          (unfold dial_as in some_ok _ (rw (not_own, g.dials) at h)))
  ]

  Connects-Reaches :
      (proxy : ProxyFunction)
      → match_proxy s host ≡ none
      → base.proxy ≡ some proxy
      → Connects r (ssrf_guard s) (proxy q.scheme q.authority) q.url_host q.header q.addr q.address
      → Reaches r s host base q
  unfolding exempt_proxy
  Connects-Reaches proxy unset b (proxied u e names) = by_proxy proxy u unset b e names
  Connects-Reaches proxy unset b (dialed e d) =
      directly (rw unset ((dial_iff (ssrf_guard s) none q.addr q.address).0 d))

  env_connection-Reaches :
      (own : Bool) (proxy : ProxyFunction) (p : Result (Unit {0}) (Option Url))
      → own ≡ base.own_tls
      → match_proxy s host ≡ none
      → base.proxy ≡ some proxy
      → proxy q.scheme q.authority ≡ p
      → env_connection r own (ssrf_guard s) q p ≡ some (ok tt)
      → Reaches r s host base q
  unfolding env_connection layer_proxy proxy_choice
  env_connection-Reaches own proxy (err e) o unset b c h =
      Connects-Reaches proxy unset b (rw c ((env_dial_iff r (ssrf_guard s) (err e) _ _ _ _).0 h))
  env_connection-Reaches own proxy (ok (some u)) o unset b c h =
      Connects-Reaches proxy unset b
        (rw c ((env_dial_iff r (ssrf_guard s) (ok (some u)) _ _ _ _).0 h))
  env_connection-Reaches own proxy (ok none) o unset b c h =
      elim (Bool-cases (tls_dialed own q (ok none))) [
        | inl yes_own ↦ own-Reaches own (ok none) o (rw (unset, b) c) yes_own
        | inr not_own ↦
            Connects-Reaches proxy unset b
              (rw c ((env_dial_iff r (ssrf_guard s) (ok none) _ _ _ _).0 (rw not_own at h)))
      ]

  tripper_of-Reaches :
      (t : Transport) (p : Option ProxyFunction) (m : Option ProxyConfig)
      → enabled (ssrf_guard s) ≡ true
      → match_proxy s host ≡ m
      → t.proxy ≡ p
      → IsGuarded s host base t
      → connection r (tripper_of s host t p) q ≡ some (ok tt)
      → Reaches r s host base q
  unfolding tripper_of connection layer_proxy
  tripper_of-Reaches t none m on e c g h = plain_connection-Reaches t _ g refl h
  tripper_of-Reaches t (some proxy) none on e c g h =
      env_connection-Reaches t.own_tls proxy _ g.owns e (sym (rw e at g.proxies) ∙ c) refl
        (rw (on, e) at h)
  tripper_of-Reaches t (some proxy) (some p) on e c g h =
      plain_connection-Reaches t _ g refl (rw (on, e) at h)

  with_env_proxy-Reaches :
      (tr : Option Transport) (t : Transport)
      → enabled (ssrf_guard s) ≡ true
      → tr ≡ some t
      → IsGuarded s host base t
      → connection r (with_env_proxy s tr host) q ≡ some (ok tt)
      → Reaches r s host base q
  unfolding with_env_proxy
  with_env_proxy-Reaches tr t on e g h = tripper_of-Reaches t t.proxy _ on refl refl g (rw e at h)

-- While the guard is on, whatever certificates and proxies are configured: a request that connects
-- over the round tripper for a host is dialed as the guard permits, with no exemption but the
-- address of the proxy configured for that host; or no proxy is configured for the host, the
-- transport that was passed in (or the default one) has a proxy for the request, and every host
-- that the request names passed the check for proxies; or that transport has a TLS dialer of its
-- own and the connection is one that is dialed with it.
pub round_tripper_for_host-Reaches :
    (x : Crypto) (default_transport : Option BaseTransport) (s : Settings) (host : Bytes)
    (tripper : RoundTripper)
    → enabled (ssrf_guard s) ≡ true
    → round_tripper_for_host x default_transport s host ≡ ok tripper
    → (r : Resolver) (q : Request) → connection r tripper q ≡ some (ok tt)
    → Reaches r s host (base_transport default_transport s.http_transport) q
unfolding round_tripper_for_host
round_tripper_for_host-Reaches x default_transport s host tripper on made r q connects =
    let base = base_transport default_transport s.http_transport in
    let (tr, e, last) = >>=-eq-ok (transport_for_host x default_transport s host) _ made in
    let (t, some_t, g) = transport_for_host-IsGuarded x default_transport s host tr on e in
    with_env_proxy-Reaches r s host base q tr t on some_t g (cc)
