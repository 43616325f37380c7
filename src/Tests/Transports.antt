-- ===== src/Tests/Transports.antt =====
-- The theorem on the transports of a host at a concrete request.
use grabber.Base.{true, false, [], ◌∷◌, ◌≡◌, refl, none, some, ok}
use grabber.Text.{contains, split, text_eq, Bytes, codes, is_empty, equal_fold}
use grabber.Ssrf.{
  enabled, new_guard, host_allowed, is_numeric_host, blocked, ip_allowed, is_internal, level_blocks,
}
use grabber.Ssrf.Proxied.{
  Resolver, answer, check_proxied_host, ascii_forms, check_proxied_ascii, all_allowed,
  blocked_with_embedded, embedded_ipv4,
}
use grabber.Net.Parse.{url_hostname, parse_ip, parse_ipv6}
use grabber.Net.{
  is_interface_local_multicast, is_link_local_multicast, is_link_local_unicast, is_loopback,
  is_multicast, is_private, is_unspecified, net_contains, to16,
}
use grabber.Settings.Types.{BaseTransport, ProxyFunction}
use grabber.Settings.Network.{
  hostname_of, ssrf_guard, env_dial, env_route, check_targets, target_hosts,
}
use grabber.Settings.Transport.{
  plain, guarded, base_transport, Crypto, ca_cert_pool, is_unconfigured, layer_tls, with_env_proxy,
  env_proxied, transport_for_host, round_tripper_for_host,
}
use grabber.Settings.Transport.Connection.{tls_dialed, Request, connection}
use grabber.Settings.Transport.Safety.{Reaches, round_tripper_for_host-Reaches}
use grabber.Settings.Match.{match_client_certificate, match_host, match_proxy}
use grabber.Tests.Choices.{config, url}

abbrev crypto : Crypto
crypto = record { system_pool = some none; pem_ok = λ pem. true; key_pair_ok = λ cert key. true }

abbrev env_proxy : ProxyFunction
env_proxy = λ scheme authority. ok (some url)

abbrev base : BaseTransport
base = record { proxy = some env_proxy; tls = none; own_tls = false }

abbrev resolver : Resolver
resolver = record {
  lookup_form = some;
  punycode_form = some;
  lookup = λ host. answer ((8 ∷ 8 ∷ 8 ∷ 8 ∷ []) ∷ []);
  context_done = false;
}

abbrev host : Bytes
host = codes "a.example"

abbrev request : Request
request = record {
  scheme = codes "https";
  authority = host;
  url_host = host;
  header = codes "a.example:443";
  addr = codes "git.example:3128";
  address = codes "10.0.0.1:3128";
}

guard_on : enabled (ssrf_guard config) ≡ true
unfolding ssrf_guard enabled new_guard
guard_on = refl

made :
    round_tripper_for_host crypto (some base) config host
    ≡ ok (env_proxied env_proxy false (ssrf_guard config))
unfolding round_tripper_for_host transport_for_host ssrf_guard enabled ca_cert_pool is_unconfigured
    match_client_certificate match_host is_empty layer_tls with_env_proxy match_proxy equal_fold
    new_guard
made = refl

connects :
    connection resolver (env_proxied env_proxy false (ssrf_guard config)) request ≡ some (ok tt)
unfolding connection env_dial env_route check_targets target_hosts check_proxied_host enabled
    ssrf_guard new_guard ascii_forms check_proxied_ascii host_allowed parse_ip is_numeric_host
    all_allowed blocked_with_embedded parse_ipv6 is_interface_local_multicast
    is_link_local_multicast is_link_local_unicast is_loopback is_multicast is_private is_unspecified
    net_contains to16 embedded_ipv4 blocked ip_allowed is_internal level_blocks equal_fold
    hostname_of url_hostname
connects = refl

round_tripper_for_host-Reaches_example : Reaches resolver config host base request
unfolding base_transport
round_tripper_for_host-Reaches_example =
    round_tripper_for_host-Reaches crypto (some base) config host
      (env_proxied env_proxy false (ssrf_guard config)) guard_on made resolver request connects

-- A port goes, and the brackets of a literal; a bare literal has no port.
ported : hostname_of (codes "b.example:80") ≡ codes "b.example"
unfolding hostname_of url_hostname parse_ip contains parse_ipv6 split
ported = refl

bracketed : hostname_of (codes "[::1]:80") ≡ codes "::1"
unfolding hostname_of url_hostname parse_ip contains parse_ipv6 split
bracketed = refl

bare_literal : hostname_of (codes "::ffff:a00:1") ≡ codes "::ffff:a00:1"
unfolding hostname_of url_hostname parse_ip contains parse_ipv6 split
bare_literal = refl

-- A transport with a TLS dialer of its own is not guarded for https.
own_dialer_connects :
    connection resolver
      (plain (record {
        proxy = none;
        tls = none;
        own_tls = true;
        dialing = guarded (ssrf_guard config) none;
      }))
      request
    ≡ some (ok tt)
unfolding connection tls_dialed text_eq
own_dialer_connects = refl
