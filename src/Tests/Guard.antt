-- ===== src/Tests/Guard.antt =====
-- The guard's theorems at concrete hosts and addresses.
use grabber.Base.{
  ◌+◌, false, List, [], ◌∷◌, ◌++◌, true, ◌≡◌, ◌↔◌, refl, Option, none, some, ok, All, arith,
  if◌then◌else◌, ltb,
}
use grabber.Text.{
  Bytes, codes, to_lower, text_eq, is_empty, equal_fold, contains, split, cut, has_prefix,
  has_suffix,
}
use grabber.Net.{
  Ip, mapped_prefix, is_loopback, is_private, net_contains, ip_equal, is_interface_local_multicast,
  is_link_local_multicast, is_link_local_unicast, is_multicast, is_unspecified, to16, to4,
  value_from,
}
use grabber.Net.Parse.{parse_ip, parse_ipv4, parse_ipv6, decimal_from, is_digit}
use grabber.Ssrf.{
  Guard, internal, is_internal, blocked, check_host, dial, enabled, host_allowed, ip_allowed,
  is_numeric_host, first_allowed, level_blocks, is_numeric_part,
}
use grabber.Ssrf.Ranges.{quad, is_reserved, is_internal-is_reserved}
use grabber.Ssrf.Mapped.{blocked-mapped}
use grabber.Ssrf.Soundness.{Permitted, check_host-Permitted}
use grabber.Ssrf.Dialing.{DialPermitted, dial_iff}
use grabber.Ssrf.Proxied.{
  is_ascii, ascii_forms, check_proxied_host, answer, Resolver, check_proxied_ascii, all_allowed,
  blocked_with_embedded, embedded_ipv4, check_answer, check_proxied_named, lookup_failure_allowed,
}
use grabber.Ssrf.Proxied.Stricter.{check_host_of_check_proxied_host}
use grabber.Ssrf.Cache.{LookupCache, hit, start_call, ttl, lookup, run, reset}
use grabber.Ssrf.Cache.Laws.{IsBounded, cache-IsBounded, lookup-run}

abbrev guard : Guard
guard = record {
  level = internal;
  custom_test = none;
  allow_hosts = codes "intranet" ∷ [];
  allow_ips = [];
  allow_nets = [];
}

abbrev public_ip : Ip
public_ip = 8 ∷ 8 ∷ 8 ∷ 8 ∷ []

abbrev resolve : Bytes → Option (List Ip)
resolve host = some (public_ip ∷ [])

abbrev resolver : Resolver
resolver = record {
  lookup_form = some;
  punycode_form = some;
  lookup = λ host. answer (public_ip ∷ []);
  context_done = false;
}

direct_passes : check_host resolve guard (codes "a.example") ≡ ok tt
unfolding check_host host_allowed equal_fold parse_ip contains parse_ipv4 split is_numeric_host
    first_allowed blocked ip_allowed level_blocks is_internal is_loopback is_private net_contains
    decimal_from is_digit parse_ipv6 ip_equal is_interface_local_multicast is_link_local_multicast
    is_link_local_unicast is_multicast is_unspecified to16 to4 value_from is_numeric_part cut
    has_prefix text_eq is_empty enabled
direct_passes = refl

check_host-Permitted_example : Permitted resolve guard (codes "a.example")
check_host-Permitted_example = check_host-Permitted resolve guard (codes "a.example") direct_passes

dial_iff_example :
    (dial guard none (codes "a.example:80") (codes "8.8.8.8:80") ≡ ok tt)
    ↔ DialPermitted guard none (codes "a.example:80") (codes "8.8.8.8:80")
dial_iff_example = dial_iff guard none (codes "a.example:80") (codes "8.8.8.8:80")

proxied_passes : check_proxied_host resolver guard (codes "a.example") ≡ ok tt
unfolding check_proxied_host ascii_forms check_proxied_ascii host_allowed equal_fold parse_ip
    contains parse_ipv4 split is_numeric_host first_allowed blocked ip_allowed level_blocks
    is_internal is_loopback is_private net_contains decimal_from is_digit parse_ipv6 ip_equal
    is_interface_local_multicast is_link_local_multicast is_link_local_unicast is_multicast
    is_unspecified to16 to4 value_from is_numeric_part cut has_prefix text_eq is_empty enabled
    to_lower all_allowed blocked_with_embedded embedded_ipv4 check_answer check_proxied_named
    lookup_failure_allowed
proxied_passes = refl

not_nil : All (λ ip. is_empty ip ≡ false) (public_ip ∷ [])
unfolding is_empty
not_nil = (refl, tt)

ascii_host : is_ascii (codes "a.example") ≡ true
unfolding is_ascii
ascii_host = refl

no_last_dot : has_suffix (codes ".") (codes "a.example") ≡ false
unfolding has_suffix
no_last_dot = refl

check_host_of_check_proxied_host_example : check_host resolve guard (codes "a.example") ≡ ok tt
check_host_of_check_proxied_host_example =
    check_host_of_check_proxied_host resolve resolver guard (codes "a.example") (public_ip ∷ [])
      ascii_host no_last_dot refl refl not_nil proxied_passes

is_internal-is_reserved_example :
    is_internal (172 ∷ 31 ∷ 255 ∷ 254 ∷ []) ≡ is_reserved (quad 172 31 255 254)
is_internal-is_reserved_example =
    is_internal-is_reserved 172 31 255 254 (omega arith) (omega arith) (omega arith) (omega arith)

blocked-mapped_example :
    blocked guard (mapped_prefix ++ 10 ∷ 0 ∷ 0 ∷ 1 ∷ []) ≡ blocked guard (10 ∷ 0 ∷ 0 ∷ 1 ∷ [])
blocked-mapped_example = blocked-mapped 10 0 0 1 guard

abbrev empty_cache : LookupCache
empty_cache = record { entries = []; inflight = []; next_call = 0 }

empty-IsBounded : IsBounded empty_cache
empty-IsBounded = omega arith

cache-IsBounded_example :
    IsBounded (lookup empty_cache 5 (codes "a")).0
    × IsBounded (run empty_cache 5 (codes "a") (answer (public_ip ∷ [])))
    × IsBounded (reset empty_cache)
cache-IsBounded_example =
    cache-IsBounded empty_cache 5 (codes "a") (answer (public_ip ∷ [])) empty-IsBounded

lookup-run_example :
    (lookup (run empty_cache 5 (codes "a") (answer (public_ip ∷ []))) 9 (codes "a")).1 ≡ (
      if ltb 9 (5 + ttl (answer (public_ip ∷ [])))
      then hit (answer (public_ip ∷ []))
      else start_call 0)
lookup-run_example = lookup-run empty_cache 5 9 (codes "a") (answer (public_ip ∷ []))
