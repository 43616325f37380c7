-- ===== src/Ssrf/Proxied.antt =====
-- ssrf/proxied.go: the check of a target that a proxy will connect to. Package idna's two
-- conversions, the cached resolver and the state of the request's context are parameters.
pub mod Dotted
pub mod Forms
pub mod Soundness
pub mod Stricter
use Prim.Native.Nat.{bit_xor}
use grabber.Base.{
  ℕ, ◌+◌, ◌-◌, Bool, true, false, not, ◌&&◌, ◌||◌, List, [], ◌∷◌, ◌++◌, map, Option, none, some,
  ◌==◌, leb, ltb, if◌then◌else◌, length, take, drop, any, all, Result, ok, err, ◌>>=◌, ◌>>◌,
}
use grabber.Text.{
  Bytes, codes, text_eq, is_empty, contains, has_prefix, has_suffix, trim_suffix, to_lower,
}
use grabber.Net.{Ip, IpNet, to4, to16, net_contains, zeros}
use grabber.Net.Parse.{parse_ip}
use grabber.Ssrf.{
  Level, internal, Guard, GuardError, blocked_address, non_canonical_literal, invalid_host,
  cannot_check, enabled, host_allowed, ip_allowed, blocked, is_numeric_host,
}

-- What a lookup through the cache says.
pub data Lookup : Type 0 where
  answer : List Ip → Lookup
  not_found failed : Lookup

pub record Resolver : Type 0 where
  pub lookup_form : Bytes → Option Bytes
  pub punycode_form : Bytes → Option Bytes
  pub lookup : Bytes → Lookup
  pub context_done : Bool

unfoldable pub is_ascii : Bytes → Bool
is_ascii = all (λ c. ltb c 0x80)

unconverted : Resolver → Bytes → Option Bytes → Result GuardError (List Bytes)
unconverted r host none = err (invalid_host host)
unconverted r host (some form) = ok (form ∷ [])

second_form : Bytes → Bytes → Option Bytes → Result GuardError (List Bytes)
second_form host form none = err (invalid_host host)
second_form host form (some puny) =
    ok (if not (text_eq puny form) then form ∷ puny ∷ [] else form ∷ [])

both_forms : Resolver → Bytes → Option Bytes → Result GuardError (List Bytes)
unfolding second_form text_eq
both_forms r host none = err (invalid_host host)
both_forms r host (some form) = second_form host form (r.punycode_form host)

-- One round of the loop of `asciiForms`: the trailing dot goes, and no label may be empty.
unfoldable pub normal_form : Bytes → Result GuardError Bytes
unfolding trim_suffix has_prefix has_suffix contains
normal_form form =
    let form' = if ltb 1 (length form) then trim_suffix (codes ".") form else form in
    if has_prefix (codes ".") form' || has_suffix (codes ".") form' || contains (codes "..") form'
    then err (invalid_host form')
    else ok form'

normal_forms : List Bytes → Result GuardError (List Bytes)
unfolding normal_form
normal_forms [] = ok []
normal_forms (form ∷ forms) = normal_form form >>= λ f. normal_forms forms >>= λ fs. ok (f ∷ fs)

-- `asciiForms`
unfoldable pub ascii_forms : Resolver → Bytes → Result GuardError (List Bytes)
unfolding is_ascii both_forms normal_forms
ascii_forms r host =
    (if is_ascii host then ok (host ∷ []) else both_forms r host (r.lookup_form host))
    >>= normal_forms

is_answer : Lookup → Bool
is_answer (answer addrs) = true
is_answer _ = false

-- `lookupFailureAllowed`: the name is unknown, or a well-known name has no answer either.
unfoldable pub lookup_failure_allowed : Resolver → Lookup → Bool
unfolding is_answer
lookup_failure_allowed r not_found = true
lookup_failure_allowed r _ = not (is_answer (r.lookup (codes "example.com.")))

flip : ℕ → ℕ
flip b = bit_xor b 0xff

-- `embeddedIPv4` on the sixteen bytes of an address that is not IPv4-mapped.
embedded_in : Ip → List Ip
unfolding flip text_eq
embedded_in ip =
    if text_eq (take 12 ip) (0 ∷ 0x64 ∷ 0xff ∷ 0x9b ∷ zeros 8)
    then drop 12 ip ∷ []
    else if text_eq (take 2 ip) (0x20 ∷ 0x02 ∷ [])
    then take 4 (drop 2 ip) ∷ []
    else if text_eq (take 4 ip) (0x20 ∷ 0x01 ∷ 0 ∷ 0 ∷ [])
    then take 4 (drop 4 ip) ∷ map flip (drop 12 ip) ∷ []
    else if text_eq (take 12 ip) (zeros 12)
    then drop 12 ip ∷ []
    else []

unmapped : Ip → Option Ip → List Ip
unfolding embedded_in
unmapped ip (some v4) = []
unmapped ip none = embedded_in ip

unfoldable pub embedded_ipv4 : Ip → List Ip
unfolding unmapped to4
embedded_ipv4 ip = if not (length ip == 16) then [] else unmapped ip (to4 ip)

abbrev pub nat64_local : IpNet
nat64_local = record { ip = 0 ∷ 0x64 ∷ 0xff ∷ 0x9b ∷ 0 ∷ 1 ∷ zeros 10; ones = 48 }

is_internal_level : Level → Bool
is_internal_level internal = true
is_internal_level _ = false

no_ipv4 : Option Ip → Bool
no_ipv4 none = true
no_ipv4 (some v4) = false

-- `Guard.blockedWithEmbedded`
unfoldable pub blocked_with_embedded : Guard → Ip → Bool
unfolding is_internal_level no_ipv4
blocked_with_embedded g ip =
    if ip_allowed g ip
    then false
    else if blocked g ip
        || (is_internal_level g.level && no_ipv4 (to4 ip) && net_contains nat64_local ip)
    then true
    else any (blocked g) (embedded_ipv4 (to16 ip))

unfoldable pub check_proxied_literal : Guard → Bytes → Ip → Result GuardError (Unit {0})
check_proxied_literal g host ip =
    if blocked_with_embedded g ip then err (blocked_address host ip) else ok tt

-- The loop over the resolved addresses: one that is blocked refuses the name.
unfoldable pub all_allowed : Guard → Bytes → List Ip → Result GuardError (Unit {0})
all_allowed g host [] = ok tt
all_allowed g host (ip ∷ addrs) =
    let rest = all_allowed g host addrs in
    if blocked_with_embedded g ip then err (blocked_address host ip) else rest

unfoldable pub check_answer : Resolver → Guard → Bytes → Lookup → Result GuardError (Unit {0})
check_answer r g host (answer addrs) = all_allowed g host addrs
check_answer r g host failure =
    if not r.context_done && not (lookup_failure_allowed r failure)
    then err (cannot_check host)
    else ok tt

unfoldable pub check_proxied_named :
    Resolver → Guard → Bytes → Option Ip → Result GuardError (Unit {0})
unfolding check_proxied_literal check_answer
check_proxied_named r g host (some ip) = check_proxied_literal g host ip
check_proxied_named r g host none =
    if is_numeric_host host
    then err (non_canonical_literal host)
    else check_answer r g host (r.lookup (to_lower host))

-- `Guard.checkProxiedASCII`
unfoldable pub check_proxied_ascii : Resolver → Guard → Bytes → Result GuardError (Unit {0})
unfolding check_proxied_named
check_proxied_ascii r g host =
    if host_allowed g host then ok tt else check_proxied_named r g host (parse_ip host)

check_forms : Resolver → Guard → List Bytes → Result GuardError (Unit {0})
check_forms r g [] = ok tt
check_forms r g (form ∷ forms) = check_proxied_ascii r g form >> check_forms r g forms

-- `Guard.CheckProxiedHost`
unfoldable pub check_proxied_host : Resolver → Guard → Bytes → Result GuardError (Unit {0})
unfolding check_forms
check_proxied_host r g host =
    if not (enabled g) || is_empty host then ok tt else ascii_forms r host >>= check_forms r g
