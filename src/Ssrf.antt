-- ===== src/Ssrf.antt =====
-- ssrf/ssrf.go: the guard and its checks. The name resolver is a parameter.
pub mod Dialing
pub mod Proxied
pub mod Cache
pub mod Ranges
pub mod Mapped
pub mod Soundness
use grabber.Base.{
  ℕ, Bool, true, false, not, ◌&&◌, ◌||◌, List, [], ◌∷◌, ◌++◌, Option, none, some, ◌==◌, leb, ltb,
  if◌then◌else◌, length, drop, any, all, Result, ok, err,
}
use grabber.Text.{Bytes, codes, is_empty, split, contains, equal_fold, trim_space, has_prefix}
use grabber.Net.{
  Ip, IpNet, to4, ip_equal, net_contains, is_loopback, is_unspecified, is_private,
  is_link_local_unicast, is_link_local_multicast, is_interface_local_multicast, is_multicast,
}
use grabber.Net.Parse.{parse_ip, parse_cidr, split_host_port, is_digit}

pub data Level : Type 0 where
  default_level no_guard loopback internal custom : Level

pub record Guard : Type 0 where
  pub level : Level
  pub custom_test : Option (Ip → Bool)
  pub allow_hosts : List Bytes
  pub allow_ips : List Ip
  pub allow_nets : List IpNet

abbrev pub resolve_level : Level → Level
resolve_level default_level = internal
resolve_level level = level

unfoldable pub add_cidr : Option IpNet → Guard → Guard
add_cidr none g = g
add_cidr (some n) g = record g { allow_nets = g.allow_nets ++ n ∷ [] }

unfoldable pub add_host : Option Ip → Bytes → Guard → Guard
add_host none entry g = record g { allow_hosts = g.allow_hosts ++ entry ∷ [] }
add_host (some ip) entry g = record g { allow_ips = g.allow_ips ++ ip ∷ [] }

-- One round of the loop of `New`, on the trimmed entry.
unfoldable pub add_entry : Bytes → Guard → Guard
unfolding add_cidr add_host is_empty contains
add_entry entry g =
    if is_empty entry
    then g
    else if contains (codes "/") entry
    then add_cidr (parse_cidr entry) g
    else add_host (parse_ip entry) entry g

unfoldable pub add_entries : List Bytes → Guard → Guard
unfolding add_entry trim_space
add_entries [] g = g
add_entries (entry ∷ allow) g = add_entries allow (add_entry (trim_space entry) g)

-- `New`
unfoldable pub new_guard : Level → Option (Ip → Bool) → List Bytes → Guard
unfolding add_entries
new_guard level custom_test allow = add_entries allow (record {
  level = resolve_level level;
  custom_test = custom_test;
  allow_hosts = [];
  allow_ips = [];
  allow_nets = [];
})

unfoldable pub host_allowed : Guard → Bytes → Bool
host_allowed g host = any (λ h. equal_fold h host) g.allow_hosts

unfoldable pub ip_allowed : Guard → Ip → Bool
ip_allowed g ip = any (λ a. ip_equal a ip) g.allow_ips || any (λ n. net_contains n ip) g.allow_nets

unfoldable pub level_enabled : Level → Bool
level_enabled no_guard = false
level_enabled _ = true

unfoldable pub enabled : Guard → Bool
unfolding level_enabled
enabled g = level_enabled g.level

abbrev pub cgnat : IpNet
cgnat = record { ip = 100 ∷ 64 ∷ 0 ∷ 0 ∷ []; ones = 10 }

unfoldable pub is_internal : Ip → Bool
is_internal ip =
    is_loopback ip
    || is_private ip
    || net_contains cgnat ip
    || is_link_local_unicast ip
    || is_link_local_multicast ip
    || is_interface_local_multicast ip
    || is_multicast ip
    || is_unspecified ip

custom_blocks : Option (Ip → Bool) → Ip → Bool
custom_blocks none ip = false
custom_blocks (some test) ip = test ip

-- The `switch` of `Blocked`.
unfoldable pub level_blocks : Level → Option (Ip → Bool) → Ip → Bool
unfolding custom_blocks
level_blocks custom test ip = custom_blocks test ip
level_blocks loopback test ip = is_loopback ip || is_unspecified ip
level_blocks internal test ip = is_internal ip
level_blocks _ test ip = false

unfoldable pub normalize_ip : Ip → Option Ip → Ip
normalize_ip ip none = ip
normalize_ip ip (some v4) = v4

-- `Guard.Blocked`
unfoldable pub blocked : Guard → Ip → Bool
unfolding normalize_ip to4 is_empty
blocked g ip =
    if not (enabled g)
    then false
    else if is_empty ip
    then true
    else if ip_allowed g ip
    then false
    else level_blocks g.level g.custom_test (normalize_ip ip (to4 ip))

pub data GuardError : Type 0 where
  blocked_address : Bytes → Ip → GuardError
  non_canonical_literal : Bytes → GuardError
  cannot_resolve : Bytes → GuardError
  cannot_parse_dial_address : Bytes → GuardError
  invalid_host : Bytes → GuardError
  cannot_check : Bytes → GuardError

is_hex : ℕ → Bool
is_hex r =
    not ((ltb r b'0' || ltb b'9' r) && (ltb r b'a' || ltb b'f' r) && (ltb r b'A' || ltb b'F' r))

unfoldable pub is_numeric_part : Bytes → Bool
unfolding is_hex is_digit has_prefix is_empty
is_numeric_part s =
    if leb 2 (length s) && (has_prefix (codes "0x") s || has_prefix (codes "0X") s)
    then all is_hex (drop 2 s)
    else if is_empty s
    then false
    else all is_digit s

unfoldable pub is_numeric_host : Bytes → Bool
unfolding is_numeric_part split
is_numeric_host host =
    let parts = split b'.' host in if ltb 4 (length parts) then false else all is_numeric_part parts

keep_first : Ip → Ip → Ip
unfolding is_empty
keep_first first ip = if is_empty first then ip else first

-- The loop of `CheckHost` over the resolved addresses, with `firstBlocked`.
unfoldable pub first_allowed : Guard → Bytes → Ip → List Ip → Result GuardError (Unit {0})
unfolding keep_first
first_allowed g host first [] = if is_empty first then ok tt else err (blocked_address host first)
first_allowed g host first (ip ∷ addrs) =
    let rest = first_allowed g host (keep_first first ip) addrs in
    if not (blocked g ip) then ok tt else rest

check_literal : Guard → Bytes → Ip → Result GuardError (Unit {0})
check_literal g host ip = if blocked g ip then err (blocked_address host ip) else ok tt

-- The resolver's answer for a name: `none` for an error.
check_resolved : Guard → Bytes → Option (List Ip) → Result GuardError (Unit {0})
check_resolved g host none = err (cannot_resolve host)
check_resolved g host (some addrs) = first_allowed g host [] addrs

check_named : (Bytes → Option (List Ip)) → Guard → Bytes → Option Ip → Result GuardError (Unit {0})
unfolding check_literal check_resolved
check_named resolve g host (some ip) = check_literal g host ip
check_named resolve g host none =
    if is_numeric_host host
    then err (non_canonical_literal host)
    else check_resolved g host (resolve host)

-- `Guard.CheckHost`, with `net.DefaultResolver.LookupIPAddr` as `resolve`.
unfoldable pub check_host :
    (Bytes → Option (List Ip)) → Guard → Bytes → Result GuardError (Unit {0})
unfolding check_named
check_host resolve g host =
    if not (enabled g) || is_empty host || host_allowed g host
    then ok tt
    else check_named resolve g host (parse_ip host)

abbrev fst_or : Bytes → Option (Bytes × Bytes) → Bytes
fst_or d none = d
fst_or d (some (h, port)) = h

-- `hostOf`
unfoldable pub host_of : Bytes → Bytes
unfolding split_host_port
host_of addr = fst_or addr (split_host_port addr)

control_ip : Guard → Bytes → Bytes → Option Ip → Result GuardError (Unit {0})
unfolding check_literal
control_ip g address host none = err (cannot_parse_dial_address address)
control_ip g address host (some ip) = check_literal g host ip

-- `Guard.Control`, called with the resolved "ip:port" of a connection.
unfoldable pub control : Guard → Bytes → Result GuardError (Unit {0})
unfolding control_ip
control g address = control_ip g address (host_of address) (parse_ip (host_of address))

-- `ExemptHost`; `none` for the nil predicate.
unfoldable pub exempt_host : Bytes → Option (Bytes → Bool)
unfolding is_empty
exempt_host host = if is_empty host then none else some (λ addr. equal_fold (host_of addr) host)

pub exempted : Option (Bytes → Bool) → Bytes → Bool
exempted none addr = false
exempted (some exempt) addr = exempt addr

-- `Guard.DialContext`: whether a dial of `addr` that resolves to `address` may connect.
unfoldable pub dial : Guard → Option (Bytes → Bool) → Bytes → Bytes → Result GuardError (Unit {0})
unfolding exempted
dial g exempt addr address =
    if not (enabled g)
    then ok tt
    else if exempted exempt addr || host_allowed g (host_of addr)
    then ok tt
    else control g address
