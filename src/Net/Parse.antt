-- ===== src/Net/Parse.antt =====
-- `net.ParseIP`, `net.ParseCIDR`, `net.SplitHostPort` and `net.JoinHostPort`.
pub mod Lengths
pub mod Hostname
use grabber.Base.{
  ℕ, zero, suc, ◌+◌, ◌-◌, ◌*◌, ◌/◌, ◌%◌, Bool, true, false, not, ◌&&◌, ◌||◌, List, [], ◌∷◌, ◌++◌,
  Option, none, some, ◌==◌, leb, ltb, if◌then◌else◌, length, take, reverse, map,
}
use grabber.Text.{Bytes, split, cut, contains, is_empty, codes}
use grabber.Net.{Ip, to16, zeros, IpNet}

infixl 5 ◌>>=◌
abbrev ◌>>=◌ {ℓ κ} : {A : Type ℓ} {B : Type κ} → Option A → (A → Option B) → Option B
none >>= f = none
some a >>= f = f a

unfoldable pub is_digit : ℕ → Bool
is_digit c = leb b'0' c && leb c b'9'

-- Decimal digits onto a number.
unfoldable pub decimal_from : ℕ → Bytes → Option ℕ
unfolding is_digit
decimal_from acc [] = some acc
decimal_from acc (c ∷ s) =
    let rest = decimal_from (acc * 10 + (c - b'0')) s in if is_digit c then rest else none

-- One field of a dotted quad: one to three digits, no leading zero, at most 255.
parse_octet : Bytes → Option ℕ
unfolding decimal_from
parse_octet [] = none
parse_octet (c ∷ s) =
    if (c == b'0' && not (is_empty s)) || ltb 3 (length (c ∷ s))
    then none
    else decimal_from 0 (c ∷ s) >>= λ n. if leb n 255 then some n else none

octets : List Bytes → Option Ip
unfolding parse_octet
octets [] = some []
octets (w ∷ ws) = parse_octet w >>= λ n. octets ws >>= λ ip. some (n ∷ ip)

unfoldable pub parse_ipv4 : Bytes → Option Ip
unfolding octets
parse_ipv4 s = if length (split b'.' s) == 4 then octets (split b'.' s) else none

hex_digit : ℕ → Option ℕ
hex_digit c =
    if leb b'0' c && leb c b'9'
    then some (c - b'0')
    else if leb b'a' c && leb c b'f'
    then some (c - b'a' + 10)
    else if leb b'A' c && leb c b'F'
    then some (c - b'A' + 10)
    else none

hex_from : ℕ → Bytes → Option ℕ
unfolding hex_digit
hex_from acc [] = some acc
hex_from acc (c ∷ s) = hex_digit c >>= λ d. hex_from (acc * 16 + d) s

parse_group : Bytes → Option Ip
unfolding hex_from
parse_group [] = none
parse_group (c ∷ s) =
    if ltb 4 (length (c ∷ s))
    then none
    else hex_from 0 (c ∷ s) >>= λ n. some (n / 256 ∷ n % 256 ∷ [])

-- The colon-separated groups; only the last one may be a dotted quad.
groups : Bool → List Bytes → Option Ip
unfolding parse_group parse_ipv4
groups quad [] = some []
groups quad (w ∷ []) = if quad && contains (codes ".") w then parse_ipv4 w else parse_group w
groups quad (w ∷ v ∷ ws) = parse_group w >>= λ g. groups quad (v ∷ ws) >>= λ ip. some (g ++ ip)

side : Bool → Bytes → Option Ip
unfolding groups
side quad [] = some []
side quad (c ∷ s) = groups quad (split b':' (c ∷ s))

ipv6_of : Bytes → Option (Bytes × Bytes) → Option Ip
unfolding side
ipv6_of s none = groups true (split b':' s) >>= λ ip. if length ip == 16 then some ip else none
ipv6_of s (some (l, r)) = side false l >>= λ a. side true r >>= λ b.
    if leb (length a + length b) 14
    then some (a ++ zeros (16 - (length a + length b)) ++ b)
    else none

unfoldable pub parse_ipv6 : Bytes → Option Ip
unfolding ipv6_of
parse_ipv6 s = ipv6_of s (cut (codes "::") s)

-- `net.ParseIP`: sixteen bytes, `none` for nil. A zone is refused.
unfoldable pub parse_ip : Bytes → Option Ip
parse_ip s = if contains (codes ":") s then parse_ipv6 s else parse_ipv4 s >>= λ ip. some (to16 ip)

prefix_length : ℕ → Bytes → Option ℕ
unfolding decimal_from
prefix_length bits [] = none
prefix_length bits (c ∷ s) = decimal_from 0 (c ∷ s) >>= λ n. if leb n bits then some n else none

cidr_of : Option (Bytes × Bytes) → Option IpNet
unfolding prefix_length
cidr_of none = none
cidr_of (some (addr, mask)) =
    if contains (codes ":") addr
    then (parse_ipv6 addr >>= λ ip.
        prefix_length 128 mask >>= λ n. some (record { ip = ip; ones = n }))
    else (parse_ipv4 addr >>= λ ip.
        prefix_length 32 mask >>= λ n. some (record { ip = ip; ones = n }))

-- `net.ParseCIDR`. The host bits of the address stay; `net_contains` does not read them.
unfoldable pub parse_cidr : Bytes → Option IpNet
unfolding cidr_of
parse_cidr s = cidr_of (cut (codes "/") s)

-- The text before and after the last ":".
last_colon : Bytes → Option (Bytes × Bytes)
unfolding cut
last_colon s = cut (codes ":") (reverse s) >>= λ p. some (reverse p.1, reverse p.0)

brackets : Bytes → Bool
brackets s = contains (codes "[") s || contains (codes "]") s

plain_host : Option (Bytes × Bytes) → Option (Bytes × Bytes)
unfolding brackets
plain_host none = none
plain_host (some (h, port)) =
    if contains (codes ":") h || brackets h || brackets port then none else some (h, port)

bracketed_host : Option (Bytes × Bytes) → Option (Bytes × Bytes)
unfolding brackets
bracketed_host none = none
bracketed_host (some (h, [])) = none
bracketed_host (some (h, c ∷ port)) =
    if not (c == b':') || contains (codes ":") port || contains (codes "[") h || brackets port
    then none
    else some (h, port)

-- `net.SplitHostPort`: host and port, `none` for an error.
unfoldable pub split_host_port : Bytes → Option (Bytes × Bytes)
unfolding plain_host bracketed_host last_colon
split_host_port [] = none
split_host_port (c ∷ s) =
    if c == b'[' then bracketed_host (cut (codes "]") s) else plain_host (last_colon (c ∷ s))

-- `net.JoinHostPort`
unfoldable pub join_host_port : Bytes → Bytes → Bytes
unfolding contains
join_host_port h port =
    if contains (codes ":") h then codes "[" ++ h ++ codes "]:" ++ port else h ++ codes ":" ++ port

-- Whether the text after the last colon of an authority is a port, which may be empty.
pub all_digits : Bytes → Bool
unfolding is_digit
all_digits [] = true
all_digits (c ∷ s) = is_digit c && all_digits s

without_port : Bytes → Option (Bytes × Bytes) → Bytes
unfolding all_digits
without_port s none = s
without_port s (some (port, host)) = if all_digits port then reverse host else s

pub last_is : ℕ → Bytes → Bool
last_is c [] = false
last_is c (d ∷ []) = c == d
last_is c (d ∷ e ∷ s) = last_is c (e ∷ s)

init : Bytes → Bytes
init [] = []
init (c ∷ []) = []
init (c ∷ d ∷ s) = c ∷ init (d ∷ s)

without_brackets : Bytes → Bytes
unfolding last_is init
without_brackets [] = []
without_brackets (c ∷ s) = if c == b'[' && last_is b']' (c ∷ s) then init s else c ∷ s

-- `URL.Hostname` of a URL with this `Host`: the port goes, and the brackets of a literal.
unfoldable pub url_hostname : Bytes → Bytes
unfolding without_port without_brackets
url_hostname host = without_brackets (without_port host (cut (codes ":") (reverse host)))
