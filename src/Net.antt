-- ===== src/Net.antt =====
-- Go's package net, as far as the program calls it: addresses as byte slices (a nil address is
-- the empty one), their classes, networks, and the parsers of literals and of "host:port".
pub mod Parse
pub mod Contains
use grabber.Base.{
  ℕ, zero, suc, ◌+◌, ◌-◌, ◌*◌, ◌/◌, ◌%◌, ◌^◌, Bool, true, false, not, ◌&&◌, ◌||◌, List, [], ◌∷◌,
  ◌++◌, Option, none, some, ◌==◌, if◌then◌else◌, length, take, drop, is_some,
}
use grabber.Text.{Bytes, text_eq}

abbrev pub Ip : Type 0
Ip = Bytes

abbrev pub mapped_prefix : Ip
mapped_prefix = 0 ∷ 0 ∷ 0 ∷ 0 ∷ 0 ∷ 0 ∷ 0 ∷ 0 ∷ 0 ∷ 0 ∷ 255 ∷ 255 ∷ []

abbrev pub zeros : ℕ → Ip
zeros zero = []
zeros (suc n) = 0 ∷ zeros n

-- `IP.To4`; `none` for nil.
unfoldable pub to4 : Ip → Option Ip
unfolding text_eq
to4 (a ∷ b ∷ c ∷ d ∷ []) = some (a ∷ b ∷ c ∷ d ∷ [])
to4 ip = if length ip == 16 && text_eq (take 12 ip) mapped_prefix then some (drop 12 ip) else none

-- `IP.To16`; the empty address for nil.
unfoldable pub to16 : Ip → Ip
to16 ip = if length ip == 4 then mapped_prefix ++ ip else if length ip == 16 then ip else []

-- `IP.Equal`: an IPv4 address and its IPv4-mapped form are equal.
unfoldable pub ip_equal : Ip → Ip → Bool
unfolding text_eq
ip_equal a b =
    if length a == length b
    then text_eq a b
    else if length a == 4 && length b == 16
    then text_eq (mapped_prefix ++ a) b
    else length a == 16 && length b == 4 && text_eq a (mapped_prefix ++ b)

-- A test by the IPv4 form of the address if it has one, and by its sixteen bytes if not.
by_form : (Ip → Bool) → (Ip → Bool) → Ip → Option Ip → Bool
by_form v4 v6 ip (some ip4) = v4 ip4
by_form v4 v6 ip none = length ip == 16 && v6 ip

-- The byte at a position, and one bit field of it: `b & 0xf0 == 0x10` is `b / 16 == 1`.
abbrev pub at : ℕ → Ip → ℕ
at i [] = 0
at zero (b ∷ ip) = b
at (suc i) (b ∷ ip) = at i ip

unfoldable pub is_loopback : Ip → Bool
unfolding by_form to4 text_eq
is_loopback ip = by_form (λ v. at 0 v == 127) (λ v. text_eq v (zeros 15 ++ 1 ∷ [])) ip (to4 ip)

unfoldable pub is_unspecified : Ip → Bool
unfolding ip_equal
is_unspecified ip = ip_equal ip (mapped_prefix ++ zeros 4) || ip_equal ip (zeros 16)

unfoldable pub is_private : Ip → Bool
unfolding by_form to4
is_private ip =
    by_form
      (λ v. at 0 v == 10 || (at 0 v == 172 && at 1 v / 16 == 1) || (at 0 v == 192 && at 1 v == 168))
      (λ v. at 0 v / 2 == 126) ip (to4 ip)

unfoldable pub is_link_local_unicast : Ip → Bool
unfolding by_form to4
is_link_local_unicast ip =
    by_form (λ v. at 0 v == 169 && at 1 v == 254) (λ v. at 0 v == 254 && at 1 v / 64 == 2) ip
      (to4 ip)

unfoldable pub is_link_local_multicast : Ip → Bool
unfolding by_form to4
is_link_local_multicast ip =
    by_form (λ v. at 0 v == 224 && at 1 v == 0 && at 2 v == 0)
      (λ v. at 0 v == 255 && at 1 v % 16 == 2) ip (to4 ip)

unfoldable pub is_interface_local_multicast : Ip → Bool
is_interface_local_multicast ip = length ip == 16 && at 0 ip == 255 && at 1 ip % 16 == 1

unfoldable pub is_multicast : Ip → Bool
unfolding by_form to4
is_multicast ip = by_form (λ v. at 0 v / 16 == 14) (λ v. at 0 v == 255) ip (to4 ip)

-- `net.IPNet` whose mask is `ones` one bits and then zero bits, as `ParseCIDR` and `CIDRMask` give.
pub record IpNet : Type 0 where
  pub ip : Ip
  pub ones : ℕ

unfoldable pub value_from : ℕ → Ip → ℕ
value_from acc [] = acc
value_from acc (b ∷ ip) = value_from (acc * 256 + b) ip

-- The network's number and how many bits of the address lie outside it.
network_number : IpNet → Option Ip → Ip × ℕ
network_number n none = if length n.ip == 16 then (n.ip, 128 - n.ones) else ([], 0)
network_number n (some ip4) = (ip4, if length n.ip == 16 then 32 - (n.ones - 96) else 32 - n.ones)

short_form : Ip → Option Ip → Ip
short_form ip none = ip
short_form ip (some ip4) = ip4

same_network : Ip × ℕ → Ip → Bool
unfolding value_from
same_network (number, host_bits) ip =
    length ip == length number
    && value_from 0 ip / 2 ^ host_bits == value_from 0 number / 2 ^ host_bits

-- `IPNet.Contains`
unfoldable pub net_contains : IpNet → Ip → Bool
unfolding network_number short_form same_network to4
net_contains n ip = same_network (network_number n (to4 n.ip)) (short_form ip (to4 ip))
