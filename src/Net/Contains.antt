-- ===== src/Net/Contains.antt =====
-- Which addresses an IPv6 network of package net contains.
use grabber.Base.{true, ◌&&◌, ◌-◌, ◌/◌, ◌^◌, ◌==◌, ◌≡◌, refl, none, length}
use grabber.Net.{Ip, IpNet, to4, value_from, net_contains, network_number, short_form, same_network}

-- An address that has no IPv4 form lies in an IPv6 network if their leading bits are the same.
pub net_contains-wide :
    (n : IpNet) (ip : Ip)
    → (length n.ip == 16) ≡ true
    → to4 n.ip ≡ none
    → to4 ip ≡ none
    → net_contains n ip ≡ (
        length ip == length n.ip
        && value_from 0 ip / 2 ^ (128 - n.ones) == value_from 0 n.ip / 2 ^ (128 - n.ones))
unfolding net_contains network_number short_form same_network
net_contains-wide n ip wide net_wide ip_wide = rw (net_wide, ip_wide, wide) refl
