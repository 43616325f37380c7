-- ===== src/Tests/Addresses.antt =====
-- Parsing addresses.
use grabber.Base.{◌≡◌, refl, some, none, true, false, [], ◌∷◌, ◌++◌}
use grabber.Text.{codes, is_empty, contains, cut, split}
use grabber.Net.{to4, to16, mapped_prefix, zeros, net_contains, IpNet}
use grabber.Net.Parse.{parse_ip, parse_ipv4, parse_ipv6, parse_cidr, split_host_port}

literals :
    (parse_ip (codes "10.0.0.1") ≡ some (mapped_prefix ++ 10 ∷ 0 ∷ 0 ∷ 1 ∷ []))
    × (parse_ip (codes "::1") ≡ some (zeros 15 ++ 1 ∷ []))
    × (parse_ip (codes "64:ff9b::a00:1")
        ≡ some (0 ∷ 100 ∷ 255 ∷ 155 ∷ zeros 8 ++ 10 ∷ 0 ∷ 0 ∷ 1 ∷ []))
    × (parse_ip (codes "::ffff:127.0.0.1") ≡ some (mapped_prefix ++ 127 ∷ 0 ∷ 0 ∷ 1 ∷ []))
    × (parse_ip (codes "127.1") ≡ none)
    × (parse_ip (codes "0177.0.0.1") ≡ none)
    × (parse_ip (codes "1:2:3:4:5:6:7") ≡ none)
    × (parse_ip (codes ":::1") ≡ none)
unfolding parse_ip parse_ipv4 parse_ipv6 contains cut to16 is_empty split
literals = (refl, refl, refl, refl, refl, refl, refl, refl)

authorities :
    (split_host_port (codes "example.com:443") ≡ some (codes "example.com", codes "443"))
    × (split_host_port (codes "[::1]:80") ≡ some (codes "::1", codes "80"))
    × (split_host_port (codes "::1") ≡ none)
    × (split_host_port (codes "example.com") ≡ none)
unfolding split_host_port contains cut
authorities = (refl, refl, refl, refl)

cgn : IpNet
cgn = record { ip = 100 ∷ 64 ∷ 0 ∷ 0 ∷ []; ones = 10 }

networks :
    (parse_cidr (codes "100.64.0.0/10") ≡ some cgn)
    × (net_contains cgn (100 ∷ 127 ∷ 3 ∷ 4 ∷ []) ≡ true)
    × (net_contains cgn (mapped_prefix ++ 100 ∷ 64 ∷ 3 ∷ 4 ∷ []) ≡ true)
    × (net_contains cgn (100 ∷ 128 ∷ 3 ∷ 4 ∷ []) ≡ false)
unfolding parse_cidr parse_ipv4 parse_ipv6 contains cut net_contains cgn to4 is_empty split
networks = (refl, refl, refl, refl)
