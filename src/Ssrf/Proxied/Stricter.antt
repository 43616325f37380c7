-- ===== src/Ssrf/Proxied/Stricter.antt =====
-- The proxy-aware check is stricter than the direct one.
use grabber.Base.{
  true, ◌⊎◌, inl, inr, ◌++◌, sym, reverse, reverse-append, false, List, [], ◌∷◌, ◌≡◌, refl, subst,
  arith, Option, some, ok, All,
}
use grabber.Text.{Bytes, codes, has_suffix, is_empty, to_lower}
use grabber.Text.Laws.{has_prefix-append}
use grabber.Net.{Ip}
use grabber.Net.Parse.Lengths.{parse_ip-not_empty}
use grabber.Ssrf.{Guard, blocked, check_host, first_allowed}
use grabber.Ssrf.Proxied.{answer, Resolver, is_ascii, check_proxied_host}
use grabber.Ssrf.Proxied.Forms.{
  HostPermitted, off, no_host, ascii, both_passed, check_proxied_host-HostPermitted,
}
use grabber.Ssrf.Proxied.Soundness.{
  IsClear, listed, open_address, ProxiedPermitted, by_name, literal, every_address, unknown, no_dns,
}

IsClear-blocked : (g : Guard) (ip : Ip) → is_empty ip ≡ false → IsClear g ip → blocked g ip ≡ false
unfolding blocked
IsClear-blocked g ip full (listed a) = rw (full, a) (ground arith)
IsClear-blocked g ip full (open_address b _ _) = b

first_allowed_of_IsClear :
    (g : Guard) (host : Bytes) (addrs : List Ip)
    → All (λ ip. is_empty ip ≡ false) addrs
    → All (IsClear g) addrs
    → first_allowed g host [] addrs ≡ ok tt
unfolding first_allowed
first_allowed_of_IsClear g host [] full clear = unfold is_empty in refl
first_allowed_of_IsClear g host (ip ∷ addrs) (f, _) (c, _) = rw (IsClear-blocked g ip f c)

check_host_of_ProxiedPermitted :
    (resolve : Bytes → Option (List Ip)) (r : Resolver) (g : Guard) (host : Bytes) (addrs : List Ip)
    → r.lookup (to_lower host) ≡ answer addrs
    → resolve host ≡ some addrs
    → All (λ ip. is_empty ip ≡ false) addrs
    → ProxiedPermitted r g host
    → check_host resolve g host ≡ ok tt
unfolding check_host
check_host_of_ProxiedPermitted resolve r g host addrs same found full (by_name free) =
    rw free (ground arith)
check_host_of_ProxiedPermitted resolve r g host addrs same found full (literal ip e c) =
    rw e (ground (arith, IsClear-blocked g ip (parse_ip-not_empty host ip e) c))
check_host_of_ProxiedPermitted resolve r g host addrs same found full
      (every_address answered none_parsed name e c) =
    let one : answered ≡ addrs = cc in
    let passed = first_allowed_of_IsClear g host addrs full (subst (All (IsClear g)) one c) in
    rw (none_parsed, name, found) (ground arith)
check_host_of_ProxiedPermitted resolve r g host addrs same found full (unknown name e) = absurd (cc)
check_host_of_ProxiedPermitted resolve r g host addrs same found full (no_dns name e w) =
    absurd (cc)

ends_in_dot : (name : Bytes) → has_suffix (codes ".") (name ++ codes ".") ≡ true
unfolding has_suffix
ends_in_dot name =
    rw (reverse-append name (codes ".")) (has_prefix-append (codes ".") (reverse name))

-- For an ASCII host with no trailing dot and on the same answer of the resolver, with no nil
-- address in it: a host that the proxy-aware check lets through is let through by the direct check.
pub check_host_of_check_proxied_host :
    (resolve : Bytes → Option (List Ip)) (r : Resolver) (g : Guard) (host : Bytes) (addrs : List Ip)
    → is_ascii host ≡ true
    → has_suffix (codes ".") host ≡ false
    → r.lookup (to_lower host) ≡ answer addrs
    → resolve host ≡ some addrs
    → All (λ ip. is_empty ip ≡ false) addrs
    → check_proxied_host r g host ≡ ok tt
    → check_host resolve g host ≡ ok tt
unfolding check_host
check_host_of_check_proxied_host resolve r g host addrs plain no_dot same found full h =
    by_cases (check_proxied_host-HostPermitted r g host h).0
  where
    of_name :
        (name : Bytes)
        → (host ≡ name) ⊎ (host ≡ name ++ codes ".")
        → ProxiedPermitted r g name
        → check_host resolve g host ≡ ok tt
    of_name name (inl e) p =
        check_host_of_ProxiedPermitted resolve r g host addrs same found full
          (subst (ProxiedPermitted r g) (sym e) p)
    of_name name (inr e) p =
        let dotted = ends_in_dot name in let kept = rw e at no_dot in absurd (cc)

    by_cases : HostPermitted r g host → check_host resolve g host ≡ ok tt
    by_cases (off e) = rw e refl
    by_cases (no_host e) = rw e (ground arith)
    by_cases (ascii e p) = of_name p.name p.spelled p.permitted
    by_cases (both_passed lookup puny n e f p q) = absurd (cc)
