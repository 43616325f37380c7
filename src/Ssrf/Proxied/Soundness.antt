-- ===== src/Ssrf/Proxied/Soundness.antt =====
-- What the proxy-aware check establishes, and that it is stricter than the direct one.
use Prim.Native.Nat.{bit_xor}
use grabber.Base.{
  ℕ, ◌/◌, ◌^◌, ◌==◌, ◌&&◌, ◌||◌, length, sym, subst, ◌∙◌, Bool, true, false, List, [], ◌∷◌, ◌≡◌,
  ◌≢◌, ◌⊎◌, inl, inr, refl, Option, none, some, ok, Bool-cases, All, any, or-eq-false,
}
use grabber.Text.{Bytes, codes, to_lower, text_eq}
use grabber.Net.{Ip, to4, to16, value_from, net_contains}
use grabber.Net.Contains.{net_contains-wide}
use grabber.Net.Parse.{parse_ip}
use grabber.Ssrf.{
  Level, default_level, no_guard, loopback, internal, custom, Guard, host_allowed, ip_allowed,
  blocked, is_numeric_host,
}
use grabber.Ssrf.Proxied.{
  Lookup, answer, not_found, failed, Resolver, blocked_with_embedded, all_allowed, check_answer,
  check_proxied_ascii, check_proxied_named, check_proxied_literal, lookup_failure_allowed,
  embedded_ipv4, nat64_local, no_ipv4, is_internal_level,
}

-- The IPv4 addresses inside an IPv6 address of sixteen bytes: NAT64, 6to4, the server and the
-- client of Teredo, and IPv4-compatible.
pub data Carries (ip v4 : Ip) : Type 0 where
  nat64 :
      (a b c d : ℕ)
      → v4 ≡ a ∷ b ∷ c ∷ d ∷ []
      → ip ≡ 0 ∷ 0x64 ∷ 0xff ∷ 0x9b ∷ 0 ∷ 0 ∷ 0 ∷ 0 ∷ 0 ∷ 0 ∷ 0 ∷ 0 ∷ a ∷ b ∷ c ∷ d ∷ []
      → Carries ip v4
  six_to_four :
      (a b c d e f h i j k l m n o : ℕ)
      → v4 ≡ a ∷ b ∷ c ∷ d ∷ []
      → ip ≡ 0x20 ∷ 2 ∷ a ∷ b ∷ c ∷ d ∷ e ∷ f ∷ h ∷ i ∷ j ∷ k ∷ l ∷ m ∷ n ∷ o ∷ []
      → Carries ip v4
  teredo_server :
      (a b c d e f h i w x y z : ℕ)
      → v4 ≡ a ∷ b ∷ c ∷ d ∷ []
      → ip ≡ 0x20 ∷ 1 ∷ 0 ∷ 0 ∷ a ∷ b ∷ c ∷ d ∷ e ∷ f ∷ h ∷ i ∷ w ∷ x ∷ y ∷ z ∷ []
      → Carries ip v4
  teredo_client :
      (a b c d e f h i w x y z : ℕ)
      → v4 ≡ bit_xor w 0xff ∷ bit_xor x 0xff ∷ bit_xor y 0xff ∷ bit_xor z 0xff ∷ []
      → ip ≡ 0x20 ∷ 1 ∷ 0 ∷ 0 ∷ a ∷ b ∷ c ∷ d ∷ e ∷ f ∷ h ∷ i ∷ w ∷ x ∷ y ∷ z ∷ []
      → Carries ip v4
  compatible :
      (a b c d : ℕ)
      → v4 ≡ a ∷ b ∷ c ∷ d ∷ []
      → ip ≡ 0 ∷ 0 ∷ 0 ∷ 0 ∷ 0 ∷ 0 ∷ 0 ∷ 0 ∷ 0 ∷ 0 ∷ 0 ∷ 0 ∷ a ∷ b ∷ c ∷ d ∷ []
      → Carries ip v4

embedded-Carries : (P : Ip → Type 0) (ip v4 : Ip) → All P (embedded_ipv4 ip) → Carries ip v4 → P v4
unfolding embedded_ipv4
embedded-Carries P ip v4 h (nat64 a b c d v e) = subst P (sym v) ((rw e at h).0)
embedded-Carries P ip v4 h (six_to_four a b c d e f k i j l m n o q v eq) =
    subst P (sym v) ((rw eq at h).0)
embedded-Carries P ip v4 h (teredo_server a b c d e f k i w x y z v eq) =
    subst P (sym v) ((rw eq at h).0)
embedded-Carries P ip v4 h (teredo_client a b c d e f k i w x y z v eq) =
    subst P (sym v) ((rw eq at h).1.0)
embedded-Carries P ip v4 h (compatible a b c d v e) = subst P (sym v) ((rw e at h).0)

-- An address whose first 48 bits are those of 64:ff9b:1::/48.
is_local_form : Ip → Option Ip → Bool
is_local_form ip (some v4) = false
is_local_form ip none = length ip == 16 && value_from 0 ip / 2 ^ 80 == 0x64ff9b0001

pub is_local_nat64 : Ip → Bool
unfolding is_local_form
is_local_nat64 ip = is_local_form ip (to4 ip)

local-eq : (ip : Ip) → (no_ipv4 (to4 ip) && net_contains nat64_local ip) ≡ is_local_nat64 ip
unfolding is_local_nat64 no_ipv4
local-eq ip = by_form (to4 ip) refl
  where
    by_form :
        (o : Option Ip)
        → to4 ip ≡ o
        → (no_ipv4 o && net_contains nat64_local ip) ≡ is_local_form ip o
    by_form none e =
        unfold is_local_form value_from in
        net_contains-wide nat64_local ip refl (unfold to4 text_eq in refl) e
    by_form (some v) e = unfold is_local_form in refl

-- An address that a proxy may be sent to: it is on the allow list, or neither it nor an IPv4
-- address inside it is blocked, nor is it a local NAT64 address while internal ones are blocked.
pub data IsClear (g : Guard) (ip : Ip) : Type 0 where
  listed : ip_allowed g ip ≡ true → IsClear g ip
  open_address :
      blocked g ip ≡ false
      → (g.level ≢ internal) ⊎ (is_local_nat64 ip ≡ false)
      → ((v4 : Ip) → Carries (to16 ip) v4 → blocked g v4 ≡ false)
      → IsClear g ip

any-eq-false : (p : Ip → Bool) (xs : List Ip) → any p xs ≡ false → All (λ x. p x ≡ false) xs
any-eq-false p [] h = tt
any-eq-false p (x ∷ xs) h =
    let (e, es) = or-eq-false (p x) (any p xs) h in (e, any-eq-false p xs es)

not_local :
    (level : Level) (ip : Ip)
    → (is_internal_level level && no_ipv4 (to4 ip) && net_contains nat64_local ip) ≡ false
    → (level ≢ internal) ⊎ (is_local_nat64 ip ≡ false)
unfolding is_internal_level
not_local internal ip h = inr (sym (local-eq ip) ∙ h)
not_local default_level ip h = inl (λ e. cc e)
not_local no_guard ip h = inl (λ e. cc e)
not_local loopback ip h = inl (λ e. cc e)
not_local custom ip h = inl (λ e. cc e)

blocked_with_embedded-IsClear :
    (g : Guard) (ip : Ip) → blocked_with_embedded g ip ≡ false → IsClear g ip
unfolding blocked_with_embedded
blocked_with_embedded-IsClear g ip h = elim (Bool-cases (ip_allowed g ip)) [
  | inl a ↦ listed a
  | inr n ↦
      elim (Bool-cases (
        blocked g ip
        || (is_internal_level g.level && no_ipv4 (to4 ip) && net_contains nat64_local ip))) [
          | inl b ↦ absurd (cc (rw (n, b) at h))
          | inr f ↦
              let (b, l) = or-eq-false (blocked g ip) _ f in
              let inside = any-eq-false (blocked g) (embedded_ipv4 (to16 ip)) (rw (n, f) at h) in
              open_address b (not_local g.level ip l)
                (λ v4 c. embedded-Carries (λ v. blocked g v ≡ false) (to16 ip) v4 inside c)
        ]
]

all_allowed-IsClear :
    (g : Guard) (host : Bytes) (addrs : List Ip)
    → all_allowed g host addrs ≡ ok tt
    → All (IsClear g) addrs
unfolding all_allowed
all_allowed-IsClear g host [] h = tt
all_allowed-IsClear g host (ip ∷ addrs) h = elim (Bool-cases (blocked_with_embedded g ip)) [
  | inl b ↦ absurd (cc (rw b at h))
  | inr f ↦ (blocked_with_embedded-IsClear g ip f, all_allowed-IsClear g host addrs (rw f at h))
]

-- Why the check of one ASCII spelling may pass.
pub data ProxiedPermitted (r : Resolver) (g : Guard) (host : Bytes) : Type 0 where
  by_name : host_allowed g host ≡ true → ProxiedPermitted r g host
  literal : (ip : Ip) → parse_ip host ≡ some ip → IsClear g ip → ProxiedPermitted r g host
  every_address :
      (addrs : List Ip)
      → parse_ip host ≡ none
      → is_numeric_host host ≡ false
      → r.lookup (to_lower host) ≡ answer addrs
      → All (IsClear g) addrs
      → ProxiedPermitted r g host
  unknown :
      is_numeric_host host ≡ false
      → r.lookup (to_lower host) ≡ not_found
      → ProxiedPermitted r g host
  no_dns :
      is_numeric_host host ≡ false
      → r.lookup (to_lower host) ≡ failed
      → (r.context_done ≡ true) ⊎ ((a : List Ip) → r.lookup (codes "example.com.") ≢ answer a)
      → ProxiedPermitted r g host

answered-ProxiedPermitted :
    (r : Resolver) (g : Guard) (host : Bytes) (result : Lookup)
    → parse_ip host ≡ none
    → is_numeric_host host ≡ false
    → r.lookup (to_lower host) ≡ result
    → check_answer r g host result ≡ ok tt
    → ProxiedPermitted r g host
unfolding check_answer lookup_failure_allowed
answered-ProxiedPermitted r g host (answer addrs) p n e h =
    every_address addrs p n e (all_allowed-IsClear g host addrs h)
answered-ProxiedPermitted r g host not_found p n e h = unknown n e
answered-ProxiedPermitted r g host failed p n e h = no_dns n e (elim (Bool-cases r.context_done) [
  | inl done ↦ inl done
  | inr running ↦ inr (λ a probe. cc (rw (running, probe) at h))
])

named-ProxiedPermitted :
    (r : Resolver) (g : Guard) (host : Bytes) (parsed : Option Ip)
    → parse_ip host ≡ parsed
    → check_proxied_named r g host parsed ≡ ok tt
    → ProxiedPermitted r g host
unfolding check_proxied_named check_proxied_literal
named-ProxiedPermitted r g host (some ip) e h = elim (Bool-cases (blocked_with_embedded g ip)) [
  | inl b ↦ absurd (cc (rw b at h))
  | inr f ↦ literal ip e (blocked_with_embedded-IsClear g ip f)
]
named-ProxiedPermitted r g host none e h = elim (Bool-cases (is_numeric_host host)) [
  | inl num ↦ absurd (cc (rw num at h))
  | inr name ↦
      answered-ProxiedPermitted r g host (r.lookup (to_lower host)) e name refl (rw name at h)
]

-- A spelling that passes the proxy-aware check is on the allow list, a clear literal, a name all of
-- whose addresses are clear, a name that the resolver does not know, or one that could not be
-- looked up because the request is over or no name can be.
pub check_proxied_ascii-ProxiedPermitted :
    (r : Resolver) (g : Guard) (host : Bytes)
    → check_proxied_ascii r g host ≡ ok tt
    → ProxiedPermitted r g host
unfolding check_proxied_ascii
check_proxied_ascii-ProxiedPermitted r g host h = elim (Bool-cases (host_allowed g host)) [
  | inl free ↦ by_name free
  | inr other ↦ named-ProxiedPermitted r g host (parse_ip host) refl (rw other at h)
]
