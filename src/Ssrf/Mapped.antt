-- ===== src/Ssrf/Mapped.antt =====
-- An IPv4 address and its IPv4-mapped IPv6 form get the same verdict.
use grabber.Base.{
  ℕ, Bool, List, [], ◌∷◌, ◌++◌, ◌≡◌, refl, ◌==◌, any, length, inl, inr, Bool-cases, ==_iff,
}
use grabber.Text.{text_eq}
use grabber.Net.{Ip, IpNet, ip_equal, net_contains, mapped_prefix}
use grabber.Ssrf.{Guard, blocked, ip_allowed}

any_congr {ℓ} :
    {A : Type ℓ} (p q : A → Bool) (xs : List A) → ((x : A) → p x ≡ q x) → any p xs ≡ any q xs
any_congr p q [] h = refl
any_congr p q (x ∷ xs) h = cc (h x, any_congr p q xs h)

abbrev v4 : ℕ → ℕ → ℕ → ℕ → Ip
v4 a b c d = a ∷ b ∷ c ∷ d ∷ []

module _ (a b c d : ℕ) where
  ip_equal-mapped : (x : Ip) → ip_equal x (mapped_prefix ++ v4 a b c d) ≡ ip_equal x (v4 a b c d)
  unfolding ip_equal text_eq
  ip_equal-mapped x = elim (Bool-cases (length x == 4)) [
    | inl four ↦ let e : length x ≡ 4 = (==_iff (length x) 4).0 four in rw e
    | inr other ↦ elim (Bool-cases (length x == 16)) [
      | inl sixteen ↦ let e : length x ≡ 16 = (==_iff (length x) 16).0 sixteen in rw e
      | inr neither ↦ rw (other, neither)
    ]
  ]

  net_contains-mapped :
      (n : IpNet) → net_contains n (mapped_prefix ++ v4 a b c d) ≡ net_contains n (v4 a b c d)
  unfolding net_contains
  net_contains-mapped n = refl

  ip_allowed-mapped :
      (g : Guard) → ip_allowed g (mapped_prefix ++ v4 a b c d) ≡ ip_allowed g (v4 a b c d)
  unfolding ip_allowed
  ip_allowed-mapped g = cc (
    any_congr (λ x. ip_equal x (mapped_prefix ++ v4 a b c d)) (λ x. ip_equal x (v4 a b c d))
        g.allow_ips ip_equal-mapped,
    any_congr (λ n. net_contains n (mapped_prefix ++ v4 a b c d)) (λ n. net_contains n (v4 a b c d))
        g.allow_nets net_contains-mapped,
  )

  -- Whatever the level and the allow list, the guard judges the IPv4-mapped form of an IPv4 address
  -- as the address itself.
  pub blocked-mapped :
      (g : Guard) → blocked g (mapped_prefix ++ v4 a b c d) ≡ blocked g (v4 a b c d)
  unfolding blocked
  blocked-mapped g = rw (ip_allowed-mapped g)
