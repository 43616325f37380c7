-- ===== src/Net/Parse/Lengths.antt =====
-- A parsed address has sixteen bytes.
use grabber.Base.{
  ℕ, zero, suc, ◌+◌, ◌-◌, true, false, List, [], ◌∷◌, ◌++◌, ◌≡◌, refl, ap, ◌∙◌, arith, Option, none,
  some, Bool-cases, length, length-append, inl, inr, ==_iff, leb→le, leb, ◌==◌,
}
use grabber.Text.{Bytes, split, cut, contains, codes, is_empty}
use grabber.Net.{Ip, to16, zeros, mapped_prefix}
use grabber.Net.Parse.{
  ◌>>=◌, parse_octet, octets, parse_ipv4, side, groups, ipv6_of, parse_ipv6, parse_ip,
}

length-zeros : (n : ℕ) → length (zeros n) ≡ n
length-zeros zero = refl
length-zeros (suc n) = ap suc (length-zeros n)

bind-eq-some {ℓ κ} :
    {A : Type ℓ} {B : Type κ} (m : Option A) (f : A → Option B) {b : B}
    → (m >>= f) ≡ some b
    → (a : A) × (m ≡ some a) × (f a ≡ some b)
bind-eq-some none f h = absurd (cc h)
bind-eq-some (some a) f h = (a, refl, h)

some_inj {ℓ} : {A : Type ℓ} (a b : A) → some a ≡ some b → a ≡ b
some_inj a b h = cc

length-octets : (ws : List Bytes) (ip : Ip) → octets ws ≡ some ip → length ip ≡ length ws
unfolding octets
length-octets [] ip h = rw (← some_inj [] ip h)
length-octets (w ∷ ws) ip h =
    let (n, _, k) = bind-eq-some (parse_octet w) _ h in
    let (rest, e, k') = bind-eq-some (octets ws) _ k in
    rw (← some_inj (n ∷ rest) ip k') (ap suc (length-octets ws rest e))

length-parse_ipv4 : (s : Bytes) (ip : Ip) → parse_ipv4 s ≡ some ip → length ip ≡ 4
unfolding parse_ipv4
length-parse_ipv4 s ip h = elim (Bool-cases (length (split b'.' s) == 4)) [
  | inl e ↦ length-octets (split b'.' s) ip (rw e at h) ∙ (==_iff (length (split b'.' s)) 4).0 e
  | inr e ↦ absurd (cc (rw e at h))
]

length-ipv6_of :
    (s : Bytes) (o : Option (Bytes × Bytes)) (ip : Ip) → ipv6_of s o ≡ some ip → length ip ≡ 16
unfolding ipv6_of
length-ipv6_of s none ip h =
    let (full, _, k) = bind-eq-some (groups true (split b':' s)) _ h in
    elim (Bool-cases (length full == 16)) [
      | inl e ↦ rw (← some_inj full ip (rw e at k)) ((==_iff (length full) 16).0 e)
      | inr e ↦ absurd (cc (rw e at k))
    ]
length-ipv6_of s (some (l, r)) ip h =
    let (a, _, k) = bind-eq-some (side false l) _ h in
    let (b, _, k') = bind-eq-some (side true r) _ k in
    elim (Bool-cases (leb (length a + length b) 14)) [
      | inl e ↦ rw (← some_inj _ ip (rw e at k')) (
          omega (
            arith,
            leb→le (length a + length b) 14 e,
            length-append (a ++ zeros (16 - (length a + length b))) b,
            length-append a (zeros (16 - (length a + length b))),
            length-zeros (16 - (length a + length b)),
          ))
      | inr e ↦ absurd (cc (rw e at k'))
    ]

length-to16 : (ip : Ip) → length ip ≡ 4 → length (to16 ip) ≡ 16
unfolding to16
length-to16 ip h = rw h (omega (arith, length-append mapped_prefix ip))

-- A literal is sixteen bytes, in either family.
pub length-parse_ip : (s : Bytes) (ip : Ip) → parse_ip s ≡ some ip → length ip ≡ 16
unfolding parse_ip ipv6_of parse_ipv6
length-parse_ip s ip h = elim (Bool-cases (contains (codes ":") s)) [
  | inl e ↦ length-ipv6_of s (cut (codes "::") s) ip (rw e at h)
  | inr e ↦
      let (v4, p, k) = bind-eq-some (parse_ipv4 s) _ (rw e at h) in
      rw (← some_inj (to16 v4) ip k) (length-to16 v4 (length-parse_ipv4 s v4 p))
]

pub parse_ip-not_empty : (s : Bytes) (ip : Ip) → parse_ip s ≡ some ip → is_empty ip ≡ false
unfolding is_empty
parse_ip-not_empty s [] h = absurd (omega (arith, length-parse_ip s [] h))
parse_ip-not_empty s (b ∷ ip) h = refl
