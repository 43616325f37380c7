-- ===== src/Ssrf/Proxied/Dotted.antt =====
-- A trailing dot makes no difference to the proxy-aware check of an ASCII host.
use grabber.Base.{
  true, false, [], ◌∷◌, ◌++◌, ◌≡◌, refl, ◌∙◌, ok, reverse, reverse-append, reverse-reverse, length,
  length-append, ltb, Bool-cases, inl, inr, arith,
}
use grabber.Text.{Bytes, codes, is_empty, has_suffix, trim_suffix, trim_prefix}
use grabber.Text.Laws.{trim_prefix-append}
use grabber.Ssrf.{Guard}
use grabber.Ssrf.Proxied.{
  Resolver, is_ascii, normal_form, normal_forms, ascii_forms, check_proxied_host,
}

trim_suffix-dot : (s : Bytes) → trim_suffix (codes ".") (s ++ codes ".") ≡ s
unfolding trim_suffix
trim_suffix-dot s =
    rw (reverse-append s (codes "."), trim_prefix-append (codes ".") (reverse s))
      (reverse-reverse s)

trim_suffix-none : (s : Bytes) → has_suffix (codes ".") s ≡ false → trim_suffix (codes ".") s ≡ s
unfolding trim_suffix trim_prefix has_suffix
trim_suffix-none s h = rw h (reverse-reverse s)

normal_form-dot :
    (s : Bytes)
    → is_empty s ≡ false
    → has_suffix (codes ".") s ≡ false
    → normal_form (s ++ codes ".") ≡ normal_form s
unfolding normal_form
normal_form-dot s full no_dot = elim (Bool-cases (ltb 1 (length s))) [
  | inl long ↦ rw (dotted_long s full, trim_suffix-dot s, long, trim_suffix-none s no_dot) refl
  | inr short ↦ rw (dotted_long s full, trim_suffix-dot s, short) refl
]
  where
    dotted_long : (s : Bytes) → is_empty s ≡ false → ltb 1 (length (s ++ codes ".")) ≡ true
    dotted_long [] h = absurd (unfold is_empty in cc h)
    dotted_long (c ∷ s) h = rw (length-append s (codes ".")) (ground arith)

is_ascii-dot : (s : Bytes) → is_ascii s ≡ true → is_ascii (s ++ codes ".") ≡ true
unfolding is_ascii
is_ascii-dot [] h = refl
is_ascii-dot (c ∷ s) h = elim (Bool-cases (ltb c 0x80)) [
  | inl e ↦ rw e (is_ascii-dot s (rw e at h))
  | inr n ↦ absurd (cc (rw n at h))
]

not_empty : (s : Bytes) → is_empty (s ++ codes ".") ≡ false
unfolding is_empty
not_empty [] = refl
not_empty (c ∷ s) = refl

check_proxied_host-dot :
    (r : Resolver) (g : Guard) (host : Bytes)
    → is_ascii host ≡ true
    → is_empty host ≡ false
    → has_suffix (codes ".") host ≡ false
    → check_proxied_host r g (host ++ codes ".") ≡ check_proxied_host r g host
unfolding check_proxied_host ascii_forms normal_forms
check_proxied_host-dot r g host plain full no_dot =
    rw (is_ascii-dot host plain, not_empty host, plain, full, normal_form-dot host full no_dot) refl

-- An ASCII host that is not empty and has no trailing dot passes with one too.
pub data TakesDot (r : Resolver) (g : Guard) (host : Bytes) : Type 0 where
  not_ascii : is_ascii host ≡ false → TakesDot r g host
  nothing_named : is_empty host ≡ true → TakesDot r g host
  has_dot : has_suffix (codes ".") host ≡ true → TakesDot r g host
  with_dot : check_proxied_host r g (host ++ codes ".") ≡ ok tt → TakesDot r g host

pub check_proxied_host-TakesDot :
    (r : Resolver) (g : Guard) (host : Bytes)
    → check_proxied_host r g host ≡ ok tt
    → TakesDot r g host
check_proxied_host-TakesDot r g host h = elim (Bool-cases (is_ascii host)) [
  | inr other ↦ not_ascii other
  | inl plain ↦ elim (Bool-cases (is_empty host)) [
    | inl nothing ↦ nothing_named nothing
    | inr full ↦ elim (Bool-cases (has_suffix (codes ".") host)) [
      | inl dotted ↦ has_dot dotted
      | inr no_dot ↦ with_dot (check_proxied_host-dot r g host plain full no_dot ∙ h)
    ]
  ]
]
