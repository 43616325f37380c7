-- ===== src/Ssrf/Proxied/Forms.antt =====
-- What the whole proxy-aware check of a host establishes.
use grabber.Base.{
  Option, none, some, Result, err, ◌⊎◌, ◌++◌, ◌||◌, ◌∙◌, ap, sym, subst, refl, reverse,
  reverse-reverse, reverse-cons, drop, ltb, length, if◌then◌else◌, or-eq-false, true, false, List,
  [], ◌∷◌, ◌≡◌, inl, inr, ok, >>=-eq-ok, Bool-cases, All,
}
use grabber.Text.{
  Bytes, codes, is_empty, text_eq, has_prefix, has_suffix, contains, trim_suffix, trim_prefix,
}
use grabber.Text.Laws.{has_prefix_split, text_eq_iff}
use grabber.Ssrf.{Guard, GuardError, invalid_host, enabled}
use grabber.Ssrf.Proxied.{
  is_ascii, normal_form, normal_forms, second_form, both_forms, Resolver, ascii_forms,
  check_proxied_ascii, check_forms, check_proxied_host,
}
use grabber.Ssrf.Proxied.Dotted.{TakesDot, check_proxied_host-TakesDot}
use grabber.Ssrf.Proxied.Soundness.{ProxiedPermitted, check_proxied_ascii-ProxiedPermitted}

-- A spelling without its trailing dot passes, and has no empty label.
pub record SpellingPasses (r : Resolver) (g : Guard) (form : Bytes) : Type 0 where
  pub name : Bytes
  pub spelled : (form ≡ name) ⊎ (form ≡ name ++ codes ".")
  pub no_dot_first : has_prefix (codes ".") name ≡ false
  pub no_dot_last : has_suffix (codes ".") name ≡ false
  pub no_dots : contains (codes "..") name ≡ false
  pub permitted : ProxiedPermitted r g name

-- Why the check of a host may pass: there is nothing to check, or an ASCII host passes as it is
-- spelled, and any other in both forms that `net/http` can send.
pub data HostPermitted (r : Resolver) (g : Guard) (host : Bytes) : Type 0 where
  off : enabled g ≡ false → HostPermitted r g host
  no_host : is_empty host ≡ true → HostPermitted r g host
  ascii : is_ascii host ≡ true → SpellingPasses r g host → HostPermitted r g host
  both_passed :
      (lookup puny : Bytes)
      → is_ascii host ≡ false
      → r.lookup_form host ≡ some lookup
      → r.punycode_form host ≡ some puny
      → SpellingPasses r g lookup
      → SpellingPasses r g puny
      → HostPermitted r g host

trimmed :
    (form : Bytes)
    → (form ≡ trim_suffix (codes ".") form) ⊎ (form ≡ trim_suffix (codes ".") form ++ codes ".")
unfolding trim_suffix trim_prefix
trimmed form = elim (Bool-cases (has_prefix (codes ".") (reverse form))) [
  | inr n ↦ inl (rw n (sym (reverse-reverse form)))
  | inl d ↦
      let rest = drop 1 (reverse form) in
      inr (
        rw d (
          sym (reverse-reverse form)
          ∙ ap reverse (has_prefix_split (codes ".") (reverse form) d)
          ∙ reverse-cons b'.' rest))
]

normal_form-SpellingPasses :
    (r : Resolver) (g : Guard) (form name : Bytes)
    → normal_form form ≡ ok name
    → ProxiedPermitted r g name
    → SpellingPasses r g form
unfolding normal_form
normal_form-SpellingPasses r g form name h permitted = elim (Bool-cases (ltb 1 (length form))) [
  | inl long ↦ of_text (trim_suffix (codes ".") form) (trimmed form) (rw long at h)
  | inr short ↦ of_text form (inl refl) (rw short at h)
]
  where
    of_text :
        (text : Bytes)
        → (form ≡ text) ⊎ (form ≡ text ++ codes ".")
        → (if has_prefix (codes ".") text
              || has_suffix (codes ".") text
              || contains (codes "..") text
            then err (invalid_host text)
            else ok text)
          ≡ ok name
        → SpellingPasses r g form
    of_text text spelled k =
        elim (Bool-cases (
          has_prefix (codes ".") text
          || has_suffix (codes ".") text
          || contains (codes "..") text)) [
            | inl bad ↦ absurd (cc (rw bad at k))
            | inr good ↦
                let (ends, dots) = or-eq-false _ (contains (codes "..") text) good in
                let (first, last) = or-eq-false (has_prefix (codes ".") text) _ ends in
                let same = ok-inj text (rw good at k) in
                record {
                  name = text;
                  spelled = spelled;
                  no_dot_first = first;
                  no_dot_last = last;
                  no_dots = dots;
                  permitted = subst (ProxiedPermitted r g) (sym same) permitted;
                }
          ]
      where
        ok-inj : (t : Bytes) → ◌≡◌ {A = Result GuardError Bytes} (ok t) (ok name) → t ≡ name
        ok-inj t e = cc

-- Every spelling of a list passes.
normal_forms-All :
    (r : Resolver) (g : Guard) (forms names : List Bytes)
    → normal_forms forms ≡ ok names
    → All (ProxiedPermitted r g) names
    → All (SpellingPasses r g) forms
unfolding normal_forms
normal_forms-All r g [] names h a = tt
normal_forms-All r g (form ∷ forms) names h a =
    let (name, e, rest) = >>=-eq-ok (normal_form form) _ h in
    let (more, f, last) = >>=-eq-ok (normal_forms forms) _ rest in
    let both : All (ProxiedPermitted r g) (name ∷ more) =
      subst (All (ProxiedPermitted r g)) (sym (ok-inj (name ∷ more) last)) a in
    (normal_form-SpellingPasses r g form name e both.0, normal_forms-All r g forms more f both.1)
  where
    ok-inj :
        (t : List Bytes) → ◌≡◌ {A = Result GuardError (List Bytes)} (ok t) (ok names) → t ≡ names
    ok-inj t e = cc

check_forms-All :
    (r : Resolver) (g : Guard) (forms : List Bytes)
    → check_forms r g forms ≡ ok tt
    → All (ProxiedPermitted r g) forms
unfolding check_forms
check_forms-All r g [] h = tt
check_forms-All r g (form ∷ forms) h =
    let (_, e, rest) = >>=-eq-ok (check_proxied_ascii r g form) (λ _. check_forms r g forms) h in
    (check_proxied_ascii-ProxiedPermitted r g form e, check_forms-All r g forms rest)

second_form-cases :
    (host form : Bytes) (p : Option Bytes) (forms : List Bytes)
    → second_form host form p ≡ ok forms
    → (puny : Bytes) × (p ≡ some puny)
      × ((forms ≡ form ∷ puny ∷ []) ⊎ ((forms ≡ form ∷ []) × (puny ≡ form)))
unfolding second_form
second_form-cases host form none forms h = absurd (cc h)
second_form-cases host form (some puny) forms h = elim (Bool-cases (text_eq puny form)) [
  | inl same ↦ (puny, refl, inr (ok-inj (form ∷ []) (rw same at h), (text_eq_iff puny form).0 same))
  | inr other ↦ (puny, refl, inl (ok-inj (form ∷ puny ∷ []) (rw other at h)))
]
  where
    ok-inj :
        (t : List Bytes) → ◌≡◌ {A = Result GuardError (List Bytes)} (ok t) (ok forms) → forms ≡ t
    ok-inj t e = cc

both_forms-HostPermitted :
    (r : Resolver) (g : Guard) (host : Bytes) (o : Option Bytes) (forms : List Bytes)
    → is_ascii host ≡ false
    → r.lookup_form host ≡ o
    → both_forms r host o ≡ ok forms
    → All (SpellingPasses r g) forms
    → HostPermitted r g host
unfolding both_forms
both_forms-HostPermitted r g host none forms n e h a = absurd (cc h)
both_forms-HostPermitted r g host (some form) forms n e h a =
    by_cases (second_form-cases host form (r.punycode_form host) forms h)
  where
    by_cases :
        (puny : Bytes) × (r.punycode_form host ≡ some puny)
          × ((forms ≡ form ∷ puny ∷ []) ⊎ ((forms ≡ form ∷ []) × (puny ≡ form)))
        → HostPermitted r g host
    by_cases (puny, p, inl two) =
        let (first, (second, _)) = subst (All (SpellingPasses r g)) two a in
        both_passed form puny n e p first second
    by_cases (puny, p, inr (one, same)) =
        let (first, _) = subst (All (SpellingPasses r g)) one a in
        both_passed form puny n e p first (subst (SpellingPasses r g) (sym same) first)

ascii_forms-HostPermitted :
    (r : Resolver) (g : Guard) (host : Bytes) (names : List Bytes)
    → ascii_forms r host ≡ ok names
    → All (ProxiedPermitted r g) names
    → HostPermitted r g host
unfolding ascii_forms
ascii_forms-HostPermitted r g host names h a = elim (Bool-cases (is_ascii host)) [
  | inl plain ↦
      let (one, _) = normal_forms-All r g (host ∷ []) names (rw plain at h) a in ascii plain one
  | inr other ↦
      let (forms, e, rest) = >>=-eq-ok (both_forms r host (r.lookup_form host)) _ (rw other at h) in
      both_forms-HostPermitted r g host _ forms other refl e
        (normal_forms-All r g forms names rest a)
]

-- A host that the proxy-aware check lets through is unguarded or empty, or it is ASCII and passes
-- as it is spelled, or both its lookup form and its Punycode form pass; and an ASCII host that is
-- not empty and has no trailing dot is let through with one too. A spelling passes if, without a
-- trailing dot, it has no empty label and is on the allow list, an IP address that is clear, a name
-- all of whose addresses are clear, a name that the resolver does not know, or one that could not
-- be looked up because the request is over or no name can be. A clear address is on the allow list,
-- or it is not blocked, no IPv4 address is blocked that it carries by NAT64, 6to4, Teredo or as
-- IPv4-compatible, and it is no local NAT64 address while internal addresses are blocked.
pub check_proxied_host-HostPermitted :
    (r : Resolver) (g : Guard) (host : Bytes)
    → check_proxied_host r g host ≡ ok tt
    → HostPermitted r g host × TakesDot r g host
unfolding check_proxied_host
check_proxied_host-HostPermitted r g host h = (
  elim (Bool-cases (enabled g)) [
    | inr e ↦ off e
    | inl on ↦ elim (Bool-cases (is_empty host)) [
      | inl e ↦ no_host e
      | inr full ↦
          let (names, e, rest) =
            >>=-eq-ok (ascii_forms r host) (check_forms r g) (rw (on, full) at h) in
          ascii_forms-HostPermitted r g host names e (check_forms-All r g names rest)
    ]
  ],
  check_proxied_host-TakesDot r g host h,
)
