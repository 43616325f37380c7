-- ===== src/Settings/Network/Routing.antt =====
-- What is checked before a request goes through the proxy of the environment.
use grabber.Base.{
  ◌↔◌, true, false, ◌⊎◌, inl, inr, Bool-cases, List, [], ◌∷◌, ◌≡◌, refl, ap, Option, none, some,
  Result, ok, err, >>=-eq-ok, All,
}
use grabber.Text.{Bytes, is_empty, equal_fold}
use grabber.Ssrf.{Guard, GuardError, dial}
use grabber.Ssrf.Proxied.{Resolver, check_proxied_host}
use grabber.Settings.Types.{Url}
use grabber.Settings.Network.Header.{HeaderNames, hostname_of-HeaderNames}
use grabber.Settings.Network.{
  hostname_of, header_host, target_hosts, check_targets, checked_route, env_route, env_dial,
}

module _ (r : Resolver) (g : Guard) where
  check_targets-All :
      (hosts : List Bytes)
      → check_targets r g hosts ≡ ok tt
      → All (λ h. check_proxied_host r g h ≡ ok tt) hosts
  unfolding check_targets
  check_targets-All [] h = tt
  check_targets-All (host ∷ hosts) h =
      let (_, e, rest) = >>=-eq-ok (check_proxied_host r g host) (λ _. check_targets r g hosts) h in
      (e, check_targets-All hosts rest)

  All-check_targets :
      (hosts : List Bytes)
      → All (λ h. check_proxied_host r g h ≡ ok tt) hosts
      → check_targets r g hosts ≡ ok tt
  unfolding check_targets
  All-check_targets [] h = refl
  All-check_targets (host ∷ hosts) (e, rest) = rw e (All-check_targets hosts rest)

  -- Every host that a request names passed the check: that of its URL, and that of its Host header
  -- if it has one, unless it is the same but for letter case.
  pub record NamesPass (url_host header : Bytes) : Type 0 where
    pub url_passes : check_proxied_host r g url_host ≡ ok tt
    pub is_named : HeaderNames header (hostname_of header)
    pub header_passes :
        (is_empty header ≡ true)
        ⊎ (equal_fold (hostname_of header) url_host ≡ true)
        ⊎ (check_proxied_host r g (hostname_of header) ≡ ok tt)

  All-NamesPass :
      (url_host header : Bytes)
      → All (λ h. check_proxied_host r g h ≡ ok tt) (target_hosts url_host header)
      → NamesPass url_host header
  unfolding target_hosts header_host
  All-NamesPass url_host header a = elim (Bool-cases (is_empty header)) [
    | inl e ↦ record {
      is_named = hostname_of-HeaderNames header;
      url_passes = (rw e at a).0;
      header_passes = inl e;
    }
    | inr n ↦ elim (Bool-cases (equal_fold (hostname_of header) url_host)) [
      | inl same ↦ record {
        is_named = hostname_of-HeaderNames header;
        url_passes = (rw (n, same) at a).0;
        header_passes = inr (inl same);
      }
      | inr other ↦
          let both = rw (n, other) at a in
          record {
            is_named = hostname_of-HeaderNames header;
            url_passes = both.0;
            header_passes = inr (inr both.1.0);
          }
    ]
  ]

  NamesPass-All :
      (url_host header : Bytes)
      → NamesPass url_host header
      → All (λ h. check_proxied_host r g h ≡ ok tt) (target_hosts url_host header)
  unfolding target_hosts header_host
  NamesPass-All url_host header p = elim (Bool-cases (is_empty header)) [
    | inl e ↦ rw e (p.url_passes, tt)
    | inr n ↦ elim (Bool-cases (equal_fold (hostname_of header) url_host)) [
      | inl same ↦ rw (n, same) (p.url_passes, tt)
      | inr different ↦ rw (n, different) (p.url_passes, (named n different p.header_passes, tt))
    ]
  ]
    where
      named :
          is_empty header ≡ false
          → equal_fold (hostname_of header) url_host ≡ false
          → (is_empty header ≡ true)
            ⊎ (equal_fold (hostname_of header) url_host ≡ true)
            ⊎ (check_proxied_host r g (hostname_of header) ≡ ok tt)
          → check_proxied_host r g (hostname_of header) ≡ ok tt
      named n d (inl e) = absurd (cc)
      named n d (inr (inl e)) = absurd (cc)
      named n d (inr (inr c)) = c

  -- Why a connection is made: the request has a proxy and every host that it names was checked,
  -- or it has none and the guard lets the dial through.
  pub data Connects (proxy : Result (Unit {0}) (Option Url)) (url_host header : Bytes)
      (addr address : Bytes) : Type 0 where
    proxied :
        (u : Url)
        → proxy ≡ ok (some u)
        → NamesPass url_host header
        → Connects proxy url_host header addr address
    dialed :
        proxy ≡ ok none
        → dial g none addr address ≡ ok tt
        → Connects proxy url_host header addr address

  some_ok :
      (d : Result GuardError (Unit {0}))
      → ◌≡◌ {A = Option (Result GuardError (Unit {0}))} (some d) (some (ok tt))
      → d ≡ ok tt
  some_ok d h = cc

  proxied_route :
      (u : Url) (url_host header addr address : Bytes) (c : Result GuardError (Unit {0}))
      → check_targets r g (target_hosts url_host header) ≡ c
      → env_dial g (checked_route c u) addr address ≡ some (ok tt)
      → Connects (ok (some u)) url_host header addr address
  unfolding env_dial checked_route
  proxied_route u url_host header addr address (ok _) e h =
      proxied u refl (All-NamesPass url_host header (check_targets-All _ e))
  proxied_route u url_host header addr address (err why) e h = absurd (cc h)

  pub env_dial_iff :
      (proxy : Result (Unit {0}) (Option Url)) (url_host header addr address : Bytes)
      → (env_dial g (env_route r g proxy url_host header) addr address ≡ some (ok tt))
        ↔ Connects proxy url_host header addr address
  env_dial_iff proxy url_host header addr address = (there proxy, back proxy)
    where
      there :
          (p : Result (Unit {0}) (Option Url))
          → env_dial g (env_route r g p url_host header) addr address ≡ some (ok tt)
          → Connects p url_host header addr address
      there (err _) h = absurd (unfold env_route env_dial in cc h)
      there (ok none) h = dialed refl (some_ok _ (unfold env_route env_dial in h))
      there (ok (some u)) h =
          proxied_route u url_host header addr address _ refl (unfold env_route in h)

      passed :
          (u : Url)
          → NamesPass url_host header
          → env_dial g (env_route r g (ok (some u)) url_host header) addr address ≡ some (ok tt)
      passed u a =
          let every =
            All-check_targets (target_hosts url_host header) (NamesPass-All url_host header a) in
          unfold env_route checked_route env_dial in rw every refl

      back :
          (p : Result (Unit {0}) (Option Url))
          → Connects p url_host header addr address
          → env_dial g (env_route r g p url_host header) addr address ≡ some (ok tt)
      back (err _) (proxied v e a) = absurd (cc e)
      back (err _) (dialed e d) = absurd (cc e)
      back (ok (some u)) (proxied v e a) = passed u a
      back (ok none) (proxied v e a) = absurd (cc e)
      back (ok (some u)) (dialed e d) = absurd (cc e)
      back (ok none) (dialed e d) = unfold env_route env_dial in ap some d
