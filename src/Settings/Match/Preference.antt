-- ===== src/Settings/Match/Preference.antt =====
-- Which entry is chosen for a host.
use grabber.Base.{
  Bool, true, not, ◌&&◌, List, [], ◌∷◌, ◌++◌, ◌≡◌, refl, ap, ◌∙◌, Option, none, some, if◌then◌else◌,
  inl, inr, Bool-cases, append_assoc, append-nil,
}
use grabber.Text.{Bytes, is_empty, equal_fold}
use grabber.Settings.Types.{Settings, SshCredential}
use grabber.Settings.Match.{
  first, match_host, match_oci_credential, match_client_certificate, match_proxy, split_keys,
  match_ssh_keys,
}

module _ {ℓ} {A : Type ℓ} where
  -- The first element that passes a test.
  unfoldable pub find_first : (A → Bool) → List A → Option A
  find_first p [] = none
  find_first p (x ∷ xs) = if p x then some x else find_first p xs

  unfoldable pub or_else : Option A → Option A → Option A
  or_else (some a) d = some a
  or_else none d = d

  abbrev pub is_for : (A → Bytes) → Bytes → A → Bool
  is_for host_field host c = not (is_empty (host_field c)) && equal_fold (host_field c) host

  abbrev pub is_default : (A → Bytes) → A → Bool
  is_default host_field c = is_empty (host_field c)

  first_default :
      (d : Bool) (fb : Option A) (c : A) (rest : Option A)
      → d ≡ true
      → or_else (first fb c) rest ≡ or_else fb (if d then some c else rest)
  unfolding or_else
  first_default d none c rest e = rw e
  first_default d (some b) c rest e = refl

  match_host_lem :
      (host_field : A → Bytes) (host : Bytes) (fallback : Option A) (cs : List A)
      → match_host host_field host fallback cs
        ≡ or_else
            (find_first (is_for host_field host) cs)
            (or_else fallback (find_first (is_default host_field) cs))
  unfolding match_host find_first
  match_host_lem host_field host none [] = unfold or_else in refl
  match_host_lem host_field host (some b) [] = unfold or_else in refl
  match_host_lem host_field host fallback (c ∷ cs) = elim (Bool-cases (is_empty (host_field c))) [
    | inl e ↦ rw e (
        match_host_lem host_field host (first fallback c) cs
        ∙ ap (or_else (find_first (is_for host_field host) cs))
            (first_default true fallback c (find_first (is_default host_field) cs) refl))
    | inr e ↦ elim (Bool-cases (equal_fold (host_field c) host)) [
      | inl f ↦ rw (e, f) (unfold or_else in refl)
      | inr f ↦ rw (e, f) (match_host_lem host_field host fallback cs)
    ]
  ]

  pub match_host-eq :
      (host_field : A → Bytes) (host : Bytes) (cs : List A)
      → match_host host_field host none cs
        ≡ or_else (find_first (is_for host_field host) cs) (find_first (is_default host_field) cs)
  match_host-eq host_field host cs = match_host_lem host_field host none cs ∙ unfold or_else in refl

-- For a proxy, a client certificate and a registry credential alike: the first entry for the host
-- is chosen wherever it stands, and the first entry with no host if there is none for the host.
match_prefers_host :
    (s : Settings) (host : Bytes)
    → (match_proxy s host
        ≡ or_else
            (find_first (is_for (λ p. p.host) host) s.proxies)
            (find_first (is_default (λ p. p.host)) s.proxies))
      × (match_client_certificate s host
          ≡ or_else
              (find_first (is_for (λ c. c.host) host) s.client_certificates)
              (find_first (is_default (λ c. c.host)) s.client_certificates))
      × (match_oci_credential s host
          ≡ or_else
              (find_first (is_for (λ c. c.registry) host) s.oci_credentials)
              (find_first (is_default (λ c. c.registry)) s.oci_credentials))
unfolding match_proxy match_client_certificate match_oci_credential
match_prefers_host s host = (
  match_host-eq _ host s.proxies,
  match_host-eq _ host s.client_certificates,
  match_host-eq _ host s.oci_credentials,
)

-- The keys of the entries that pass a test.
unfoldable pub keys_of : (SshCredential → Bool) → List SshCredential → List Bytes
keys_of p [] = []
keys_of p (c ∷ cs) = if p c then c.key ∷ keys_of p cs else keys_of p cs

split_keys_lem :
    (host : Bytes) (xs ys : List Bytes) (cs : List SshCredential)
    → split_keys host xs ys cs
      ≡ (xs ++ keys_of (is_for (λ c. c.host) host) cs)
        ++ (ys ++ keys_of (is_default (λ c. c.host)) cs)
unfolding split_keys keys_of
split_keys_lem host xs ys [] = rw (append-nil xs, append-nil ys)
split_keys_lem host xs ys (c ∷ cs) =
    let hosts = keys_of (is_for (λ k. k.host) host) cs in
    let defaults = keys_of (is_default (λ k. k.host)) cs in
    elim (Bool-cases (is_empty c.host)) [
      | inl e ↦ rw e (
          split_keys_lem host xs (ys ++ c.key ∷ []) cs
          ∙ ap (λ z. (xs ++ hosts) ++ z) (append_assoc ys (c.key ∷ []) defaults))
      | inr e ↦ elim (Bool-cases (equal_fold c.host host)) [
        | inl f ↦
            rw (e, f)
              (split_keys_lem host (xs ++ c.key ∷ []) ys cs
                ∙ ap (λ z. z ++ (ys ++ defaults)) (append_assoc xs (c.key ∷ []) hosts))
        | inr f ↦ rw (e, f) (split_keys_lem host xs ys cs)
      ]
    ]

-- The SSH keys that are offered are those for the host, in configuration order, and after them
-- those with no host.
match_ssh_keys-eq :
    (s : Settings) (host : Bytes)
    → match_ssh_keys s host
      ≡ keys_of (is_for (λ c. c.host) host) s.git.ssh_keys
        ++ keys_of (is_default (λ c. c.host)) s.git.ssh_keys
unfolding match_ssh_keys
match_ssh_keys-eq s host = split_keys_lem host [] [] s.git.ssh_keys
