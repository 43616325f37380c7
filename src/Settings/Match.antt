-- ===== src/Settings/Match.antt =====
-- Matching by host in settings/settings.go: SSH keys, OCI credentials, client certificates and
-- proxies.
pub mod Preference
use grabber.Base.{Bool, true, false, List, [], ◌∷◌, ◌++◌, Option, none, some, if◌then◌else◌}
use grabber.Text.{Bytes, is_empty, equal_fold}
use grabber.Settings.Types.{Settings, ClientCertificate, ProxyConfig, OciCredential, SshCredential}

abbrev pub first {ℓ} : {A : Type ℓ} → Option A → A → Option A
first none a = some a
first (some b) a = some b

-- The loop that the four functions share: an entry for the host wins, and the first entry with no
-- host is the default.
unfoldable pub match_host {ℓ} : {A : Type ℓ} → (A → Bytes) → Bytes → Option A → List A → Option A
match_host host_field host fallback [] = fallback
match_host host_field host fallback (c ∷ cs) =
    let as_default = match_host host_field host (first fallback c) cs in
    let other = match_host host_field host fallback cs in
    if is_empty (host_field c)
    then as_default
    else if equal_fold (host_field c) host
    then some c
    else other

unfoldable pub match_oci_credential : Settings → Bytes → Option OciCredential
match_oci_credential s registry = match_host (λ c. c.registry) registry none s.oci_credentials

unfoldable pub match_client_certificate : Settings → Bytes → Option ClientCertificate
match_client_certificate s host = match_host (λ c. c.host) host none s.client_certificates

unfoldable pub match_proxy : Settings → Bytes → Option ProxyConfig
match_proxy s host = match_host (λ p. p.host) host none s.proxies

-- `MatchSSHKey`, with the empty key for nil.
match_key : Bytes → Bytes → List SshCredential → Bytes
match_key host fallback [] = fallback
match_key host fallback (c ∷ cs) =
    let as_default = match_key host (if is_empty fallback then c.key else fallback) cs in
    let other = match_key host fallback cs in
    if is_empty c.host then as_default else if equal_fold c.host host then c.key else other

unfoldable pub match_ssh_key : Settings → Bytes → Bytes
unfolding match_key
match_ssh_key s host = match_key host [] s.git.ssh_keys

-- The loop of `MatchSSHKeys` with its two lists.
unfoldable pub split_keys : Bytes → List Bytes → List Bytes → List SshCredential → List Bytes
split_keys host host_keys defaults [] = host_keys ++ defaults
split_keys host host_keys defaults (c ∷ cs) =
    let as_default = split_keys host host_keys (defaults ++ c.key ∷ []) cs in
    let matched = split_keys host (host_keys ++ c.key ∷ []) defaults cs in
    let other = split_keys host host_keys defaults cs in
    if is_empty c.host then as_default else if equal_fold c.host host then matched else other

unfoldable pub match_ssh_keys : Settings → Bytes → List Bytes
match_ssh_keys s host = split_keys host [] [] s.git.ssh_keys
