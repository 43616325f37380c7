-- ===== src/Grabber/New/Guarded.antt =====
-- The guard that a `Grabber` made by `New` has.
use grabber.Base.{
  Bool, false, List, [], ◌∷◌, ◌++◌, ◌≡◌, ◌↔◌, refl, sym, ap, ◌∙◌, subst, Option, none, some,
  append-nil, append_assoc, Bool-cases, inl, inr,
}
use grabber.Text.{Bytes, is_empty, contains, codes, trim_space}
use grabber.Net.{Ip, IpNet}
use grabber.Net.Parse.{parse_ip, parse_cidr}
use grabber.Ssrf.{
  Level, default_level, no_guard, loopback, internal, custom, Guard, new_guard, enabled,
  add_entries, add_entry, add_cidr, add_host, level_enabled, resolve_level,
}
use grabber.Settings.Types.{Settings}
use grabber.Settings.Network.{ssrf_guard}
use grabber.Grabber.Dispatch.{Protocol}
use grabber.Grabber.Options.{
  with_connect_probe_timeout, with_http_transport, with_tls_ca_cert, with_client_certificate,
  with_client_certificate_for_host, with_http_proxy, with_http_proxy_for_host, with_ssrf_protection,
  with_custom_ssrf_protection, with_http_credential_request_function, with_ssrf_allow_hosts,
  with_netrc, with_temporary_directory, with_auto_extract, with_max_download_bytes,
  with_allowed_local_directories, with_aws_credentials, with_gcp_credentials, with_oci_credentials,
  with_oci_credential_for_registry, with_oci_plain_http, with_https_credential,
  with_https_credential_for_path, with_git_ssh_to_https, with_git_recurse_submodules,
  with_git_ssh_key, with_git_ssh_key_for_host, with_git_depth,
  with_git_insecure_skip_host_key_verify, with_git_known_hosts, with_no_system_fallback,
  without_ambient_credentials,
}
use grabber.Grabber.New.{
  Call, ssrf_protection_call, custom_ssrf_protection_call, ssrf_allow_hosts_call, Grabber,
  update_of, apply_option, apply_options, new, defaults,
}

module _ {D : Type 0} where
  -- The level after a call, the test after it, and the hosts that it allows.
  unfoldable pub level_after : Call D → Level → Level
  level_after (ssrf_protection_call level) l = level
  level_after (custom_ssrf_protection_call blocks) l = custom
  level_after _ l = l

  unfoldable pub test_after : Call D → Option (Ip → Bool) → Option (Ip → Bool)
  test_after (custom_ssrf_protection_call blocks) t = blocks
  test_after _ t = t

  unfoldable pub hosts_of : Call D → List Bytes
  hosts_of (ssrf_allow_hosts_call hosts) = hosts
  hosts_of _ = []

  -- What the last call that sets it says, and every allowed host in order.
  unfoldable pub last_level : List (Call D) → Level → Level
  last_level [] l = l
  last_level (c ∷ cs) l = last_level cs (level_after c l)

  unfoldable pub last_test : List (Call D) → Option (Ip → Bool) → Option (Ip → Bool)
  last_test [] t = t
  last_test (c ∷ cs) t = last_test cs (test_after c t)

  unfoldable pub all_hosts : List (Call D) → List Bytes
  all_hosts [] = []
  all_hosts (c ∷ cs) = hosts_of c ++ all_hosts cs

  update_of-level :
      (c : Call D) (s : Settings) → (update_of c s).ssrf_level ≡ level_after c s.ssrf_level
  unfolding update_of level_after with_connect_probe_timeout with_http_transport with_tls_ca_cert
      with_client_certificate with_client_certificate_for_host with_http_proxy
      with_http_proxy_for_host with_ssrf_protection with_custom_ssrf_protection
      with_http_credential_request_function with_ssrf_allow_hosts with_netrc
      with_temporary_directory with_auto_extract with_max_download_bytes
      with_allowed_local_directories with_aws_credentials with_gcp_credentials with_oci_credentials
      with_oci_credential_for_registry with_oci_plain_http with_https_credential
      with_https_credential_for_path with_git_ssh_to_https with_git_recurse_submodules
      with_git_ssh_key with_git_ssh_key_for_host with_git_depth
      with_git_insecure_skip_host_key_verify with_git_known_hosts with_no_system_fallback
      without_ambient_credentials
  update_of-level (ssrf_protection_call level) s = refl
  update_of-level (custom_ssrf_protection_call blocks) s = refl
  update_of-level _ s = refl

  update_of-test :
      (c : Call D) (s : Settings) → (update_of c s).ssrf_custom ≡ test_after c s.ssrf_custom
  unfolding update_of test_after with_connect_probe_timeout with_http_transport with_tls_ca_cert
      with_client_certificate with_client_certificate_for_host with_http_proxy
      with_http_proxy_for_host with_ssrf_protection with_custom_ssrf_protection
      with_http_credential_request_function with_ssrf_allow_hosts with_netrc
      with_temporary_directory with_auto_extract with_max_download_bytes
      with_allowed_local_directories with_aws_credentials with_gcp_credentials with_oci_credentials
      with_oci_credential_for_registry with_oci_plain_http with_https_credential
      with_https_credential_for_path with_git_ssh_to_https with_git_recurse_submodules
      with_git_ssh_key with_git_ssh_key_for_host with_git_depth
      with_git_insecure_skip_host_key_verify with_git_known_hosts with_no_system_fallback
      without_ambient_credentials
  update_of-test (custom_ssrf_protection_call blocks) s = refl
  update_of-test _ s = refl

  update_of-hosts :
      (c : Call D) (s : Settings) → (update_of c s).ssrf_allow ≡ s.ssrf_allow ++ hosts_of c
  unfolding update_of hosts_of with_connect_probe_timeout with_http_transport with_tls_ca_cert
      with_client_certificate with_client_certificate_for_host with_http_proxy
      with_http_proxy_for_host with_ssrf_protection with_custom_ssrf_protection
      with_http_credential_request_function with_ssrf_allow_hosts with_netrc
      with_temporary_directory with_auto_extract with_max_download_bytes
      with_allowed_local_directories with_aws_credentials with_gcp_credentials with_oci_credentials
      with_oci_credential_for_registry with_oci_plain_http with_https_credential
      with_https_credential_for_path with_git_ssh_to_https with_git_recurse_submodules
      with_git_ssh_key with_git_ssh_key_for_host with_git_depth
      with_git_insecure_skip_host_key_verify with_git_known_hosts with_no_system_fallback
      without_ambient_credentials
  update_of-hosts (ssrf_allow_hosts_call hosts) s = refl
  update_of-hosts _ s = sym (append-nil s.ssrf_allow)

  apply-level :
      (cs : List (Call D)) (g : Grabber D)
      → (apply_options cs g).settings.ssrf_level ≡ last_level cs g.settings.ssrf_level
  unfolding apply_options last_level apply_option
  apply-level [] g = refl
  apply-level (c ∷ cs) g =
      apply-level cs (apply_option c g) ∙ ap (last_level cs) (update_of-level c g.settings)

  apply-test :
      (cs : List (Call D)) (g : Grabber D)
      → (apply_options cs g).settings.ssrf_custom ≡ last_test cs g.settings.ssrf_custom
  unfolding apply_options last_test apply_option
  apply-test [] g = refl
  apply-test (c ∷ cs) g =
      apply-test cs (apply_option c g) ∙ ap (last_test cs) (update_of-test c g.settings)

  apply-hosts :
      (cs : List (Call D)) (g : Grabber D)
      → (apply_options cs g).settings.ssrf_allow ≡ g.settings.ssrf_allow ++ all_hosts cs
  unfolding apply_options all_hosts apply_option
  apply-hosts [] g = sym (append-nil g.settings.ssrf_allow)
  apply-hosts (c ∷ cs) g =
      apply-hosts cs (apply_option c g)
      ∙ ap (λ x. x ++ all_hosts cs) (update_of-hosts c g.settings)
      ∙ append_assoc g.settings.ssrf_allow (hosts_of c) (all_hosts cs)

  ssrf_guard-new :
      (temp_dir : Bytes) (all_protocols : List (Protocol D)) (cs : List (Call D))
      → ssrf_guard (new temp_dir all_protocols cs).settings
        ≡ new_guard (last_level cs default_level) (last_test cs none) (all_hosts cs)
  unfolding new defaults ssrf_guard
  ssrf_guard-new temp_dir all_protocols cs =
      let start : Grabber D = record { settings = defaults temp_dir; protocols = all_protocols } in
      let s = (apply_options cs start).settings in
      ap (λ l. new_guard l s.ssrf_custom s.ssrf_allow) (apply-level cs start)
      ∙ ap (λ t. new_guard (last_level cs default_level) t s.ssrf_allow) (apply-test cs start)
      ∙ ap (new_guard (last_level cs default_level) (last_test cs none)) (apply-hosts cs start)

add_entry-level : (entry : Bytes) (g : Guard) → (add_entry entry g).level ≡ g.level
unfolding add_entry
add_entry-level entry g = elim (Bool-cases (is_empty entry)) [
  | inl blank ↦ rw blank refl
  | inr given ↦ elim (Bool-cases (contains (codes "/") entry)) [
    | inl range ↦ rw (given, range) (cidr (parse_cidr entry))
    | inr single ↦ rw (given, single) (host (parse_ip entry))
  ]
]
  where
    cidr : (o : Option IpNet) → (add_cidr o g).level ≡ g.level
    cidr none = unfold add_cidr in refl
    cidr (some n) = unfold add_cidr in refl

    host : (o : Option Ip) → (add_host o entry g).level ≡ g.level
    host none = unfold add_host in refl
    host (some ip) = unfold add_host in refl

add_entries-level : (allow : List Bytes) (g : Guard) → (add_entries allow g).level ≡ g.level
unfolding add_entries
add_entries-level [] g = refl
add_entries-level (entry ∷ allow) g =
    add_entries-level allow (add_entry (trim_space entry) g) ∙ add_entry-level (trim_space entry) g

enabled-new_guard :
    (l : Level) (t : Option (Ip → Bool)) (allow : List Bytes)
    → enabled (new_guard l t allow) ≡ level_enabled (resolve_level l)
unfolding enabled new_guard
enabled-new_guard l t allow = ap level_enabled (add_entries-level allow _)

off_iff : (l : Level) → (level_enabled (resolve_level l) ≡ false) ↔ (l ≡ no_guard)
unfolding level_enabled
off_iff no_guard = ((λ h. refl), (λ h. refl))
off_iff default_level = ((λ h. cc), (λ h. cc))
off_iff loopback = ((λ h. cc), (λ h. cc))
off_iff internal = ((λ h. cc), (λ h. cc))
off_iff custom = ((λ h. cc), (λ h. cc))

-- Whatever the options: the SSRF guard has the level and the test that the last option to set them
-- says, and every host that an option allows, in order, and it is off exactly if the last level
-- that was set is the one that turns it off.
pub new-guarded :
    {D : Type 0} (temp_dir : Bytes) (all_protocols : List (Protocol D)) (cs : List (Call D))
    → (ssrf_guard (new temp_dir all_protocols cs).settings
        ≡ new_guard (last_level cs default_level) (last_test cs none) (all_hosts cs))
      × ((enabled (ssrf_guard (new temp_dir all_protocols cs).settings) ≡ false)
          ↔ (last_level cs default_level ≡ no_guard))
new-guarded temp_dir all_protocols cs =
    let same = ssrf_guard-new temp_dir all_protocols cs in
    (
      same,
      subst (λ b. (b ≡ false) ↔ (last_level cs default_level ≡ no_guard))
          (sym (
            ap enabled same
            ∙ enabled-new_guard (last_level cs default_level) (last_test cs none) (all_hosts cs)))
          (off_iff (last_level cs default_level)),
    )
