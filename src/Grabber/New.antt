-- ===== src/Grabber/New.antt =====
-- `New` of grabber.go on a list of calls of options, and `Defaults` of settings/settings.go.
pub mod Guarded
use grabber.Base.{
  ℕ, ◌*◌, ◌^◌, Bool, true, false, not, List, [], ◌∷◌, ◌++◌, Option, none, some, ℤ, pos,
}
use grabber.Text.{Bytes}
use grabber.Net.{Ip}
use grabber.Ssrf.{Level, default_level}
use grabber.Settings.Types.{Url, Settings, BaseTransport, CredentialRequest}
use grabber.Grabber.Dispatch.{Protocol}
use grabber.Grabber.Options.{
  Update, with_connect_probe_timeout, with_http_transport, with_tls_ca_cert,
  with_client_certificate, with_client_certificate_for_host, with_http_proxy,
  with_http_proxy_for_host, with_ssrf_protection, with_custom_ssrf_protection,
  with_http_credential_request_function, with_ssrf_allow_hosts, with_netrc,
  with_temporary_directory, with_auto_extract, with_max_download_bytes,
  with_allowed_local_directories, with_aws_credentials, with_gcp_credentials, with_oci_credentials,
  with_oci_credential_for_registry, with_oci_plain_http, with_https_credential,
  with_https_credential_for_path, with_git_ssh_to_https, with_git_recurse_submodules,
  with_git_ssh_key, with_git_ssh_key_for_host, with_git_depth,
  with_git_insecure_skip_host_key_verify, with_git_known_hosts, with_no_system_fallback,
  without_ambient_credentials,
}

-- A call of a function of options.go.
pub data Call (D : Type 0) : Type 0 where
  connect_probe_timeout_call : ℤ → Call D
  http_transport_call : Option BaseTransport → Call D
  tls_ca_cert_call : Bytes → Call D
  client_certificate_call : Bytes → Bytes → Call D
  client_certificate_for_host_call : Bytes → Bytes → Bytes → Call D
  http_proxy_call : Option Url → Bytes → Bytes → Call D
  http_proxy_for_host_call : Bytes → Option Url → Bytes → Bytes → Call D
  ssrf_protection_call : Level → Call D
  custom_ssrf_protection_call : Option (Ip → Bool) → Call D
  http_credential_request_function_call : Option CredentialRequest → Call D
  ssrf_allow_hosts_call : List Bytes → Call D
  netrc_call : Bool → Call D
  temporary_directory_call : Bytes → Call D
  auto_extract_call : Bool → Call D
  max_download_bytes_call : ℤ → Call D
  allowed_local_directories_call : List Bytes → Call D
  aws_credentials_call : Bytes → Bytes → Bytes → Bytes → Call D
  gcp_credentials_call : Bytes → Call D
  oci_credentials_call : Bytes → Bytes → Call D
  oci_credential_for_registry_call : Bytes → Bytes → Bytes → Call D
  oci_plain_http_call : Call D
  https_credential_call : Bytes → Bytes → Bytes → Call D
  https_credential_for_path_call : Bytes → Bytes → Bytes → Bytes → Call D
  git_ssh_to_https_call : Call D
  git_recurse_submodules_call : Bool → Call D
  git_ssh_key_call : Bytes → Call D
  git_ssh_key_for_host_call : Bytes → Bytes → Call D
  git_depth_call : ℕ → Call D
  git_insecure_skip_host_key_verify_call : Call D
  git_known_hosts_call : Bytes → Call D
  no_system_fallback_call : Call D
  no_ambient_call : Call D
  protocols_call : List (Protocol D) → Call D

-- `Grabber`
pub record Grabber (D : Type 0) : Type 0 where
  pub settings : Settings
  pub protocols : List (Protocol D)

-- `DefaultMaxBytes`
abbrev pub default_max_bytes : ℤ
default_max_bytes = pos (10 * 2 ^ 30)

-- `Defaults`, with what `os.TempDir` gives; the fields it does not name are zero values.
unfoldable pub defaults : Bytes → Settings
defaults temp_dir = record {
  enable_auto_extract = true;
  aws_credentials = record {
    access_key_id = [];
    secret_access_key = [];
    session_token = [];
    region = [];
  };
  gcp_credentials = record { service_account_key = []; endpoint = [] };
  oci_credentials = [];
  oci_plain_http = false;
  https_credentials = [];
  git = record {
    ssh_keys = [];
    known_hosts = [];
    depth = 0;
    insecure_skip_host_key_verify = false;
    ssh_to_https = false;
    recurse_submodules = false;
  };
  no_system_fallback = false;
  no_ambient_credentials = false;
  temporary_directory = temp_dir;
  http_transport = none;
  netrc = false;
  tls_ca_certs = [];
  client_certificates = [];
  proxies = [];
  ssrf_level = default_level;
  ssrf_custom = none;
  ssrf_allow = [];
  http_credential_request = none;
  connect_probe_timeout = pos 0;
  max_bytes = default_max_bytes;
  allowed_local_dirs = [];
}

module _ {D : Type 0} where
  -- What a call does to the settings.
  unfoldable pub update_of : Call D → Update
  update_of (connect_probe_timeout_call d) = with_connect_probe_timeout d
  update_of (http_transport_call transport) = with_http_transport transport
  update_of (tls_ca_cert_call pem) = with_tls_ca_cert pem
  update_of (client_certificate_call cert_pem key_pem) = with_client_certificate cert_pem key_pem
  update_of (client_certificate_for_host_call host cert_pem key_pem) =
      with_client_certificate_for_host host cert_pem key_pem
  update_of (http_proxy_call u username password) = with_http_proxy u username password
  update_of (http_proxy_for_host_call host u username password) =
      with_http_proxy_for_host host u username password
  update_of (ssrf_protection_call level) = with_ssrf_protection level
  update_of (custom_ssrf_protection_call blocks) = with_custom_ssrf_protection blocks
  update_of (http_credential_request_function_call f) = with_http_credential_request_function f
  update_of (ssrf_allow_hosts_call hosts) = with_ssrf_allow_hosts hosts
  update_of (netrc_call on) = with_netrc on
  update_of (temporary_directory_call directory) = with_temporary_directory directory
  update_of (auto_extract_call on) = with_auto_extract on
  update_of (max_download_bytes_call n) = with_max_download_bytes n
  update_of (allowed_local_directories_call dirs) = with_allowed_local_directories dirs
  update_of (aws_credentials_call access_key_id secret_access_key session_token region) =
      with_aws_credentials access_key_id secret_access_key session_token region
  update_of (gcp_credentials_call service_account_key) = with_gcp_credentials service_account_key
  update_of (oci_credentials_call username password) = with_oci_credentials username password
  update_of (oci_credential_for_registry_call registry username password) =
      with_oci_credential_for_registry registry username password
  update_of oci_plain_http_call = with_oci_plain_http
  update_of (https_credential_call host username password) =
      with_https_credential host username password
  update_of (https_credential_for_path_call host path username password) =
      with_https_credential_for_path host path username password
  update_of git_ssh_to_https_call = with_git_ssh_to_https
  update_of (git_recurse_submodules_call on) = with_git_recurse_submodules on
  update_of (git_ssh_key_call key) = with_git_ssh_key key
  update_of (git_ssh_key_for_host_call host key) = with_git_ssh_key_for_host host key
  update_of (git_depth_call depth) = with_git_depth depth
  update_of git_insecure_skip_host_key_verify_call = with_git_insecure_skip_host_key_verify
  update_of (git_known_hosts_call known_hosts) = with_git_known_hosts known_hosts
  update_of no_system_fallback_call = with_no_system_fallback
  update_of no_ambient_call = without_ambient_credentials
  update_of (protocols_call ps) = λ s. s

  -- `WithProtocols` replaces the protocols; every other option keeps them.
  unfoldable pub with_protocols : Call D → List (Protocol D) → List (Protocol D)
  with_protocols (protocols_call ps) old = ps
  with_protocols _ old = old

  unfoldable pub apply_option : Call D → Grabber D → Grabber D
  apply_option c g = record {
    settings = update_of c g.settings;
    protocols = with_protocols c g.protocols;
  }

  -- The loop of `New`.
  unfoldable pub apply_options : List (Call D) → Grabber D → Grabber D
  apply_options [] g = g
  apply_options (c ∷ cs) g = apply_options cs (apply_option c g)

  -- `New`, with what `os.TempDir` gives and the protocols of `allProtocols`.
  unfoldable pub new : Bytes → List (Protocol D) → List (Call D) → Grabber D
  new temp_dir all_protocols cs =
      apply_options cs record { settings = defaults temp_dir; protocols = all_protocols }
