-- ===== src/Grabber/Options.antt =====
-- options.go: each option as an update of the settings. A depth is not negative.
use grabber.Base.{ℕ, Bool, true, not, List, [], ◌∷◌, ◌++◌, Option, if◌then◌else◌, ℤ}
use grabber.Text.{Bytes, is_empty}
use grabber.Net.{Ip}
use grabber.Ssrf.{Level, custom}
use grabber.Settings.Types.{Url, Settings, BaseTransport, CredentialRequest}

-- What an option does to `g.settings`.
abbrev pub Update : Type 0
Update = Settings → Settings

-- `WithConnectProbeTimeout`
unfoldable pub with_connect_probe_timeout : ℤ → Update
with_connect_probe_timeout d s = record s { connect_probe_timeout = d }

-- `WithHTTPTransport`
unfoldable pub with_http_transport : Option BaseTransport → Update
with_http_transport transport s = record s { http_transport = transport }

-- `WithTLSCACert`
unfoldable pub with_tls_ca_cert : Bytes → Update
with_tls_ca_cert pem s = record s { tls_ca_certs = s.tls_ca_certs ++ pem ∷ [] }

-- `WithClientCertificate`
unfoldable pub with_client_certificate : Bytes → Bytes → Update
with_client_certificate cert_pem key_pem s = record s {
  client_certificates =
      s.client_certificates ++ record { host = []; cert = cert_pem; key = key_pem } ∷ [];
}

-- `WithClientCertificateForHost`
unfoldable pub with_client_certificate_for_host : Bytes → Bytes → Bytes → Update
with_client_certificate_for_host host cert_pem key_pem s = record s {
  client_certificates =
      s.client_certificates ++ record { host = host; cert = cert_pem; key = key_pem } ∷ [];
}

-- `WithHTTPProxy`
unfoldable pub with_http_proxy : Option Url → Bytes → Bytes → Update
with_http_proxy u username password s = record s {
  proxies =
      s.proxies ++ record { host = []; url = u; username = username; password = password } ∷ [];
}

-- `WithHTTPProxyForHost`
unfoldable pub with_http_proxy_for_host : Bytes → Option Url → Bytes → Bytes → Update
with_http_proxy_for_host host u username password s = record s {
  proxies =
      s.proxies ++ record { host = host; url = u; username = username; password = password } ∷ [];
}

-- `WithSSRFProtection`
unfoldable pub with_ssrf_protection : Level → Update
with_ssrf_protection level s = record s { ssrf_level = level }

-- `WithCustomSSRFProtection`
unfoldable pub with_custom_ssrf_protection : Option (Ip → Bool) → Update
with_custom_ssrf_protection blocks s = record s { ssrf_level = custom; ssrf_custom = blocks }

-- `WithHTTPCredentialRequestFunction`
unfoldable pub with_http_credential_request_function : Option CredentialRequest → Update
with_http_credential_request_function f s = record s { http_credential_request = f }

-- `WithSSRFAllowHosts`
unfoldable pub with_ssrf_allow_hosts : List Bytes → Update
with_ssrf_allow_hosts hosts s = record s { ssrf_allow = s.ssrf_allow ++ hosts }

-- `WithNetrc`
unfoldable pub with_netrc : Bool → Update
with_netrc on s = record s { netrc = on }

-- `WithTemporaryDirectory`
unfoldable pub with_temporary_directory : Bytes → Update
with_temporary_directory directory s = record s {
  temporary_directory = if not (is_empty directory) then directory else s.temporary_directory;
}

-- `WithAutoExtract`
unfoldable pub with_auto_extract : Bool → Update
with_auto_extract on s = record s { enable_auto_extract = on }

-- `WithMaxDownloadBytes`
unfoldable pub with_max_download_bytes : ℤ → Update
with_max_download_bytes n s = record s { max_bytes = n }

-- `WithAllowedLocalDirectories`
unfoldable pub with_allowed_local_directories : List Bytes → Update
with_allowed_local_directories dirs s = record s {
  allowed_local_dirs = s.allowed_local_dirs ++ dirs;
}

-- `WithAWSCredentials`
unfoldable pub with_aws_credentials : Bytes → Bytes → Bytes → Bytes → Update
with_aws_credentials access_key_id secret_access_key session_token region s = record s {
  aws_credentials = record {
    access_key_id = access_key_id;
    secret_access_key = secret_access_key;
    session_token = session_token;
    region = region;
  };
}

-- `WithGCPCredentials`
unfoldable pub with_gcp_credentials : Bytes → Update
with_gcp_credentials service_account_key s = record s {
  gcp_credentials = record { service_account_key = service_account_key; endpoint = [] };
}

-- `WithOCICredentials`
unfoldable pub with_oci_credentials : Bytes → Bytes → Update
with_oci_credentials username password s = record s {
  oci_credentials =
      s.oci_credentials ++ record { registry = []; username = username; password = password } ∷ [];
}

-- `WithOCICredentialForRegistry`
unfoldable pub with_oci_credential_for_registry : Bytes → Bytes → Bytes → Update
with_oci_credential_for_registry registry username password s = record s {
  oci_credentials =
      s.oci_credentials
      ++ record { registry = registry; username = username; password = password } ∷ [];
}

-- `WithOCIPlainHTTP`
unfoldable pub with_oci_plain_http : Update
with_oci_plain_http s = record s { oci_plain_http = true }

-- `WithHTTPSCredential`
unfoldable pub with_https_credential : Bytes → Bytes → Bytes → Update
with_https_credential host username password s = record s {
  https_credentials =
      s.https_credentials
      ++ record { host = host; username = username; password = password; path = [] } ∷ [];
}

-- `WithHTTPSCredentialForPath`
unfoldable pub with_https_credential_for_path : Bytes → Bytes → Bytes → Bytes → Update
with_https_credential_for_path host path username password s = record s {
  https_credentials =
      s.https_credentials
      ++ record { host = host; username = username; password = password; path = path } ∷ [];
}

-- `WithGitSSHToHTTPS`
unfoldable pub with_git_ssh_to_https : Update
with_git_ssh_to_https s = record s { git = record s.git { ssh_to_https = true } }

-- `WithGitRecurseSubmodules`
unfoldable pub with_git_recurse_submodules : Bool → Update
with_git_recurse_submodules on s = record s { git = record s.git { recurse_submodules = on } }

-- `WithGitSSHKey`
unfoldable pub with_git_ssh_key : Bytes → Update
with_git_ssh_key key s = record s {
  git = record s.git { ssh_keys = s.git.ssh_keys ++ record { host = []; key = key } ∷ [] };
}

-- `WithGitSSHKeyForHost`
unfoldable pub with_git_ssh_key_for_host : Bytes → Bytes → Update
with_git_ssh_key_for_host host key s = record s {
  git = record s.git { ssh_keys = s.git.ssh_keys ++ record { host = host; key = key } ∷ [] };
}

-- `WithGitDepth`
unfoldable pub with_git_depth : ℕ → Update
with_git_depth depth s = record s { git = record s.git { depth = depth } }

-- `WithGitInsecureSkipHostKeyVerify`
unfoldable pub with_git_insecure_skip_host_key_verify : Update
with_git_insecure_skip_host_key_verify s = record s {
  git = record s.git { insecure_skip_host_key_verify = true };
}

-- `WithGitKnownHosts`
unfoldable pub with_git_known_hosts : Bytes → Update
with_git_known_hosts known_hosts s = record s { git = record s.git { known_hosts = known_hosts } }

-- `WithNoSystemFallback`
unfoldable pub with_no_system_fallback : Update
with_no_system_fallback s = record s { no_system_fallback = true }

-- `WithoutAmbientCredentials`
unfoldable pub without_ambient_credentials : Update
without_ambient_credentials s = record s { no_ambient_credentials = true }
