-- ===== src/Settings/Types.antt =====
-- The records of settings/settings.go, with the fields that decisions read.
use grabber.Base.{ℕ, Bool, List, Option, ℤ, Result}
use grabber.Text.{Bytes}
use grabber.Net.{Ip}
use grabber.Ssrf.{Level}

-- `url.URL`: the user name with its password, the host with its port split off, and the query's
-- pairs in order.
pub record Url : Type 0 where
  pub scheme : Bytes
  pub user : Option (Bytes × Option Bytes)
  pub hostname : Bytes
  pub port : Bytes
  pub path : Bytes
  pub query : List (Bytes × Bytes)

pub record AwsCredentials : Type 0 where
  pub access_key_id : Bytes
  pub secret_access_key : Bytes
  pub session_token : Bytes
  pub region : Bytes

pub record GcpCredentials : Type 0 where
  pub service_account_key : Bytes
  pub endpoint : Bytes

pub record ClientCertificate : Type 0 where
  pub host : Bytes
  pub cert : Bytes
  pub key : Bytes

pub record ProxyConfig : Type 0 where
  pub host : Bytes
  pub url : Option Url
  pub username : Bytes
  pub password : Bytes

pub record OciCredential : Type 0 where
  pub registry : Bytes
  pub username : Bytes
  pub password : Bytes

pub record SshCredential : Type 0 where
  pub host : Bytes
  pub key : Bytes

pub record HttpsCredential : Type 0 where
  pub host : Bytes
  pub username : Bytes
  pub password : Bytes
  pub path : Bytes

pub record GitConfig : Type 0 where
  pub ssh_keys : List SshCredential
  pub known_hosts : Bytes
  pub depth : ℕ
  pub insecure_skip_host_key_verify : Bool
  pub ssh_to_https : Bool
  pub recurse_submodules : Bool

-- `CredentialRequestFunc`: protocol, host and path to a user name and a password.
abbrev pub CredentialRequest : Type 0
CredentialRequest = Bytes → Bytes → Bytes → Option (Option Bytes × Option Bytes)

-- The `Proxy` function of an `http.Transport`, of scheme and authority.
abbrev pub ProxyFunction : Type 0
ProxyFunction = Bytes → Bytes → Result (Unit {0}) (Option Url)

-- `x509.CertPool`: its certificates, as PEM.
abbrev pub Pool : Type 0
Pool = List Bytes

-- `tls.Config`: `none` for the system's roots; the certificates with their keys.
pub record TlsConfig : Type 0 where
  pub min_version : ℕ
  pub root_cas : Option Pool
  pub certificates : List (Bytes × Bytes)

-- `http.Transport`, as far as it is layered: `none` is a nil `Proxy` or `TLSClientConfig`, and
-- `own_tls` is whether it has a `DialTLSContext` or a `DialTLS`.
pub record BaseTransport : Type 0 where
  pub proxy : Option ProxyFunction
  pub tls : Option TlsConfig
  pub own_tls : Bool

pub record Settings : Type 0 where
  pub enable_auto_extract : Bool
  pub aws_credentials : AwsCredentials
  pub gcp_credentials : GcpCredentials
  pub oci_credentials : List OciCredential
  pub oci_plain_http : Bool
  pub https_credentials : List HttpsCredential
  pub git : GitConfig
  pub no_system_fallback : Bool
  pub no_ambient_credentials : Bool
  pub temporary_directory : Bytes
  pub http_transport : Option BaseTransport
  pub netrc : Bool
  pub tls_ca_certs : List Bytes
  pub client_certificates : List ClientCertificate
  pub proxies : List ProxyConfig
  pub ssrf_level : Level
  pub ssrf_custom : Option (Ip → Bool)
  pub ssrf_allow : List Bytes
  pub http_credential_request : Option CredentialRequest
  pub connect_probe_timeout : ℤ
  pub max_bytes : ℤ
  pub allowed_local_dirs : List Bytes
