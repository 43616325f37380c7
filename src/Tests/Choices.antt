-- ===== src/Tests/Choices.antt =====
-- The theorems on settings, protocols and checksums at concrete inputs.
use grabber.Base.{ℕ, true, false, List, [], ◌∷◌, ◌≡◌, refl, Option, none, some, ok, All, pos}
use grabber.Text.{Bytes, codes, text_eq, is_empty, equal_fold, cut, contains, to_lower, has_prefix}
use grabber.Ssrf.{Guard, internal, no_guard}
use grabber.Ssrf.Proxied.{answer, Resolver}
use grabber.Settings.Types.{Url, Settings, HttpsCredential}
use grabber.Settings.Credentials.{Match, sort_matches, match_https_credentials}
use grabber.Settings.Credentials.Order.{IsSorted, of_length, sort_matches_stable}
use grabber.Settings.Credentials.Scope.{Applies, match_https_credentials-Applies}
use grabber.Grabber.Dispatch.{Protocol, chosen, by_detection, sort_protocols, protocol_less}
use grabber.Grabber.Dispatch.Best.{IsBest, sort_protocols-IsBest}
use grabber.Grabber.Checksum.{ChecksumSpec, QueryView, extract_checksum, new_hash, verify_checksum}
use grabber.Git.Url.{query_get}
use grabber.Grabber.Grab.Verified.{Established}
use grabber.Grabber.Grab.{
  World, downloaded_tree, not_archive, effective, check_sum, auto_extract, place, grab,
}
use grabber.Grabber.Grab.Verified.{grab-Matches}

abbrev cred : HttpsCredential
cred = record {
  host = codes "git.example";
  username = codes "u";
  password = codes "p";
  path = codes "org";
}

abbrev any_cred : HttpsCredential
any_cred = record {
  host = codes "git.example";
  username = codes "v";
  password = codes "q";
  path = [];
}

abbrev pub config : Settings
config = record {
  enable_auto_extract = true;
  aws_credentials = record {
    access_key_id = [];
    secret_access_key = [];
    session_token = [];
    region = [];
  };
  gcp_credentials = record { service_account_key = []; endpoint = [] };
  oci_credentials =
      record { registry = codes "r.example"; username = codes "u"; password = codes "p" } ∷ [];
  oci_plain_http = false;
  https_credentials = any_cred ∷ cred ∷ [];
  git = record {
    ssh_keys =
        record { host = []; key = codes "k1" }
        ∷ record { host = codes "git.example"; key = codes "k2" }
        ∷ [];
    known_hosts = [];
    depth = 0;
    insecure_skip_host_key_verify = false;
    ssh_to_https = false;
    recurse_submodules = false;
  };
  no_system_fallback = false;
  no_ambient_credentials = false;
  temporary_directory = [];
  http_transport = none;
  netrc = false;
  tls_ca_certs = [];
  client_certificates = record { host = []; cert = codes "c"; key = codes "k" } ∷ [];
  proxies = record { host = codes "git.example"; url = none; username = []; password = [] } ∷ [];
  ssrf_level = internal;
  ssrf_custom = none;
  ssrf_allow = [];
  http_credential_request = none;
  connect_probe_timeout = pos 0;
  max_bytes = pos 0;
  allowed_local_dirs = [];
}

abbrev pub url : Url
url = record {
  scheme = codes "https";
  user = none;
  hostname = codes "git.example";
  port = [];
  path = codes "/org/repo";
  query = [];
}

abbrev pub parse_url : Bytes → Option Url
parse_url s = some url

abbrev found : List Match
found = (any_cred, 0) ∷ (cred, 4) ∷ []

sort_matches_stable_example :
    IsSorted (sort_matches found) × (of_length 4 (sort_matches found) ≡ of_length 4 found)
sort_matches_stable_example = sort_matches_stable found 4

match_https_credentials-Applies_example :
    All
      (Applies url)
      (match_https_credentials parse_url config (codes "https://git.example/org/repo"))
match_https_credentials-Applies_example =
    match_https_credentials-Applies parse_url config (codes "https://git.example/org/repo") url refl

abbrev unguarded : Guard
unguarded = record {
  level = no_guard;
  custom_test = none;
  allow_hosts = [];
  allow_ips = [];
  allow_nets = [];
}

abbrev resolver : Resolver
resolver = record {
  lookup_form = some;
  punycode_form = some;
  lookup = λ host. answer ((8 ∷ 8 ∷ 8 ∷ 8 ∷ []) ∷ []);
  context_done = false;
}

abbrev weak : Protocol ℕ
weak = record { prefix = codes "http"; priority = 1; detect = λ url. some 1; detect_forced = none }

abbrev strong : Protocol ℕ
strong = record { prefix = codes "git"; priority = 5; detect = λ url. some 5; detect_forced = none }

detected : by_detection (codes "x") (sort_protocols (weak ∷ strong ∷ [])) ≡ chosen 5
unfolding by_detection sort_protocols protocol_less
detected = refl

sort_protocols-IsBest_example : IsBest (codes "x") 5 (weak ∷ strong ∷ [])
sort_protocols-IsBest_example = sort_protocols-IsBest (codes "x") 5 (weak ∷ strong ∷ []) detected

abbrev world : World
world = record {
  temp_dir_made = true;
  download = λ url. some true;
  staging = record { entries = some (codes "f" ∷ []); digest = λ h name. some (codes "AB") };
  extraction = λ name. not_archive;
  archive_removed = true;
  destination_exists = false;
  renamed = true;
  copied = true;
}

abbrev view : Bytes → Option QueryView
view s = some record {
  query = (codes "a", codes "1") ∷ (codes "checksum", codes "md5:AB") ∷ [];
  with_query = λ q. codes "u?a=1";
}

-- The parameter goes from the URL that is fetched, and the forced prefix stays.
cleaned_url :
    extract_checksum view (codes "git::u?checksum=md5:AB")
    ≡ (codes "git::u?a=1", record { algorithm = codes "md5"; expected = codes "AB" })
unfolding extract_checksum query_get cut contains is_empty text_eq
cleaned_url = refl

abbrev asked_for : ChecksumSpec
asked_for = record { algorithm = codes "md5"; expected = codes "ab" }

grabbed : grab view world false (codes "u") asked_for ≡ ok downloaded_tree
unfolding grab effective check_sum auto_extract place verify_checksum extract_checksum new_hash
    is_empty cut contains text_eq to_lower equal_fold has_prefix
grabbed = refl

grab-Matches_example : Established view world (codes "u") asked_for
grab-Matches_example = grab-Matches view world false (codes "u") asked_for downloaded_tree grabbed
