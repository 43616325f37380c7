-- ===== src/Git/Auth/KnownHosts.antt =====
-- `knownHostsCallback` and `normalizeKnownHost` of protocols/git/git.go. `ParseKnownHosts` is a
-- parameter: what it finds, line by line, is the data.
use grabber.Base.{Bool, true, List, [], ◌∷◌, ◌++◌, none, some, if◌then◌else◌, Result, ok, err, any}
use grabber.Text.{Bytes, codes, text_eq, has_prefix, to_lower, trim_space, trim_prefix, trim_suffix}
use grabber.Net.Parse.{split_host_port}

-- What `ParseKnownHosts` gives before the end: the patterns of a line and its marshaled key.
pub data KnownNext : Type 0 where
  known : List Bytes → Bytes → KnownNext
  malformed : KnownNext

-- `hostKeys`
abbrev pub HostKeys : Type 0
HostKeys = List (Bytes × List Bytes)

-- `normalizeKnownHost`
unfoldable pub normalize_known_host : Bytes → Bytes
normalize_known_host h =
    let lowered = to_lower (trim_space h) in
    elim (split_host_port lowered) [
      | some (host, port) ↦ host
      | none ↦ trim_suffix (codes "]") (trim_prefix (codes "[") lowered)
    ]

-- `hostKeys[key] = append(hostKeys[key], pubKey)`
unfoldable pub add_host_key : Bytes → Bytes → HostKeys → HostKeys
add_host_key name key [] = (name, key ∷ []) ∷ []
add_host_key name key ((n, keys) ∷ rest) =
    let later = add_host_key name key rest in
    if text_eq n name then (n, keys ++ key ∷ []) ∷ rest else (n, keys) ∷ later

unfoldable pub keys_of : Bytes → HostKeys → List Bytes
keys_of name [] = []
keys_of name ((n, keys) ∷ rest) = if text_eq n name then keys else keys_of name rest

-- The loop over the patterns of a line.
unfoldable pub add_hosts : List Bytes → Bytes → HostKeys → HostKeys
add_hosts [] key m = m
add_hosts (h ∷ hosts) key m =
    if has_prefix (codes "|") h
    then add_hosts hosts key m
    else add_hosts hosts key (add_host_key (normalize_known_host h) key m)

-- The loop over the lines.
unfoldable pub add_lines : List KnownNext → HostKeys → Result (Unit {0}) HostKeys
add_lines [] m = ok m
add_lines (malformed ∷ rest) m = err tt
add_lines (known hosts key ∷ rest) m = add_lines rest (add_hosts hosts key m)

-- `knownHostsCallback`
unfoldable pub known_hosts_callback : List KnownNext → Result (Unit {0}) HostKeys
known_hosts_callback lines = add_lines lines []

abbrev pub accepts_one : List Bytes → Bytes → Bool
accepts_one [] key = true
accepts_one (k ∷ keys) key = any (λ known_key. text_eq known_key key) (k ∷ keys)

-- The callback that it returns: whether the key is accepted.
unfoldable pub accepts_host_key : HostKeys → Bytes → Bytes → Bool
accepts_host_key m hostname key = accepts_one (keys_of (normalize_known_host hostname) m) key
