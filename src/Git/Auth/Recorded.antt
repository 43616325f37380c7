-- ===== src/Git/Auth/Recorded.antt =====
-- The host key callback against the recorded keys, line by line.
use grabber.Base.{
  Bool, true, false, List, [], ◌∷◌, ◌++◌, ◌≡◌, ◌⊎◌, ◌↔◌, refl, sym, ap, ◌∙◌, subst, if◌then◌else◌,
  ok, any, inl, inr, Bool-cases, append_assoc, append-nil,
}
use grabber.Text.{Bytes, codes, text_eq, has_prefix}
use grabber.Text.Laws.{text_eq_iff}
use grabber.Git.Auth.KnownHosts.{
  KnownNext, known, malformed, HostKeys, normalize_known_host, add_host_key, keys_of, add_hosts,
  add_lines, known_hosts_callback, accepts_one, accepts_host_key,
}

-- The key of a line, once for each pattern that is not hashed and names the host.
unfoldable pub keys_on_line : Bytes → List Bytes → Bytes → List Bytes
keys_on_line name [] key = []
keys_on_line name (h ∷ hosts) key =
    let rest = keys_on_line name hosts key in
    if has_prefix (codes "|") h
    then rest
    else if text_eq (normalize_known_host h) name
    then key ∷ rest
    else rest

-- The keys that the lines record for a host.
unfoldable pub recorded : Bytes → List KnownNext → List Bytes
recorded name [] = []
recorded name (malformed ∷ rest) = recorded name rest
recorded name (known hosts key ∷ rest) = keys_on_line name hosts key ++ recorded name rest

keys_of-add_host_key :
    (name n key : Bytes) (m : HostKeys)
    → keys_of name (add_host_key n key m)
      ≡ (if text_eq n name then keys_of name m ++ key ∷ [] else keys_of name m)
unfolding keys_of add_host_key
keys_of-add_host_key name n key [] = refl
keys_of-add_host_key name n key ((n', keys) ∷ rest) = elim (Bool-cases (text_eq n' n)) [
  | inl same ↦ rw same (
      subst
        (λ x. (if text_eq n' name then keys ++ key ∷ [] else keys_of name rest) ≡ (
          if text_eq x name
          then (if text_eq n' name then keys else keys_of name rest) ++ key ∷ []
          else if text_eq n' name
          then keys
          else keys_of name rest))
        ((text_eq_iff n' n).0 same) (both (text_eq n' name)))
  | inr differs ↦
      rw (differs, keys_of-add_host_key name n key rest)
        (elim (Bool-cases (text_eq n' name)) [
          | inl here ↦ elim (Bool-cases (text_eq n name)) [
            | inl also ↦ absurd (cc (differs, here, (text_eq_iff n name).0 also))
            | inr elsewhere ↦ rw (here, elsewhere) refl
          ]
          | inr not_here ↦ rw not_here refl
        ])
]
  where
    both :
        (b : Bool)
        → (if b then keys ++ key ∷ [] else keys_of name rest) ≡ (
            if b
            then (if b then keys else keys_of name rest) ++ key ∷ []
            else if b
            then keys
            else keys_of name rest)
    both true = refl
    both false = refl

keys_of-add_hosts :
    (name key : Bytes) (hosts : List Bytes) (m : HostKeys)
    → keys_of name (add_hosts hosts key m) ≡ keys_of name m ++ keys_on_line name hosts key
unfolding add_hosts keys_on_line
keys_of-add_hosts name key [] m = sym (append-nil (keys_of name m))
keys_of-add_hosts name key (h ∷ hosts) m = elim (Bool-cases (has_prefix (codes "|") h)) [
  | inl hashed ↦ rw hashed (keys_of-add_hosts name key hosts m)
  | inr plain ↦
      rw
        (
          plain,
          keys_of-add_hosts name key hosts (add_host_key (normalize_known_host h) key m),
          keys_of-add_host_key name (normalize_known_host h) key m,
        )
        (elim (Bool-cases (text_eq (normalize_known_host h) name)) [
          | inl names ↦
              rw names (append_assoc (keys_of name m) (key ∷ []) (keys_on_line name hosts key))
          | inr other ↦ rw other refl
        ])
]

keys_of-add_lines :
    (name : Bytes) (lines : List KnownNext) (m m' : HostKeys)
    → add_lines lines m ≡ ok m'
    → keys_of name m' ≡ keys_of name m ++ recorded name lines
unfolding add_lines recorded
keys_of-add_lines name [] m m' h = cc (append-nil (keys_of name m))
keys_of-add_lines name (malformed ∷ rest) m m' h = cc
keys_of-add_lines name (known hosts key ∷ rest) m m' h =
    keys_of-add_lines name rest (add_hosts hosts key m) m' h
    ∙ ap (λ x. x ++ recorded name rest) (keys_of-add_hosts name key hosts m)
    ∙ append_assoc (keys_of name m) (keys_on_line name hosts key) (recorded name rest)

accepts_one_iff :
    (keys : List Bytes) (key : Bytes)
    → (accepts_one keys key ≡ true) ↔ ((keys ≡ []) ⊎ (any (λ k. text_eq k key) keys ≡ true))
accepts_one_iff [] key = ((λ h. inl refl), (λ h. refl))
accepts_one_iff (k ∷ keys) key = ((λ h. inr h), (λ h. elim h [ inl e ↦ cc | inr e ↦ e ]))

-- When the known_hosts text can be read, a host key is accepted exactly if no line with a pattern
-- that is not hashed names the host, or one that does has this key.
pub accepts_host_key_iff :
    (lines : List KnownNext) (m : HostKeys) (hostname key : Bytes)
    → known_hosts_callback lines ≡ ok m
    → (accepts_host_key m hostname key ≡ true) ↔ (
        (recorded (normalize_known_host hostname) lines ≡ [])
        ⊎ (any (λ k. text_eq k key) (recorded (normalize_known_host hostname) lines) ≡ true))
unfolding known_hosts_callback accepts_host_key
accepts_host_key_iff lines m hostname key h =
    let name = normalize_known_host hostname in
    subst
      (λ keys.
        (accepts_one keys key ≡ true)
        ↔ ((recorded name lines ≡ []) ⊎ (any (λ k. text_eq k key) (recorded name lines) ≡ true)))
      (sym (keys_of-add_lines name lines [] m h))
      (unfold keys_of in accepts_one_iff (recorded name lines) key)
