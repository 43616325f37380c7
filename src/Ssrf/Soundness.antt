-- ===== src/Ssrf/Soundness.antt =====
-- What a check that passes has established.
use grabber.Base.{
  true, false, List, [], ◌∷◌, ◌≡◌, ◌⊎◌, inl, inr, refl, arith, Option, none, some, ok, Bool-cases,
  All,
}
use grabber.Text.{Bytes, is_empty}
use grabber.Net.{Ip}
use grabber.Net.Parse.{parse_ip}
use grabber.Ssrf.{
  Guard, enabled, host_allowed, blocked, is_numeric_host, check_host, first_allowed, keep_first,
  check_resolved, check_named,
}

-- Some address of the list may be dialed.
pub data HasAllowed (g : Guard) : List Ip → Type 0 where
  here : {ip : Ip} {addrs : List Ip} → blocked g ip ≡ false → HasAllowed g (ip ∷ addrs)
  later : {ip : Ip} {addrs : List Ip} → HasAllowed g addrs → HasAllowed g (ip ∷ addrs)

abbrev pub IsNil : Ip → Type 0
IsNil ip = is_empty ip ≡ true

-- Why `CheckHost` may let a host through.
pub data Permitted (resolve : Bytes → Option (List Ip)) (g : Guard) (host : Bytes) : Type 0 where
  disabled : enabled g ≡ false → Permitted resolve g host
  no_host : is_empty host ≡ true → Permitted resolve g host
  listed : host_allowed g host ≡ true → Permitted resolve g host
  literal : (ip : Ip) → parse_ip host ≡ some ip → blocked g ip ≡ false → Permitted resolve g host
  resolved :
      (addrs : List Ip)
      → parse_ip host ≡ none
      → is_numeric_host host ≡ false
      → resolve host ≡ some addrs
      → HasAllowed g addrs ⊎ All IsNil addrs
      → Permitted resolve g host

keep-IsNil :
    (g : Guard) (first ip : Ip) (addrs : List Ip)
    → blocked g ip ≡ true
    → HasAllowed g addrs ⊎ (IsNil (keep_first first ip) × All IsNil addrs)
    → HasAllowed g (ip ∷ addrs) ⊎ (IsNil first × All IsNil (ip ∷ addrs))
unfolding keep_first
keep-IsNil g first ip addrs stop (inl found) = inl (later found)
keep-IsNil g first ip addrs stop (inr (nil, nils)) = elim (Bool-cases (is_empty first)) [
  | inl e ↦ inr (e, ((rw e at nil), nils))
  | inr e ↦ absurd (cc (rw e at nil))
]

first_allowed-eq-ok :
    (g : Guard) (host first : Bytes) (addrs : List Ip)
    → first_allowed g host first addrs ≡ ok tt
    → HasAllowed g addrs ⊎ (IsNil first × All IsNil addrs)
unfolding first_allowed
first_allowed-eq-ok g host first [] h = elim (Bool-cases (is_empty first)) [
  | inl e ↦ inr (e, tt)
  | inr e ↦ cc (rw e at h)
]
first_allowed-eq-ok g host first (ip ∷ addrs) h = elim (Bool-cases (blocked g ip)) [
  | inr free ↦ inl (here free)
  | inl stop ↦
      keep-IsNil g first ip addrs stop
        (first_allowed-eq-ok g host (keep_first first ip) addrs (rw stop at h))
]

resolved_case :
    (resolve : Bytes → Option (List Ip)) (g : Guard) (host : Bytes)
    → parse_ip host ≡ none
    → is_numeric_host host ≡ false
    → (found : Option (List Ip)) → resolve host ≡ found
    → check_resolved g host found ≡ ok tt
    → Permitted resolve g host
unfolding check_resolved
resolved_case resolve g host e name none r h = absurd (cc h)
resolved_case resolve g host e name (some addrs) r h =
    resolved addrs e name r (drop_unit (first_allowed-eq-ok g host [] addrs h))
  where
    drop_unit :
        HasAllowed g addrs ⊎ (IsNil [] × All IsNil addrs) → HasAllowed g addrs ⊎ All IsNil addrs
    drop_unit (inl found) = inl found
    drop_unit (inr (_, nils)) = inr nils

check_named-Permitted :
    (resolve : Bytes → Option (List Ip)) (g : Guard) (host : Bytes) (parsed : Option Ip)
    → parse_ip host ≡ parsed
    → check_named resolve g host parsed ≡ ok tt
    → Permitted resolve g host
unfolding check_named
check_named-Permitted resolve g host (some ip) e h = literal ip e (ground arith)
check_named-Permitted resolve g host none e h = elim (Bool-cases (is_numeric_host host)) [
  | inl num ↦ absurd (cc (rw num at h))
  | inr name ↦ resolved_case resolve g host e name (resolve host) refl (rw name at h)
]

-- A host that the check lets through is unguarded, empty or on the allow list, or it is a literal
-- that is not blocked, or a name with a resolved address that is not blocked (or with no address at
-- all), and never a numeric spelling that is no canonical literal.
pub check_host-Permitted :
    (resolve : Bytes → Option (List Ip)) (g : Guard) (host : Bytes)
    → check_host resolve g host ≡ ok tt
    → Permitted resolve g host
unfolding check_host
check_host-Permitted resolve g host h = elim (Bool-cases (enabled g)) [
  | inr off ↦ disabled off
  | inl on ↦ elim (Bool-cases (is_empty host)) [
    | inl nil ↦ no_host nil
    | inr full ↦ elim (Bool-cases (host_allowed g host)) [
      | inl free ↦ listed free
      | inr other ↦
          check_named-Permitted resolve g host (parse_ip host) refl (rw (on, full, other) at h)
    ]
  ]
]
