-- ===== src/Settings/Credentials/Scope.antt =====
-- Which requests a credential reaches.
use grabber.Base.{
  ℕ, zero, suc, ◌≤◌, true, ◌||◌, List, [], ◌∷◌, ◌++◌, map, ◌≡◌, ◌≢◌, ◌↔◌, ◌⊎◌, inl, inr, refl, sym,
  ap, ◌∙◌, Option, none, some, leb, ◌==◌, Bool-cases, All, arith, length, take, drop, ==_iff,
  and-eq-true, length-append,
}
use grabber.Text.{Bytes, is_empty, equal_fold, lower}
use grabber.Settings.Types.{Url, HttpsCredential, Settings}
use native.Mathlib.Nat.{le_of_eq}
use grabber.Settings.Credentials.{
  Match, add_match, starts_slash, path_match, has_prefix_fold, has_segment_prefix_fold, url_path,
  cred_path, url_user, match_one, matches, insert_match, sort_matches, match_https_credentials,
}

-- A path covers another: the same but for letter case, or that path, a slash and more.
pub data Covers : Bytes → Bytes → Type 0 where
  same : {p s : Bytes} → equal_fold s p ≡ true → Covers p s
  under :
      {p s : Bytes} (start rest : Bytes)
      → equal_fold start p ≡ true
      → s ≡ start ++ b'/' ∷ rest
      → Covers p s

take-drop : (n : ℕ) (s : Bytes) → take n s ++ drop n s ≡ s
take-drop zero s = refl
take-drop (suc n) [] = refl
take-drop (suc n) (c ∷ s) = ap (◌∷◌ c) (take-drop n s)

length_of_equal_fold : (s p : Bytes) → equal_fold s p ≡ true → length s ≡ length p
unfolding equal_fold
length_of_equal_fold [] [] h = refl
length_of_equal_fold [] (d ∷ p) h = absurd (cc h)
length_of_equal_fold (c ∷ s) [] h = absurd (cc h)
length_of_equal_fold (c ∷ s) (d ∷ p) h =
    ap suc (length_of_equal_fold s p (and-eq-true (lower c == lower d) (equal_fold s p) h).1)

take_all : (s : Bytes) (n : ℕ) → length s ≤ n → take n s ≡ s
take_all [] zero h = refl
take_all [] (suc n) h = refl
take_all (c ∷ s) zero h = absurd (omega arith)
take_all (c ∷ s) (suc n) h = ap (◌∷◌ c) (take_all s n (omega arith))

take-append : (s t : Bytes) → take (length s) (s ++ t) ≡ s
take-append [] t = refl
take-append (c ∷ s) t = ap (◌∷◌ c) (take-append s t)

drop-append : (s t : Bytes) → drop (length s) (s ++ t) ≡ t
drop-append [] t = refl
drop-append (c ∷ s) t = drop-append s t

-- The test is exact: a path prefix is matched at a separator, and only there.
slash_case :
    (s p tail : Bytes)
    → equal_fold (take (length p) s) p ≡ true
    → take (length p) s ++ tail ≡ s
    → starts_slash tail ≡ true
    → Covers p s
unfolding starts_slash
slash_case s p [] e t h = absurd (cc h)
slash_case s p (c ∷ tail) e t h =
    under (take (length p) s) tail e
      (sym t ∙ ap (λ b. take (length p) s ++ b ∷ tail) ((==_iff c b'/').0 h))

segment-Covers : (s p : Bytes) → has_segment_prefix_fold s p ≡ true → Covers p s
unfolding has_segment_prefix_fold has_prefix_fold
segment-Covers s p h =
    let (fold, ends) = split_test s p h in
    let (fits, starts) = and-eq-true (leb (length p) (length s)) _ fold in
    elim (Bool-cases (length s == length p)) [
      | inl e ↦
          let whole = take_all s (length p) (le_of_eq ((==_iff (length s) (length p)).0 e)) in
          same (rw whole at starts)
      | inr e ↦ slash_case s p (drop (length p) s) starts (take-drop (length p) s) (rw e at ends)
    ]
  where
    split_test :
        (s p : Bytes)
        → has_segment_prefix_fold s p ≡ true
        → (has_prefix_fold s p ≡ true)
          × ((length s == length p || starts_slash (drop (length p) s)) ≡ true)
    split_test s p h = elim (Bool-cases (has_prefix_fold s p)) [
      | inl e ↦ (e, rw e at h)
      | inr e ↦ absurd (cc (rw e at h))
    ]

Covers-segment : (s p : Bytes) → Covers p s → has_segment_prefix_fold s p ≡ true
unfolding has_segment_prefix_fold has_prefix_fold starts_slash
Covers-segment s p (same e) =
    let n = length_of_equal_fold s p e in rw (take_all s (length p) (le_of_eq n), e) (ground arith)
Covers-segment s p (under start rest e t) =
    let n = length_of_equal_fold start p e in
    rw (t, ← n, take-append, drop-append, e) (ground (arith, length-append start (b'/' ∷ rest)))

-- What a credential asks of a request: the host, the account if the URL names one, and the path.
pub record Applies (u : Url) (c : HttpsCredential) : Type 0 where
  pub host : equal_fold c.host u.hostname ≡ true
  pub account : (is_empty (url_user u) ≡ true) ⊎ (equal_fold c.username (url_user u) ≡ true)
  pub path : (is_empty c.path ≡ true) ⊎ Covers (cred_path c) (url_path u)

path_match-path :
    (u : Url) (c : HttpsCredential) (m : Match)
    → path_match u c ≡ some m
    → ((is_empty c.path ≡ true) ⊎ Covers (cred_path c) (url_path u)) × (m.0 ≡ c)
unfolding path_match
path_match-path u c m h = elim (Bool-cases (is_empty c.path)) [
  | inl e ↦ (inl e, first_of_some c 0 m (rw e at h))
  | inr e ↦ elim (Bool-cases (has_segment_prefix_fold (url_path u) (cred_path c))) [
    | inl seg ↦ (
      inr (segment-Covers (url_path u) (cred_path c) seg),
      first_of_some c _ m (rw (e, seg) at h),
    )
    | inr miss ↦ absurd (cc (rw (e, miss) at h))
  ]
]
  where
    first_of_some :
        (c : HttpsCredential) (n : ℕ) (m : Match)
        → ◌≡◌ {A = Option Match} (some (c, n)) (some m)
        → m.0 ≡ c
    first_of_some c n m h = cc

match_one-Applies :
    (u : Url) (c : HttpsCredential) (m : Match) → match_one u c ≡ some m → Applies u c × (m.0 ≡ c)
unfolding match_one
match_one-Applies u c m h = elim (Bool-cases (equal_fold c.host u.hostname)) [
  | inr e ↦ absurd (cc (rw e at h))
  | inl e ↦ elim (Bool-cases (is_empty (url_user u))) [
    | inl none_named ↦
        let (p, same_cred) = path_match-path u c m (rw (e, none_named) at h) in
        (record { host = e; account = inl none_named; path = p }, same_cred)
    | inr named ↦ elim (Bool-cases (equal_fold c.username (url_user u))) [
      | inl account ↦
          let (p, same_cred) = path_match-path u c m (rw (e, named, account) at h) in
          (record { host = e; account = inr account; path = p }, same_cred)
      | inr another ↦ absurd (cc (rw (e, named, another) at h))
    ]
  ]
]

Applies-match_one : (u : Url) (c : HttpsCredential) → Applies u c → match_one u c ≢ none
unfolding match_one path_match
Applies-match_one u c a h = elim a.account [
  | inl e ↦ ground (arith, a.host, at_path a.path)
  | inr e ↦ ground (arith, a.host, at_path a.path)
]
  where
    at_path :
        (is_empty c.path ≡ true) ⊎ Covers (cred_path c) (url_path u)
        → (is_empty c.path ≡ true) ⊎ (has_segment_prefix_fold (url_path u) (cred_path c) ≡ true)
    at_path (inl e) = inl e
    at_path (inr k) = inr (Covers-segment (url_path u) (cred_path c) k)

add_one :
    (u : Url) (c : HttpsCredential) (o : Option Match) (ms : List Match)
    → match_one u c ≡ o
    → All (λ m. Applies u m.0) ms
    → All (λ m. Applies u m.0) (add_match o ms)
unfolding add_match
add_one u c none ms e h = h
add_one u c (some m) ms e h = let (a, same_cred) = match_one-Applies u c m e in (rw same_cred a, h)

matches-Applies : (u : Url) (cs : List HttpsCredential) → All (λ m. Applies u m.0) (matches u cs)
unfolding matches
matches-Applies u [] = tt
matches-Applies u (c ∷ cs) = add_one u c (match_one u c) (matches u cs) refl (matches-Applies u cs)

insert_match-All :
    (u : Url) (m : Match) (ms : List Match)
    → Applies u m.0
    → All (λ m. Applies u m.0) ms
    → All (λ m. Applies u m.0) (insert_match m ms)
unfolding insert_match
insert_match-All u m [] h _ = (h, tt)
insert_match-All u m (n ∷ ms) h (p, ps) = elim (Bool-cases (leb n.1 m.1)) [
  | inl e ↦ rw e (h, (p, ps))
  | inr e ↦ rw e (p, insert_match-All u m ms h ps)
]

sort_matches-All :
    (u : Url) (ms : List Match)
    → All (λ m. Applies u m.0) ms
    → All (λ m. Applies u m.0) (sort_matches ms)
unfolding sort_matches
sort_matches-All u [] h = tt
sort_matches-All u (m ∷ ms) (p, ps) =
    insert_match-All u m (sort_matches ms) p (sort_matches-All u ms ps)

All-map_first :
    (u : Url) (ms : List Match) → All (λ m. Applies u m.0) ms → All (Applies u) (map (λ m. m.0) ms)
All-map_first u [] h = tt
All-map_first u (m ∷ ms) (p, ps) = (p, All-map_first u ms ps)

-- Every credential that is offered for a URL that can be parsed is for its host, for the account
-- that it names, if it names one, and has no path or one that covers the URL's at a separator.
pub match_https_credentials-Applies :
    (parse_url : Bytes → Option Url) (s : Settings) (raw_url : Bytes) (u : Url)
    → parse_url raw_url ≡ some u
    → All (Applies u) (match_https_credentials parse_url s raw_url)
unfolding match_https_credentials
match_https_credentials-Applies parse_url s raw_url u e = rw e (
    All-map_first u (sort_matches (matches u s.https_credentials))
      (sort_matches-All u (matches u s.https_credentials) (matches-Applies u s.https_credentials)))

-- A credential is taken up by the loop exactly if it applies to the URL.
match_one_iff : (u : Url) (c : HttpsCredential) → (match_one u c ≢ none) ↔ Applies u c
match_one_iff u c = (λ h. taken (match_one u c) refl h, Applies-match_one u c)
  where
    taken : (o : Option Match) → match_one u c ≡ o → match_one u c ≢ none → Applies u c
    taken none e h = absurd (h e)
    taken (some m) e h = (match_one-Applies u c m e).0
