-- ===== src/Git/Refs/Laws.antt =====
-- Which clone wins among the attempts, and which commit a short hash names.
use grabber.Base.{
  ◌↔◌, Bool, true, false, List, [], ◌∷◌, map, ◌≡◌, inl, inr, ◌∙◌, refl, none, some, Result, ok, err,
  Bool-cases, Result-cases, if◌then◌else◌,
}
use grabber.Text.{Bytes, has_prefix}
use grabber.Git.Refs.{
  CloneAttempt, CloneError, missing_ref, try_attempts, clone_by_attempts, all_missing, ResolveError,
  ambiguous, not_found, matched_or, match_short,
}

module _ {R : Type 0} (clone : CloneAttempt → Result CloneError R) where
  -- An attempt clones, and the remote lacks the reference of each attempt before it.
  pub data FirstCloned (repo : R) : List CloneAttempt → Type 0 where
    here :
        {a : CloneAttempt} {rest : List CloneAttempt}
        → clone a ≡ ok repo
        → FirstCloned repo (a ∷ rest)
    after :
        {a : CloneAttempt} {rest : List CloneAttempt} (why : CloneError)
        → clone a ≡ err why
        → missing_ref a why ≡ true
        → FirstCloned repo rest
        → FirstCloned repo (a ∷ rest)

  try_attempts-FirstCloned :
      (repo : R) (why : CloneError) (attempts : List CloneAttempt)
      (finish : CloneError → CloneError)
      → try_attempts clone why attempts finish ≡ ok repo
      → FirstCloned repo attempts
  unfolding try_attempts
  try_attempts-FirstCloned repo why [] finish h = absurd (cc h)
  try_attempts-FirstCloned repo why (a ∷ rest) finish h = elim (Result-cases (clone a)) [
    | inl (r, k) ↦ here (k ∙ (rw (try_attempts, k) at h))
    | inr (e, k) ↦ elim (Bool-cases (missing_ref a e)) [
      | inl m ↦
          after e k m (try_attempts-FirstCloned repo e rest finish (rw (try_attempts, k, m) at h))
      | inr m ↦ absurd (cc (rw (try_attempts, k, m) at h))
    ]
  ]

  FirstCloned-try_attempts :
      (repo : R) (why : CloneError) (attempts : List CloneAttempt)
      (finish : CloneError → CloneError)
      → FirstCloned repo attempts
      → try_attempts clone why attempts finish ≡ ok repo
  unfolding try_attempts
  FirstCloned-try_attempts repo why [] finish x = elim x [ ]
  FirstCloned-try_attempts repo why (a ∷ rest) finish (here k) = rw (try_attempts, k)
  FirstCloned-try_attempts repo why (a ∷ rest) finish (after e k m later) =
      rw (try_attempts, k, m) (FirstCloned-try_attempts repo e rest finish later)

  -- A clone is returned exactly if some attempt gives it and the remote lacks the reference of each
  -- attempt before that one.
  pub clone_by_attempts_iff :
      (repo : R) (attempts : List CloneAttempt) (ref : Bytes)
      → (clone_by_attempts clone attempts ref ≡ ok repo) ↔ FirstCloned repo attempts
  unfolding clone_by_attempts
  clone_by_attempts_iff repo attempts ref = (
    try_attempts-FirstCloned repo CloneError.other_error attempts (all_missing ref attempts),
    FirstCloned-try_attempts repo CloneError.other_error attempts (all_missing ref attempts),
  )

-- The hashes with a prefix.
unfoldable pub matching : Bytes → List Bytes → List Bytes
matching lower [] = []
matching lower (h ∷ hs) = if has_prefix lower h then h ∷ matching lower hs else matching lower hs

-- What a list of matches means.
unfoldable pub the_only_one : List Bytes → Result ResolveError Bytes
the_only_one [] = err not_found
the_only_one (h ∷ []) = ok h
the_only_one (h ∷ k ∷ hs) = err ambiguous

match_short_found :
    (lower found : Bytes) (hashes : List Bytes)
    → match_short lower (some found) (map some hashes)
      ≡ the_only_one (found ∷ matching lower hashes)
unfolding match_short matching the_only_one matched_or
match_short_found lower found [] = refl
match_short_found lower found (h ∷ hs) = elim (Bool-cases (has_prefix lower h)) [
  | inl e ↦ rw e
  | inr e ↦ rw e (match_short_found lower found hs)
]

next_match :
    (lower h : Bytes) (hashes : List Bytes)
    → match_short lower none (map some hashes) ≡ the_only_one (matching lower hashes)
    → (b : Bool)
    → match_short lower (if b then some h else none) (map some hashes)
      ≡ the_only_one (if b then h ∷ matching lower hashes else matching lower hashes)
next_match lower h hashes ih true = match_short_found lower h hashes
next_match lower h hashes ih false = ih

-- On a log that can be read, a short hash names a commit exactly if one commit's hash starts with
-- it; with none it is not found, and with more it is ambiguous.
pub match_short-the_only_one :
    (lower : Bytes) (hashes : List Bytes)
    → match_short lower none (map some hashes) ≡ the_only_one (matching lower hashes)
unfolding match_short matching the_only_one matched_or
match_short-the_only_one lower [] = refl
match_short-the_only_one lower (h ∷ hs) =
    next_match lower h hs (match_short-the_only_one lower hs) (has_prefix lower h)
