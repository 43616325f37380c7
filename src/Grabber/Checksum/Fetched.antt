-- ===== src/Grabber/Checksum/Fetched.antt =====
-- Which URL is fetched for a URL, and with which checksum.
use grabber.Base.{
  true, false, List, [], ◌∷◌, ◌++◌, ◌≡◌, ◌⊎◌, inl, inr, refl, Option, none, some, Bool-cases,
}
use grabber.Text.{Bytes, codes, text_eq, is_empty, cut, contains}
use grabber.Text.Laws.{cut-eq-some}
use grabber.Git.Url.{query_get}
use grabber.Http.{query_del}
use grabber.Grabber.Checksum.{
  ChecksumSpec, QueryView, Extracted, no_checksum, spec_of, accept, viewed, parsed, after_prefix,
  extract_checksum,
}

-- A query and the same pairs in order but for those with a key.
pub data Without (key : Bytes) : List (Bytes × Bytes) → List (Bytes × Bytes) → Type 0 where
  nothing_left : Without key [] []
  dropped :
      {k v : Bytes} {q q' : List (Bytes × Bytes)}
      → text_eq k key ≡ true
      → Without key q q'
      → Without key ((k, v) ∷ q) q'
  kept :
      {k v : Bytes} {q q' : List (Bytes × Bytes)}
      → text_eq k key ≡ false
      → Without key q q'
      → Without key ((k, v) ∷ q) ((k, v) ∷ q')

query_del-Without : (key : Bytes) (q : List (Bytes × Bytes)) → Without key q (query_del key q)
unfolding query_del
query_del-Without key [] = nothing_left
query_del-Without key ((k, v) ∷ q) = elim (Bool-cases (text_eq k key)) [
  | inl e ↦ rw e (dropped e (query_del-Without key q))
  | inr n ↦ rw n (kept n (query_del-Without key q))
]

-- What a value of the parameter asks for: a SHA-256 hash, or an algorithm, a colon and a hash.
pub data Asks (value : Bytes) (spec : ChecksumSpec) : Type 0 where
  bare :
      is_empty value ≡ false
      → cut (codes ":") value ≡ none
      → spec ≡ record { algorithm = codes "sha256"; expected = value }
      → Asks value spec
  named :
      cut (codes ":") value ≡ some (spec.algorithm, spec.expected)
      → is_empty spec.algorithm ≡ false
      → is_empty spec.expected ≡ false
      → Asks value spec

-- Why a URL asks for no checksum.
pub data AsksNothing (view : Bytes → Option QueryView) (rest : Bytes) : Type 0 where
  unnamed : contains (codes "checksum=") rest ≡ false → AsksNothing view rest
  unparsed : view rest ≡ none → AsksNothing view rest
  no_value :
      (u : QueryView)
      → view rest ≡ some u
      → is_empty (query_get (codes "checksum") u.query) ≡ true
      → AsksNothing view rest
  incomplete :
      (u : QueryView) (algorithm expected : Bytes)
      → view rest ≡ some u
      → cut (codes ":") (query_get (codes "checksum") u.query) ≡ some (algorithm, expected)
      → (is_empty algorithm ≡ true) ⊎ (is_empty expected ≡ true)
      → AsksNothing view rest

-- A URL with its forced prefix, "::" included, split off.
pub data Prefixed (raw_url prefix rest : Bytes) : Type 0 where
  not_forced :
      cut (codes "::") raw_url ≡ none → prefix ≡ [] → rest ≡ raw_url → Prefixed raw_url prefix rest
  forced :
      (p : Bytes)
      → raw_url ≡ p ++ codes "::" ++ rest
      → prefix ≡ p ++ codes "::"
      → Prefixed raw_url prefix rest

-- The URL that is fetched, and the checksum that the URL gives: the URL as it is if it asks for
-- nothing, and else the URL with the other parameters only.
pub data Fetched (view : Bytes → Option QueryView) (raw_url url : Bytes) (spec : ChecksumSpec)
    : Type 0 where
  as_given :
      (prefix rest : Bytes)
      → Prefixed raw_url prefix rest
      → AsksNothing view rest
      → url ≡ raw_url
      → spec ≡ no_checksum
      → Fetched view raw_url url spec
  cleaned :
      (prefix rest : Bytes) (u : QueryView) (others : List (Bytes × Bytes))
      → Prefixed raw_url prefix rest
      → view rest ≡ some u
      → Without (codes "checksum") u.query others
      → url ≡ prefix ++ u.with_query others
      → Asks (query_get (codes "checksum") u.query) spec
      → Fetched view raw_url url spec

abbrev IsFetched : (Bytes → Option QueryView) → Bytes → Extracted → Type 0
IsFetched view raw_url (url, spec) = Fetched view raw_url url spec

module _ (view : Bytes → Option QueryView) (raw_url prefix rest : Bytes)
    (split : Prefixed raw_url prefix rest) where
  accept-Fetched :
      (u : QueryView) (o : Option (Bytes × Bytes))
      → view rest ≡ some u
      → is_empty (query_get (codes "checksum") u.query) ≡ false
      → cut (codes ":") (query_get (codes "checksum") u.query) ≡ o
      → IsFetched view raw_url (
          accept raw_url prefix
            (u.with_query (query_del (codes "checksum") u.query))
            (spec_of (query_get (codes "checksum") u.query) o))
  unfolding accept spec_of is_empty
  accept-Fetched u none e full c = rw full (
      cleaned prefix rest u _ split e (query_del-Without (codes "checksum") u.query) refl
        (bare full c refl))
  accept-Fetched u (some (a, b)) e full c = elim (Bool-cases (is_empty a)) [
    | inl no_name ↦
        rw no_name (as_given prefix rest split (incomplete u a b e c (inl no_name)) refl refl)
    | inr name ↦ elim (Bool-cases (is_empty b)) [
      | inl no_hash ↦
          rw (name, no_hash)
            (as_given prefix rest split (incomplete u a b e c (inr no_hash)) refl refl)
      | inr hash ↦
          rw (name, hash)
            (cleaned prefix rest u _ split e (query_del-Without (codes "checksum") u.query) refl
              (named c name hash))
    ]
  ]

  viewed-Fetched :
      (o : Option QueryView) → view rest ≡ o → IsFetched view raw_url (viewed raw_url prefix o)
  unfolding viewed
  viewed-Fetched none e = as_given prefix rest split (unparsed e) refl refl
  viewed-Fetched (some u) e = elim (Bool-cases (is_empty (query_get (codes "checksum") u.query))) [
    | inl none_given ↦
        rw none_given (as_given prefix rest split (no_value u e none_given) refl refl)
    | inr full ↦ rw full (accept-Fetched u _ e full refl)
  ]

  parsed-Fetched : IsFetched view raw_url (parsed view raw_url prefix rest)
  unfolding parsed
  parsed-Fetched = elim (Bool-cases (contains (codes "checksum=") rest)) [
    | inl mentioned ↦ rw mentioned (viewed-Fetched (view rest) refl)
    | inr unmentioned ↦ rw unmentioned (as_given prefix rest split (unnamed unmentioned) refl refl)
  ]

after_prefix-Fetched :
    (view : Bytes → Option QueryView) (raw_url : Bytes) (o : Option (Bytes × Bytes))
    → cut (codes "::") raw_url ≡ o
    → IsFetched view raw_url (after_prefix view raw_url o)
unfolding after_prefix
after_prefix-Fetched view raw_url none e =
    parsed-Fetched view raw_url [] raw_url (not_forced e refl refl)
after_prefix-Fetched view raw_url (some (p, rest)) e =
    parsed-Fetched view raw_url (p ++ codes "::") rest
      (forced p (cut-eq-some (codes "::") raw_url p rest e) refl)

pub extract_checksum-Fetched :
    (view : Bytes → Option QueryView) (raw_url : Bytes)
    → Fetched view raw_url (extract_checksum view raw_url).0 (extract_checksum view raw_url).1
unfolding extract_checksum
extract_checksum-Fetched view raw_url = after_prefix-Fetched view raw_url _ refl
