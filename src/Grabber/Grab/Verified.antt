-- ===== src/Grabber/Grab/Verified.antt =====
-- What a download with a checksum has established when it succeeds.
use grabber.Base.{
  Bool-cases, ◌⊎◌, inl, inr, Bool, true, false, not, ◌≡◌, refl, Option, none, some, if◌then◌else◌,
  Result, ok, err, >>=-eq-ok,
}
use grabber.Text.{Bytes, is_empty}
use grabber.Grabber.Checksum.{ChecksumSpec, QueryView, ChecksumError, extract_checksum}
use grabber.Grabber.Checksum.Laws.{Matches, verify_checksum-Matches}
use grabber.Grabber.Checksum.Fetched.{Fetched, extract_checksum-Fetched}
use grabber.Grabber.Grab.{
  GrabError, World, Placed, effective, downloaded, verified, check_sum, grab,
}

verified-eq-ok : (r : Result ChecksumError (Unit {0})) → verified r ≡ ok tt → r ≡ ok tt
unfolding verified
verified-eq-ok (ok _) h = refl
verified-eq-ok (err why) h = absurd (cc h)

check_sum-Matches :
    (w : World) (spec : ChecksumSpec) (is_file : Bool)
    → is_empty spec.algorithm ≡ false
    → check_sum w spec is_file ≡ ok tt
    → (is_file ≡ true) × Matches w.staging spec
unfolding check_sum
check_sum-Matches w spec true e h =
    (refl, verify_checksum-Matches w.staging spec (verified-eq-ok _ (rw e at h)))
check_sum-Matches w spec false e h = absurd (cc (rw e at h))

downloaded-eq-ok : (o : Option Bool) (b : Bool) → downloaded o ≡ ok b → o ≡ some b
unfolding downloaded
downloaded-eq-ok none b h = absurd (cc h)
downloaded-eq-ok (some c) b h = cc

else-eq-ok :
    (b : Bool) (why : GrabError) (r : Result GrabError Placed) (tree : Placed)
    → (if not b then err why else r) ≡ ok tree
    → r ≡ ok tree
else-eq-ok true why r tree h = h
else-eq-ok false why r tree h = absurd (cc h)

-- What a download that succeeds has established: the URL that was fetched and the checksum that
-- the URL gave, the checksum that counts, and that the one file has it if there is one.
pub record Established (view : Bytes → Option QueryView) (w : World) (raw_url : Bytes)
    (explicit : ChecksumSpec) : Type 0 where
  pub url : Bytes
  pub from_url : ChecksumSpec
  pub spec : ChecksumSpec
  pub is_file : Bool
  pub fetched : Fetched view raw_url url from_url
  pub preferred :
      ((is_empty explicit.algorithm ≡ false) × (spec ≡ explicit))
      ⊎ ((is_empty explicit.algorithm ≡ true) × (spec ≡ from_url))
  pub downloads : w.download url ≡ some is_file
  pub checked : (is_empty spec.algorithm ≡ true) ⊎ ((is_file ≡ true) × Matches w.staging spec)

effective-cases :
    (explicit from_url : ChecksumSpec)
    → ((is_empty explicit.algorithm ≡ false) × (effective explicit from_url ≡ explicit))
      ⊎ ((is_empty explicit.algorithm ≡ true) × (effective explicit from_url ≡ from_url))
unfolding effective
effective-cases explicit from_url = elim (Bool-cases (is_empty explicit.algorithm)) [
  | inl e ↦ inr (e, rw e refl)
  | inr n ↦ inl (n, rw n refl)
]

-- A download that succeeds has fetched the URL as it was given, if that asks for no complete
-- checksum, or else the URL with its forced prefix and all parameters but the checksum; the
-- checksum that counts is the explicit one if that has an algorithm and that of the URL if not; and
-- if the one that counts has an algorithm, one file was fetched and its digest is the expected one
-- but for letter case.
pub grab-Matches :
    (view : Bytes → Option QueryView) (w : World) (enabled : Bool) (raw_url : Bytes)
    (explicit : ChecksumSpec) (tree : Placed)
    → grab view w enabled raw_url explicit ≡ ok tree
    → Established view w raw_url explicit
unfolding grab
grab-Matches view w enabled raw_url explicit tree h =
    let (is_file, d, rest) = >>=-eq-ok _ _ (else-eq-ok w.temp_dir_made _ _ tree h) in
    let (_, c, _) = >>=-eq-ok _ _ rest in
    let found = (extract_checksum view raw_url).1 in
    record {
      url = (extract_checksum view raw_url).0;
      from_url = found;
      spec = effective explicit found;
      is_file = is_file;
      fetched = extract_checksum-Fetched view raw_url;
      preferred = effective-cases explicit found;
      downloads = downloaded-eq-ok _ is_file d;
      checked = elim (Bool-cases (is_empty (effective explicit found).algorithm)) [
        | inl nothing ↦ inl nothing
        | inr asked ↦ inr (check_sum-Matches w (effective explicit found) is_file asked c)
      ];
    }
