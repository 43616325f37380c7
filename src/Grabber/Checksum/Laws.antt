-- ===== src/Grabber/Checksum/Laws.antt =====
-- What a checksum that is accepted has established.
use grabber.Base.{true, List, [], ◌∷◌, ◌≡◌, refl, Option, none, some, ok, arith}
use grabber.Text.{Bytes, equal_fold}
use grabber.Grabber.Checksum.{
  ChecksumSpec, Staging, Hash, new_hash, verify_checksum, verify_entries, hash_file, compare_digest,
}

-- One file was staged, and its digest is the expected one but for letter case.
pub record Matches (d : Staging) (spec : ChecksumSpec) : Type 0 where
  pub name : Bytes
  pub hash : Hash
  pub actual : Bytes
  pub only : d.entries ≡ some (name ∷ [])
  pub supported : new_hash spec.algorithm ≡ some hash
  pub computed : d.digest hash name ≡ some actual
  pub equal : equal_fold actual spec.expected ≡ true

compare_digest-eq-ok :
    (spec : ChecksumSpec) (o : Option Bytes)
    → compare_digest spec o ≡ ok tt
    → (actual : Bytes) × (o ≡ some actual) × (equal_fold actual spec.expected ≡ true)
unfolding compare_digest
compare_digest-eq-ok spec none h = absurd (cc h)
compare_digest-eq-ok spec (some actual) h = (actual, refl, ground arith)

hash_file-Matches :
    (d : Staging) (spec : ChecksumSpec) (name : Bytes) (o : Option Hash)
    → d.entries ≡ some (name ∷ [])
    → new_hash spec.algorithm ≡ o
    → hash_file d.digest spec name o ≡ ok tt
    → Matches d spec
unfolding hash_file
hash_file-Matches d spec name none e n h = absurd (cc h)
hash_file-Matches d spec name (some hash) e n h =
    let (actual, c, q) = compare_digest-eq-ok spec (d.digest hash name) h in
    record {
      name = name;
      hash = hash;
      actual = actual;
      only = e;
      supported = n;
      computed = c;
      equal = q;
    }

verify_entries-Matches :
    (d : Staging) (spec : ChecksumSpec) (o : Option (List Bytes))
    → d.entries ≡ o
    → verify_entries d.digest spec o ≡ ok tt
    → Matches d spec
unfolding verify_entries
verify_entries-Matches d spec none e h = absurd (cc h)
verify_entries-Matches d spec (some []) e h = absurd (cc h)
verify_entries-Matches d spec (some (name ∷ [])) e h =
    hash_file-Matches d spec name (new_hash spec.algorithm) e refl h
verify_entries-Matches d spec (some (a ∷ b ∷ c)) e h = absurd (cc h)

pub verify_checksum-Matches :
    (d : Staging) (spec : ChecksumSpec) → verify_checksum d spec ≡ ok tt → Matches d spec
unfolding verify_checksum
verify_checksum-Matches d spec h = verify_entries-Matches d spec d.entries refl h
