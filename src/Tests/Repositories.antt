-- ===== src/Tests/Repositories.antt =====
-- The theorems on Git downloads at concrete inputs.
use grabber.Base.{
  ℕ, ◌↔◌, Bool, true, false, List, [], ◌∷◌, map, ◌≡◌, ◌≢◌, ◌⊎◌, refl, Option, none, some, Result,
  ok, err, All, if◌then◌else◌, ◌==◌,
}
use grabber.Text.{Bytes, codes, text_eq}
use grabber.FilePath.{is_rooted}
use grabber.SafePath.Inside.{IsInside, IsAnchored}
use grabber.Git.Refs.{
  CloneAttempt, CloneError, ref_not_found, authentication_required, clone_by_attempts,
  clone_attempts, match_short,
}
use grabber.Git.Refs.Laws.{
  FirstCloned, clone_by_attempts_iff, matching, the_only_one, match_short-the_only_one,
}
use grabber.Git.Sparse.{SparseEntry, regular, Written, done, is_seen, wants, materialise}
use grabber.Git.Sparse.Wants.{NoRepeats, wants-missing}
use grabber.Git.Sparse.Inside.{materialise-IsInside}
use grabber.Git.Download.{Offer, offers, declines, git_download}
use grabber.Git.Download.Laws.{Accepted, NoneOffered, git_download_iff}

abbrev is_tag : CloneAttempt → Result CloneError ℕ
is_tag a = if text_eq a.ref_name (codes "refs/tags/v1") then ok 3 else err ref_not_found

clone_by_attempts_iff_example :
    (clone_by_attempts is_tag (clone_attempts (codes "v1")) (codes "v1") ≡ ok 3)
    ↔ FirstCloned is_tag 3 (clone_attempts (codes "v1"))
clone_by_attempts_iff_example =
    clone_by_attempts_iff is_tag 3 (clone_attempts (codes "v1")) (codes "v1")

abbrev hashes : List Bytes
hashes = codes "abc1" ∷ codes "abd2" ∷ []

match_short-the_only_one_example :
    match_short (codes "abd") none (map some hashes) ≡ the_only_one (matching (codes "abd") hashes)
match_short-the_only_one_example = match_short-the_only_one (codes "abd") hashes

abbrev files : List SparseEntry
files =
    record { path = codes "a"; mode = regular; hash = codes "h1" }
    ∷ record { path = codes "../b"; mode = regular; hash = codes "h1" }
    ∷ []

abbrev missing : Bytes → Bool
missing h = false

wants-missing_example :
    All (λ h. missing h ≡ false) (wants missing [] files)
    × NoRepeats (wants missing [] files)
    × All (λ e. (missing e.hash ≡ true) ⊎ (is_seen e.hash (wants missing [] files) ≡ true)) files
wants-missing_example = wants-missing missing files

abbrev work_dir : Bytes
work_dir = codes "/w"

work_dir-not_empty : work_dir ≢ []
work_dir-not_empty = cc

work_dir-IsAnchored : IsAnchored work_dir
unfolding is_rooted
work_dir-IsAnchored = refl

abbrev write_done : Bytes → SparseEntry → Written
write_done dst e = done

materialise-IsInside_example : All (IsInside work_dir) (materialise write_done work_dir [] files).0
materialise-IsInside_example =
    materialise-IsInside write_done work_dir work_dir-not_empty work_dir-IsAnchored [] files tt

abbrev server : Option ℕ → Result CloneError (Unit {0})
server none = err authentication_required
server (some n) = if n == 2 then ok tt else err authentication_required

abbrev sources : List (Offer ℕ)
sources = offers 1 ∷ declines ∷ offers 2 ∷ []

abbrev passed : Result CloneError (Unit {0})
passed = ok tt

git_download_iff_example : (git_download true server passed passed sources ≡ ok tt) ↔ (
    (passed ≡ ok tt)
    × (passed ≡ ok tt)
    × (Accepted server sources ⊎ (NoneOffered server sources × (server none ≡ ok tt))))
git_download_iff_example = git_download_iff server passed passed sources
