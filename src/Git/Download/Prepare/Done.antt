-- ===== src/Git/Download/Prepare/Done.antt =====
-- What a clone that succeeds has done besides the clone.
use grabber.Base.{
  Bool, true, false, not, ◌||◌, ◌≡◌, ◌≢◌, ◌⊎◌, inl, inr, refl, Result, ok, ◌>>◌, >>=-eq-ok,
  Bool-cases,
}
use grabber.Text.{Bytes, is_empty}
use grabber.Git.Refs.{looks_like_commit_hash}
use grabber.Git.Sparse.{sparse_eligible}
use grabber.Git.Download.Prepare.{
  Partial, served, unsupported, broken, Stat, missing, file, directory, PrepareError, GitWorld, Way,
  sparse_way, guard, get_repo, check_out, check_stat, check_subdir, whole_repo, after_sparse,
  clone_and_prepare,
}

module _ (w : GitWorld) (subdir ref : Bytes) (recurse : Bool) where
  -- The subdirectory that was asked for is there.
  abbrev pub HasSubdir : Type 0
  HasSubdir = (is_empty subdir ≡ true) ⊎ (w.subdir_stat ≡ directory)

  -- A commit that was asked for is checked out, with its submodules if they were asked for.
  abbrev pub HasCommit : Type 0
  HasCommit =
      ((is_empty ref ≡ true) ⊎ (looks_like_commit_hash ref ≡ false))
      ⊎ ((w.commit_resolved ≡ true)
          × (w.checked_out ≡ true)
          × ((recurse ≡ false) ⊎ (w.submodules_updated ≡ true)))

  guard-eq-ok : (b : Bool) (why : PrepareError) → guard b why ≡ ok tt → b ≡ true
  unfolding guard
  guard-eq-ok true why h = refl
  guard-eq-ok false why h = absurd (cc h)

  check_stat-eq-ok : (s : Stat) → check_stat s ≡ ok tt → s ≡ directory
  unfolding check_stat
  check_stat-eq-ok missing h = absurd (cc h)
  check_stat-eq-ok file h = absurd (cc h)
  check_stat-eq-ok directory h = refl

  check_subdir-HasSubdir : check_subdir w subdir ≡ ok tt → HasSubdir
  unfolding check_subdir
  check_subdir-HasSubdir h = elim (Bool-cases (is_empty subdir)) [
    | inl e ↦ inl e
    | inr e ↦ inr (check_stat-eq-ok w.subdir_stat (rw e at h))
  ]

  recursed : (a b : Bool) → (not a || b) ≡ true → (a ≡ false) ⊎ (b ≡ true)
  recursed true b h = inr h
  recursed false b h = inl refl

  check_out-HasCommit : check_out w ref recurse ≡ ok tt → HasCommit
  unfolding check_out
  check_out-HasCommit h = elim (Bool-cases (is_empty ref)) [
    | inl e ↦ inl (inl e)
    | inr e ↦ elim (Bool-cases (looks_like_commit_hash ref)) [
      | inr n ↦ inl (inr n)
      | inl c ↦
          let (_, resolved, rest) =
            >>=-eq-ok (guard w.commit_resolved PrepareError.resolving_commit) _ (rw (e, c) at h) in
          let (_, out, subs) =
            >>=-eq-ok (guard w.checked_out PrepareError.checkout_failed) _ rest in
          inr (
            guard-eq-ok w.commit_resolved _ resolved,
            guard-eq-ok w.checked_out _ out,
            recursed recurse w.submodules_updated (guard-eq-ok _ _ subs),
          )
    ]
  ]

  whole_repo-Has : (way : Way) → whole_repo w subdir ref recurse ≡ ok way → HasSubdir × HasCommit
  unfolding whole_repo
  whole_repo-Has way h =
      let (got, _, rest) =
        >>=-eq-ok (get_repo w) (λ way. check_out w ref recurse >> (check_subdir w subdir >> ok way))
          h in
      let (_, out, rest') =
        >>=-eq-ok (check_out w ref recurse) (λ _. check_subdir w subdir >> ok got) rest in
      let (_, sub, _) = >>=-eq-ok (check_subdir w subdir) (λ _. ok got) rest' in
      (check_subdir-HasSubdir sub, check_out-HasCommit out)

  after_sparse-Has :
      (p : Partial) (way : Way)
      → way ≢ sparse_way
      → after_sparse w subdir ref recurse p ≡ ok way
      → HasSubdir × HasCommit
  unfolding after_sparse
  after_sparse-Has served way ne h = absurd (ne (way_of way h))
    where
      way_of :
          (way : Way)
          → ◌≡◌ {A = Result PrepareError Way} (ok sparse_way) (ok way)
          → way ≡ sparse_way
      way_of way h = cc
  after_sparse-Has (broken why) way ne h = absurd (cc h)
  after_sparse-Has unsupported way ne h =
      let (_, _, rest) =
        >>=-eq-ok (guard w.reset_ok PrepareError.reset_failed)
          (λ _. whole_repo w subdir ref recurse) h in
      whole_repo-Has way rest

  -- A clone that succeeds any other way than the sparse one has the subdirectory that was asked for
  -- as a directory, and a commit that was asked for checked out, with its submodules if they were
  -- asked for.
  pub clone_and_prepare-Has :
      (way : Way)
      → way ≢ sparse_way
      → clone_and_prepare w subdir ref recurse ≡ ok way
      → HasSubdir × HasCommit
  unfolding clone_and_prepare
  clone_and_prepare-Has way ne h = elim (Bool-cases (sparse_eligible subdir)) [
    | inl e ↦ after_sparse-Has w.sparse way ne (rw e at h)
    | inr e ↦ whole_repo-Has way (rw e at h)
  ]
