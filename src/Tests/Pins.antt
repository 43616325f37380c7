-- ===== src/Tests/Pins.antt =====
-- The fetch of a pinned commit at concrete inputs.
use grabber.Base.{true, false, [], ◌∷◌, ◌≡◌, refl, none, some}
use grabber.Text.{codes, contains}
use grabber.Git.Refs.{other_error, ref_not_found, auth_failure, definitive_clone_error}
use grabber.Git.Sparse.{regular, submodule, materialisable}
use grabber.Git.Download.Prepare.{unsupported, broken}
use grabber.Git.Pinned.{
  FetchError, PinnedWorld, fetch_commit_by_hash, commit_missing_on_remote, commit_complete,
  after_fetch,
}

abbrev refused : FetchError
refused = record {
  why = other_error;
  wants_restricted = false;
  line = some (codes "upload-pack: not our ref 12");
  remote = none;
}

abbrev world : FetchError → PinnedWorld
world e = record {
  init = none;
  create_remote = none;
  fetch_objects = λ hash depth. some e;
  context_done = false;
  commit_tree = λ hash. some (some (regular, codes "b1") ∷ some (submodule, codes "b2") ∷ []);
  has_object = λ hash. false;
}

-- A server that serves any commit by hash and refuses one does not have it, and no full clone is
-- tried.
missing_commit :
    after_fetch (world refused) (codes "12") (fetch_commit_by_hash (world refused) (codes "12") 1)
    ≡ broken ref_not_found
unfolding after_fetch fetch_commit_by_hash commit_missing_on_remote contains auth_failure
    definitive_clone_error
missing_commit = refl

-- From a server that serves only what it advertises a refusal says nothing.
restricted_refusal :
    after_fetch
      (world refused)
      (codes "12")
      (fetch_commit_by_hash (world (record refused { wants_restricted = true })) (codes "12") 1)
    ≡ unsupported
unfolding after_fetch fetch_commit_by_hash commit_missing_on_remote auth_failure
restricted_refusal = refl

-- A commit one of whose files was not sent is not served.
incomplete_pack : after_fetch (world refused) (codes "12") none ≡ unsupported
unfolding after_fetch commit_complete materialisable
incomplete_pack = refl
