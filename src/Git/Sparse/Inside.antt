-- ===== src/Git/Sparse/Inside.antt =====
-- Where a sparse download writes.
use grabber.Base.{List, [], ◌∷◌, ◌≢◌, inl, inr, All, Result-cases, Option-cases}
use grabber.Text.{Bytes}
use grabber.SafePath.{safe_join}
use grabber.SafePath.Inside.{IsInside, IsAnchored, safe_join-IsInside}
use grabber.Git.Sparse.{SparseEntry, Written, write_error, materialise}

module _ (disk : Bytes → SparseEntry → Written) (root : Bytes) (ne : root ≢ [])
    (anchored : IsAnchored root) where
  -- For a destination that is not empty and whose cleaned path is not "." and does not end in "..",
  -- and with everything so far inside it: whatever paths the entries of a tree have, and wherever
  -- the writing stops, each path that is written, in whole or in part, is inside the destination.
  pub materialise-IsInside :
      (out : List Bytes) (entries : List SparseEntry)
      → All (IsInside root) out
      → All (IsInside root) (materialise disk root out entries).0
  unfolding materialise
  materialise-IsInside out [] h = h
  materialise-IsInside out (e ∷ es) h = elim (Result-cases (safe_join root e.path)) [
    | inr (why, j) ↦ rw (materialise, j) h
    | inl (dst, j) ↦
        let inside = safe_join-IsInside root e.path dst ne anchored j in
        elim (Option-cases (write_error e (disk dst e))) [
          | inl k ↦ rw (materialise, j, k) (materialise-IsInside (dst ∷ out) es (inside, h))
          | inr (why, k) ↦ rw (materialise, j, k) (inside, h)
        ]
  ]
