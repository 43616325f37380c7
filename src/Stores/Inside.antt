-- ===== src/Stores/Inside.antt =====
-- Where a listing of an object store is written, and how much.
use grabber.Base.{
  ℕ, suc, ◌+◌, ◌≤◌, ◌||◌, List, [], ◌∷◌, ◌≡◌, ◌≢◌, refl, Option, none, some, Result, ok, err, pos,
  All, All-append, inl, inr, Bool-cases,
}
use grabber.Text.{Bytes, codes, is_empty, has_suffix, trim_prefix}
use grabber.FilePath.{dir}
use grabber.SafePath.{PathError, safe_join}
use grabber.SafePath.Inside.{IsInside, IsAnchored, safe_join-IsInside}
use grabber.Limitio.{Source, copy, copy-le}
use grabber.Stores.{
  Page, listing_fails, page, Store, Written, Step, go_on, write_object, download_object,
  download_joined, download_listed, download_keys, download_pages, download_dir,
}

module _ (store : Store) (tmp_dir : Bytes) (limit : ℕ) where
  -- A file inside the directory, of at most the limit and one byte.
  abbrev pub Fits : Bytes × ℕ → Type 0
  Fits (path, n) = IsInside tmp_dir path × (n ≤ limit + 2)

  abbrev KeepsFitting : Step → Type 0
  KeepsFitting step = (done : List (Bytes × ℕ)) → All Fits done → All Fits (step done).0

  go_on-Fits :
      (o : Written) (more : Step) → All Fits o.0 → KeepsFitting more → All Fits (go_on o more).0
  go_on-Fits (done, none) more h k = k done h
  go_on-Fits (done, some why) more h k = h

  write_object-KeepsFitting :
      (dst : Bytes) (body : Option Source)
      → IsInside tmp_dir dst
      → KeepsFitting (write_object store dst (pos (suc limit)) body)
  unfolding write_object
  write_object-KeepsFitting dst none i done h = h
  write_object-KeepsFitting dst (some body) i done h =
      elim (Bool-cases (store.mkdir_fails (dir dst))) [
        | inl stops ↦ rw stops h
        | inr made ↦ elim (Bool-cases (store.create_fails dst)) [
          | inl stops ↦ rw (made, stops) h
          | inr created ↦
              rw (made, created)
                (All-append Fits done ((dst, (copy body (pos (suc limit))).0) ∷ []) h
                  ((i, copy-le body limit), tt))
        ]
      ]

  module _ (ne : tmp_dir ≢ []) (anchored : IsAnchored tmp_dir) where
    download_joined-KeepsFitting :
        (key rel : Bytes) (r : Result PathError Bytes)
        → safe_join tmp_dir rel ≡ r
        → KeepsFitting (download_joined store key (pos (suc limit)) r)
    unfolding download_joined download_object
    download_joined-KeepsFitting key rel (err why) e done h = h
    download_joined-KeepsFitting key rel (ok dst) e done h =
        write_object-KeepsFitting dst (store.object key)
          (safe_join-IsInside tmp_dir rel dst ne anchored e) done h

    download_listed-KeepsFitting :
        (prefix : Bytes) (key : Option Bytes)
        → KeepsFitting (download_listed store prefix tmp_dir (pos (suc limit)) key)
    unfolding download_listed
    download_listed-KeepsFitting prefix none done h = h
    download_listed-KeepsFitting prefix (some key) done h =
        let rel = trim_prefix prefix key in
        elim (Bool-cases (is_empty rel || has_suffix (codes "/") rel)) [
          | inl marker ↦ rw marker h
          | inr object ↦
              rw object (download_joined-KeepsFitting key rel (safe_join tmp_dir rel) refl done h)
        ]

    download_keys-KeepsFitting :
        (prefix : Bytes) (keys : List (Option Bytes))
        → KeepsFitting (download_keys store prefix tmp_dir (pos (suc limit)) keys)
    unfolding download_keys
    download_keys-KeepsFitting prefix [] done h = h
    download_keys-KeepsFitting prefix (k ∷ ks) done h =
        go_on-Fits (download_listed store prefix tmp_dir (pos (suc limit)) k done)
          (download_keys store prefix tmp_dir (pos (suc limit)) ks)
          (download_listed-KeepsFitting prefix k done h) (download_keys-KeepsFitting prefix ks)

    download_pages-KeepsFitting :
        (prefix : Bytes) (pages : List Page)
        → KeepsFitting (download_pages store prefix tmp_dir (pos (suc limit)) pages)
    unfolding download_pages
    download_pages-KeepsFitting prefix [] done h = h
    download_pages-KeepsFitting prefix (listing_fails ∷ ps) done h = h
    download_pages-KeepsFitting prefix (page ks ∷ ps) done h =
        go_on-Fits (download_keys store prefix tmp_dir (pos (suc limit)) ks done)
          (download_pages store prefix tmp_dir (pos (suc limit)) ps)
          (download_keys-KeepsFitting prefix ks done h) (download_pages-KeepsFitting prefix ps)

    -- For a directory that is not empty and whose cleaned path is not "." and does not end in "..",
    -- and with a positive limit: whatever keys a bucket lists, and wherever the download stops,
    -- each file that is written is inside the directory and has at most one byte more than the
    -- limit.
    pub download_dir-Fits :
        (prefix : Bytes) → All Fits (download_dir store prefix tmp_dir (pos (suc limit))).0
    unfolding download_dir
    download_dir-Fits prefix = download_pages-KeepsFitting prefix (store.pages prefix) [] tt
