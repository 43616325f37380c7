-- ===== src/Stores.antt =====
-- Object stores: what protocols/s3/s3.go and protocols/gcs/gcs.go share, `downloadFile` and
-- `downloadDir`. The stores' clients and the disk are parameters.
pub mod S3
pub mod Gcs
pub mod Inside
use grabber.Base.{
  ℕ, Bool, true, false, not, ◌&&◌, ◌||◌, List, [], ◌∷◌, ◌++◌, Option, none, some, if◌then◌else◌,
  Result, ok, err, ℤ,
}
use grabber.Text.{Bytes, codes, is_empty, has_suffix, trim_prefix}
use grabber.FilePath.{dir, base, join_path}
use grabber.SafePath.{PathError, safe_join}
use grabber.Limitio.{Source, CopyError, copy}

-- What a page of a listing gives: the objects' keys, `none` for one without a key.
pub data Page : Type 0 where
  listing_fails : Page
  page : List (Option Bytes) → Page

-- The bucket and the disk.
pub record Store : Type 0 where
  pub pages : Bytes → List Page
  pub object : Bytes → Option Source
  pub mkdir_fails : Bytes → Bool
  pub create_fails : Bytes → Bool

pub data StoreError : Type 0 where
  no_client listing getting mkdir_failed create_failed : StoreError
  key_escapes : PathError → StoreError
  copying : CopyError → StoreError

-- The files written so far, each with its size, and the error.
abbrev pub Written : Type 0
Written = List (Bytes × ℕ) × Option StoreError

abbrev pub Step : Type 0
Step = List (Bytes × ℕ) → Written

abbrev pub go_on : Written → Step → Written
go_on (done, none) more = more done
go_on (done, some why) more = (done, some why)

abbrev pub stop : StoreError → Step
stop why done = (done, some why)

abbrev pub nothing : Step
nothing done = (done, none)

abbrev pub copy_result : Option CopyError → Option StoreError
copy_result none = none
copy_result (some why) = some (copying why)

module _ (store : Store) where
  unfoldable pub write_object : Bytes → ℤ → Option Source → Step
  write_object dst max_bytes none done = (done, some getting)
  write_object dst max_bytes (some body) done =
      if store.mkdir_fails (dir dst)
      then (done, some mkdir_failed)
      else if store.create_fails dst
      then (done, some create_failed)
      else let (n, why) = copy body max_bytes in (done ++ (dst, n) ∷ [], copy_result why)

  -- `downloadFile`
  unfoldable pub download_object : Bytes → Bytes → ℤ → Step
  download_object key dst max_bytes = write_object dst max_bytes (store.object key)

  unfoldable pub download_joined : Bytes → ℤ → Result PathError Bytes → Step
  download_joined key max_bytes (err why) = stop (key_escapes why)
  download_joined key max_bytes (ok dst) = download_object key dst max_bytes

  -- One object of a listing.
  unfoldable pub download_listed : Bytes → Bytes → ℤ → Option Bytes → Step
  download_listed prefix tmp_dir max_bytes none = nothing
  download_listed prefix tmp_dir max_bytes (some key) =
      let rel_path = trim_prefix prefix key in
      if is_empty rel_path || has_suffix (codes "/") rel_path
      then nothing
      else download_joined key max_bytes (safe_join tmp_dir rel_path)

  unfoldable pub download_keys : Bytes → Bytes → ℤ → List (Option Bytes) → Step
  download_keys prefix tmp_dir max_bytes [] done = (done, none)
  download_keys prefix tmp_dir max_bytes (k ∷ ks) done =
      go_on (download_listed prefix tmp_dir max_bytes k done)
        (download_keys prefix tmp_dir max_bytes ks)

  unfoldable pub download_pages : Bytes → Bytes → ℤ → List Page → Step
  download_pages prefix tmp_dir max_bytes [] done = (done, none)
  download_pages prefix tmp_dir max_bytes (listing_fails ∷ ps) done = (done, some listing)
  download_pages prefix tmp_dir max_bytes (page ks ∷ ps) done =
      go_on (download_keys prefix tmp_dir max_bytes ks done)
        (download_pages prefix tmp_dir max_bytes ps)

  -- `downloadDir`
  unfoldable pub download_dir : Bytes → Bytes → ℤ → Written
  download_dir prefix tmp_dir max_bytes =
      download_pages prefix tmp_dir max_bytes (store.pages prefix) []

  -- `Download` after the client is made: whether it is one file, and what is written.
  unfoldable pub download_key : Bytes → Bytes → ℤ → Bool × Written
  download_key key tmp_dir max_bytes =
      if is_empty key || has_suffix (codes "/") key
      then (false, download_dir key tmp_dir max_bytes)
      else (true, download_object key (join_path tmp_dir (base key)) max_bytes [])
