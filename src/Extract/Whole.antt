-- ===== src/Extract/Whole.antt =====
-- An extracted file is whole, but for the largest limit.
use grabber.Base.{ℕ, ◌+◌, ◌-◌, ◌^◌, ◌<◌, true, false, [], ◌∷◌, ◌++◌, ◌≡◌, none, arith}
use grabber.Text.{Bytes}
use grabber.Extract.Engine.{
  Stream, Disk, create, write, Extractor, write_file, copy_limited, read_limit,
}

abbrev max_int64 : ℕ
max_int64 = 2 ^ 63 - 1

module _ (disk : Disk) (path : Bytes) (r : Stream) (mode : ℕ) (e : Extractor) where
  -- With a limit, of which less than the largest int64 is left, a file that is written with no
  -- error is created and then written whole, and what is left shrinks by its size.
  write_file_whole :
      (e' : Extractor)
      → e.limited ≡ true
      → e.remaining < max_int64
      → write_file disk path r mode e ≡ (e', none)
      → (e'.effects ≡ (e.effects ++ create path mode ∷ []) ++ write path r.size ∷ [])
        × (e'.remaining + r.size ≡ e.remaining)
  unfolding write_file copy_limited read_limit
  write_file_whole e' lim small h = ground arith

  -- With a limit of which the largest int64 is left, a file that can be created is left empty with
  -- no error, whatever it should hold.
  pub write_file_largest :
      e.limited ≡ true
      → e.remaining ≡ max_int64
      → disk.create_fails path ≡ false
      → ((write_file disk path r mode e).1 ≡ none)
        × ((write_file disk path r mode e).0.effects
            ≡ (e.effects ++ create path mode ∷ []) ++ write path 0 ∷ [])
  unfolding write_file copy_limited read_limit
  write_file_largest lim large ok_create = (ground arith, ground arith)
