-- ===== src/Limitio.antt =====
-- internal/limitio/limitio.go: `Copy`, over a source that yields `size` bytes and then ends, or
-- makes the copy fail if `breaks`.
use grabber.Base.{
  ℕ, suc, ◌≤◌, ◌+◌, ◌-◌, ◌^◌, ◌<◌, Bool, ◌&&◌, ◌≡◌, ℤ, pos, negsuc, ltb, if◌then◌else◌, arith,
  Option, none, some,
}

pub record Source : Type 0 where
  pub size : ℕ
  pub breaks : Bool

pub data CopyError : Type 0 where
  copy_failed limit_exceeded : CopyError

abbrev min_of : ℕ → ℕ → ℕ
min_of a b = if ltb a b then a else b

copy_all : Source → ℕ × Option CopyError
copy_all src = (src.size, if src.breaks then some copy_failed else none)

-- `max+1` as `io.LimitReader` reads it: the sum wraps to a negative number at the largest int64.
read_limit : ℕ → ℕ
read_limit limit = if ltb (limit + 1) (2 ^ 63) then limit + 1 else 0

copy_within : Source → ℕ → ℕ × Option CopyError
unfolding read_limit
copy_within src limit =
    let n = min_of src.size (read_limit limit) in
    if src.breaks && ltb src.size (read_limit limit)
    then (n, some copy_failed)
    else if ltb limit n
    then (n, some limit_exceeded)
    else (n, none)

-- `Copy`: the bytes written and the error.
unfoldable pub copy : Source → ℤ → ℕ × Option CopyError
unfolding copy_all copy_within
copy src (negsuc n) = copy_all src
copy src (pos limit) = if ltb 0 limit then copy_within src limit else copy_all src

-- With a limit from 1 to the largest int64 but one: a source that is longer than the limit gives
-- the limit and one byte more, and the error that says so, whether it fails or not; any other is
-- written whole, and the error is the source's own.
pub copy_within_limit :
    (src : Source) (limit : ℕ)
    → 0 < limit
    → limit + 1 < 2 ^ 63
    → copy src (pos limit) ≡ (
        if ltb limit src.size
        then (limit + 1, some limit_exceeded)
        else (src.size, if src.breaks then some copy_failed else none))
unfolding copy copy_within copy_all
copy_within_limit src limit p q = ground arith

-- With the largest int64 as the limit nothing is copied and no error is given, whatever the source
-- holds.
pub copy_largest : (src : Source) → copy src (pos (2 ^ 63 - 1)) ≡ (0, none)
unfolding copy copy_within read_limit
copy_largest src = ground arith

-- With a positive limit, at most one byte more than the limit is written.
pub copy-le : (src : Source) (limit : ℕ) → (copy src (pos (suc limit))).0 ≤ limit + 2
unfolding copy copy_within read_limit
copy-le src limit = ground arith
