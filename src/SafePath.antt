-- ===== src/SafePath.antt =====
-- internal/safepath/safepath.go and `securePath` of protocols/git/sparse.go, which has the same body.
pub mod Inside
pub mod Downward
use grabber.Base.{◌++◌, Bool, not, ◌&&◌, if◌then◌else◌, Result, ok, err, [], ◌∷◌}
use grabber.Text.{Bytes, text_eq, has_prefix}
use grabber.FilePath.{slash, clean, join_path}

pub data PathError : Type 0 where
  escapes : Bytes → PathError

-- `Join`
unfoldable pub safe_join : Bytes → Bytes → Result PathError Bytes
unfolding join_path clean text_eq has_prefix
safe_join root rel =
    let joined = join_path root rel in
    let clean_root = clean root in
    if not (text_eq joined clean_root) && not (has_prefix (clean_root ++ slash ∷ []) joined)
    then err (escapes rel)
    else ok joined
