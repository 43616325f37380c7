-- ===== src/Git/Auth/Helper.antt =====
-- `gitCredentialFill` of protocols/git/git.go. What git prints is a parameter, of what it reads:
-- `none` without git or with an error.
use grabber.Base.{List, [], ◌∷◌, ◌++◌, Option, none, some, if◌then◌else◌, ◌&&◌}
use grabber.Text.{Bytes, codes, text_eq, is_empty, cut, split}

-- What git reads.
unfoldable pub fill_query : Bytes → Bytes → Bytes → Bytes
fill_query protocol host username =
    codes "protocol="
    ++ protocol
    ++ 10 ∷ codes "host="
    ++ host
    ++ 10 ∷ (if is_empty username then [] else codes "username=" ++ username ++ 10 ∷ [])
    ++ 10 ∷ []

-- One line of what it prints.
unfoldable pub read_line : Bytes × Bytes → Bytes → Bytes × Bytes
read_line (user, pass) line = elim (cut (codes "=") line) [
  | none ↦ (user, pass)
  | some (key, value) ↦
      if text_eq key (codes "username")
      then (value, pass)
      else if text_eq key (codes "password")
      then (user, value)
      else (user, pass)
]

-- The loop over the lines.
unfoldable pub read_lines : Bytes × Bytes → List Bytes → Bytes × Bytes
read_lines got [] = got
read_lines got (line ∷ lines) = read_lines (read_line got line) lines

unfoldable pub filled : Bytes × Bytes → Option (Bytes × Bytes)
filled (user, pass) = if is_empty user && is_empty pass then none else some (user, pass)

unfoldable pub read_output : Option Bytes → Option (Bytes × Bytes)
read_output none = none
read_output (some out) = filled (read_lines ([], []) (split 10 out))

-- `gitCredentialFill`
unfoldable pub git_credential_fill :
    (Bytes → Option Bytes) → Bytes → Bytes → Bytes → Option (Bytes × Bytes)
git_credential_fill git protocol host username =
    read_output (git (fill_query protocol host username))
