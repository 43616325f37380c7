-- ===== src/Git/ErrBody.antt =====
-- protocols/git/errbody.go: what is kept of the body of a response that is an error.
use grabber.Base.{
  ℕ, suc, Bool, true, false, ◌&&◌, ◌||◌, [], ◌∷◌, Option, none, some, if◌then◌else◌, ◌==◌, ltb,
  length, take, Result, ok, err,
}
use grabber.Text.{Bytes, codes, has_prefix, to_lower, trim_space}

abbrev pub max_err_body : ℕ
max_err_body = 1024

abbrev is_blank : ℕ → Bool
is_blank c = c == b' ' || c == b'\t' || c == b'\r' || c == b'\n'

trim_blank : Bytes → Bytes
trim_blank [] = []
trim_blank (c ∷ s) = if is_blank c then trim_blank s else c ∷ s

-- `isHTMLBody`
unfoldable pub is_html_body : Bytes → Bytes → Bool
unfolding trim_blank
is_html_body content_type body =
    let start = to_lower (trim_blank body) in
    if has_prefix (codes "text/html") (to_lower (trim_space content_type))
    then true
    else has_prefix (codes "<!doctype") start || has_prefix (codes "<html") start

-- A response: its status, its content type, and its body with whether reading it fails, unless
-- there is none.
pub record Response : Type 0 where
  pub status : ℕ
  pub content_type : Bytes
  pub body : Option (Bytes × Bool)

-- A failure of the body's reader counts where the limit does not come first.
unfoldable pub stripped : Bytes → Bytes × Bool → Bytes
stripped content_type (text, fails) =
    let read = take (suc max_err_body) text in
    if (fails && ltb (length text) (suc max_err_body))
      || ltb max_err_body (length read)
      || is_html_body content_type read
    then []
    else read

strip_body : Response → Bytes × Bool → Response
strip_body r content = record r { body = some (stripped r.content_type content, false) }

with_body : Response → Option (Bytes × Bool) → Response
unfolding strip_body
with_body r none = r
with_body r (some content) = if ltb r.status 300 then r else strip_body r content

-- `RoundTrip`, on what the base gives; its error is passed on.
unfoldable pub round_trip : Result (Unit {0}) Response → Result (Unit {0}) Response
unfolding with_body
round_trip (err why) = err why
round_trip (ok r) = ok (with_body r r.body)
