-- ===== src/Git/Archive/Dots.antt =====
-- What `containsDotDot` rules out.
use grabber.Base.{
  ℕ, true, false, List, [], ◌∷◌, ◌++◌, ◌≡◌, ◌≢◌, refl, sym, ap, ◌∙◌, subst, Option, none, some, inl,
  inr, Bool-cases, All, any, or-eq-false, append_assoc, append-nil, ◌==◌, ==_iff, ==_refl, arith,
}
use grabber.Text.{
  Bytes, text_eq, has_prefix, contains, cut, split, cons_head, flush, fields_from, fields_func,
  found, cons_left,
}
use grabber.Text.Laws.{text_eq_iff}
use grabber.Text.Split.{split-ne-nil}
use grabber.FilePath.{slash, dot_dot}
use grabber.SafePath.Downward.{NotUp}
use grabber.Git.Archive.{is_separator, contains_dot_dot}

any-All : (ws : List Bytes) → any (λ w. text_eq w dot_dot) ws ≡ false → All NotUp ws
any-All [] h = tt
any-All (w ∷ ws) h =
    let (here, later) = or-eq-false (text_eq w dot_dot) _ h in (here, any-All ws later)

-- The word that has begun, in front of the elements of the rest.
abbrev begun : Bytes → List Bytes → List Bytes
begun word [] = word ∷ []
begun word (w ∷ ws) = (word ++ w) ∷ ws

flush-All : (word : Bytes) (ws : List Bytes) → All NotUp (flush word ws) → NotUp word × All NotUp ws
unfolding flush
flush-All [] ws h = (unfold text_eq in refl, h)
flush-All (c ∷ word) ws h = h

never_nil : (word w : Bytes) → text_eq (word ++ b'\\' ∷ w) [] ≡ false
unfolding text_eq
never_nil [] w = refl
never_nil (a ∷ word) w = refl

backslash-NotUp : (word w : Bytes) → NotUp (word ++ b'\\' ∷ w)
unfolding text_eq
backslash-NotUp [] w = refl
backslash-NotUp (a ∷ []) w = ground arith
backslash-NotUp (a ∷ b ∷ word) w = rw (never_nil word w) (ground arith)

All-tail : (ws : List Bytes) → All NotUp (begun [] ws) → All NotUp ws
All-tail [] h = tt
All-tail (w ∷ ws) h = h

begun-backslash :
    (word : Bytes) (ws : List Bytes) → All NotUp ws → All NotUp (begun word (cons_head b'\\' ws))
begun-backslash word [] h = (backslash-NotUp word [], tt)
begun-backslash word (w ∷ ws) (_, h) = (backslash-NotUp word w, h)

begun-cons_head :
    (word : Bytes) (c : ℕ) (ws : List Bytes)
    → ws ≢ []
    → begun word (cons_head c ws) ≡ begun (word ++ c ∷ []) ws
begun-cons_head word c [] h = absurd (h refl)
begun-cons_head word c (w ∷ ws) h = ap (λ x. x ∷ ws) (sym (append_assoc word (c ∷ []) w))

fields_from-NotUp :
    (word s : Bytes)
    → All NotUp (fields_from is_separator word s)
    → All NotUp (begun word (split slash s))
unfolding fields_from split
fields_from-NotUp word [] h =
    let (here, later) = flush-All word [] h in (subst NotUp (sym (append-nil word)) here, tt)
fields_from-NotUp word (c ∷ s) h = elim (Bool-cases (c == slash)) [
  | inl at_slash ↦
      let (here, later) = flush-All word (fields_from is_separator [] s) (rw at_slash at h) in
      rw at_slash (
        subst NotUp (sym (append-nil word)) here,
        All-tail (split slash s) (fields_from-NotUp [] s later),
      )
  | inr inside ↦ elim (Bool-cases (c == b'\\')) [
    | inl at_back ↦
        let (here, later) =
          flush-All word (fields_from is_separator [] s) (rw (inside, at_back) at h) in
        let c_eq : c ≡ b'\\' = (==_iff c b'\\').0 at_back in
        rw inside (
          subst (λ x. All NotUp (begun word (cons_head x (split slash s)))) (sym c_eq)
            (begun-backslash word (split slash s)
              (All-tail (split slash s) (fields_from-NotUp [] s later))))
    | inr plain ↦
        let more = fields_from-NotUp (word ++ c ∷ []) s (rw (inside, plain) at h) in
        rw inside (
          subst (All NotUp) (sym (begun-cons_head word c (split slash s) (split-ne-nil slash s)))
            more)
  ]
]

found-cons_left : (c : ℕ) (o : Option (Bytes × Bytes)) → found (cons_left c o) ≡ found o
found-cons_left c none = refl
found-cons_left c (some (a, b)) = refl

-- A text without ".." does not start with it, and nor does what follows its first byte.
contains-cons :
    (c : ℕ) (s : Bytes)
    → contains dot_dot (c ∷ s) ≡ false
    → (has_prefix dot_dot (c ∷ s) ≡ false) × (contains dot_dot s ≡ false)
unfolding contains cut
contains-cons c s h = elim (Bool-cases (has_prefix dot_dot (c ∷ s))) [
  | inl here ↦ absurd (cc (rw here at h))
  | inr not_here ↦ (not_here, sym (found-cons_left c (cut dot_dot s)) ∙ (rw not_here at h))
]

abbrev head_of : List Bytes → Bytes
head_of [] = []
head_of (w ∷ ws) = w

head_of-cons_head : (c : ℕ) (ws : List Bytes) → head_of (cons_head c ws) ≡ c ∷ head_of ws
head_of-cons_head c [] = refl
head_of-cons_head c (w ∷ ws) = refl

has_prefix-head_of : (b : ℕ) (s : Bytes) → has_prefix (head_of (split b s)) s ≡ true
unfolding split has_prefix
has_prefix-head_of b [] = refl
has_prefix-head_of b (c ∷ s) = elim (Bool-cases (c == b)) [
  | inl here ↦ rw here refl
  | inr later ↦ rw (later, head_of-cons_head c (split b s), ==_refl c) (has_prefix-head_of b s)
]

cons_head-NotUp :
    (c : ℕ) (ws : List Bytes) → NotUp (c ∷ head_of ws) → All NotUp ws → All NotUp (cons_head c ws)
cons_head-NotUp c [] h k = (h, tt)
cons_head-NotUp c (w ∷ ws) h (_, k) = (h, k)

contains-NotUp : (s : Bytes) → contains dot_dot s ≡ false → All NotUp (split slash s)
unfolding split
contains-NotUp [] h = (unfold text_eq in refl, tt)
contains-NotUp (c ∷ s) h =
    let (not_here, later) = contains-cons c s h in
    elim (Bool-cases (c == slash)) [
      | inl here ↦ rw here (unfold text_eq in refl, contains-NotUp s later)
      | inr inside ↦
          rw inside
            (cons_head-NotUp c (split slash s) (head-NotUp not_here) (contains-NotUp s later))
    ]
  where
    head-NotUp : has_prefix dot_dot (c ∷ s) ≡ false → NotUp (c ∷ head_of (split slash s))
    head-NotUp not_here = elim (Bool-cases (text_eq (c ∷ head_of (split slash s)) dot_dot)) [
      | inl up ↦
          let e = (text_eq_iff (c ∷ head_of (split slash s)) dot_dot).0 up in
          let starts : has_prefix (c ∷ head_of (split slash s)) (c ∷ s) ≡ true =
            unfold has_prefix in rw (==_refl c) (has_prefix-head_of slash s) in
          absurd (cc (subst (λ w. has_prefix w (c ∷ s) ≡ true) e starts, not_here))
      | inr no_up ↦ no_up
    ]

-- A name that the check lets pass has no ".." between its slashes.
pub contains_dot_dot-NotUp :
    (name : Bytes) → contains_dot_dot name ≡ false → All NotUp (split slash name)
unfolding contains_dot_dot fields_func
contains_dot_dot-NotUp name h = elim (Bool-cases (contains dot_dot name)) [
  | inl somewhere ↦
      All-tail (split slash name)
        (fields_from-NotUp [] name (any-All (fields_from is_separator [] name) (rw somewhere at h)))
  | inr nowhere ↦ contains-NotUp name nowhere
]
