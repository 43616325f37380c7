-- ===== src/FilePath/Laws.antt =====
-- Cleaned paths: which elements they have, and that the text shows them.
use grabber.Base.{
  Bool, true, false, ◌||◌, List, [], ◌∷◌, ◌++◌, ◌≡◌, refl, inl, inr, Bool-cases, All,
  All-append_right, or-eq-false, not,
}
use grabber.Text.{Bytes, text_eq, is_empty, split}
use grabber.Text.Split.{Lacks, split-Lacks}
use grabber.FilePath.{slash, dot, dot_dot, pop, step, walk, is_rooted, clean_stack}

-- A name that stays where it is put: not empty, ".", or "..", and with no slash.
pub record IsPlain (w : Bytes) : Type 0 where
  pub not_empty : is_empty w ≡ false
  pub not_dot : text_eq w dot ≡ false
  pub not_dot_dot : text_eq w dot_dot ≡ false
  pub no_slash : Lacks slash w

-- What `Clean` keeps: plain names, and ".." on a relative path.
pub record IsKept (w : Bytes) : Type 0 where
  pub not_empty : is_empty w ≡ false
  pub not_dot : text_eq w dot ≡ false
  pub no_slash : Lacks slash w

dot_dot-IsKept : IsKept dot_dot
unfolding is_empty text_eq
dot_dot-IsKept = record { not_empty = refl; not_dot = refl; no_slash = (refl, (refl, tt)) }

-- Below a ".." there are only ".."s, and none at all on a rooted path.
abbrev IsAllUp : List Bytes → Type 0
IsAllUp = All (λ w. text_eq w dot_dot ≡ true)

abbrev pub IsStack : Bool → List Bytes → Type 0
IsStack rooted [] = Unit
IsStack rooted (w ∷ ws) =
    IsKept w × (text_eq w dot_dot ≡ true → (rooted ≡ false) × IsAllUp ws) × IsStack rooted ws

pop-IsStack : (rooted : Bool) (s : List Bytes) → IsStack rooted s → IsStack rooted (pop rooted s)
unfolding pop
pop-IsStack true [] h = tt
pop-IsStack false [] h = (dot_dot-IsKept, (λ _. (refl, tt)), tt)
pop-IsStack rooted (w ∷ ws) (k, up, h) = elim (Bool-cases (text_eq w dot_dot)) [
  | inl e ↦ let (rel, below) = up e in rw e (dot_dot-IsKept, (λ _. (rel, (e, below))), (k, up, h))
  | inr e ↦ rw e h
]

step-IsStack :
    (rooted : Bool) (s : List Bytes) (part : Bytes)
    → IsStack rooted s
    → Lacks slash part
    → IsStack rooted (step rooted s part)
unfolding step
step-IsStack rooted s part h k = elim (Bool-cases (is_empty part || text_eq part dot)) [
  | inl e ↦ rw e h
  | inr e ↦ elim (Bool-cases (text_eq part dot_dot)) [
    | inl up ↦ rw (e, up) (pop-IsStack rooted s h)
    | inr name ↦
        let (full, no_dot) = or-eq-false (is_empty part) (text_eq part dot) e in
        rw (e, name)
          (record { not_empty = full; not_dot = no_dot; no_slash = k }, (λ up. absurd (cc)), h)
  ]
]

walk-IsStack :
    (rooted : Bool) (s parts : List Bytes)
    → IsStack rooted s
    → All (Lacks slash) parts
    → IsStack rooted (walk rooted s parts)
unfolding walk
walk-IsStack rooted s [] h k = h
walk-IsStack rooted s (p ∷ parts) h (k, ks) =
    walk-IsStack rooted (step rooted s p) parts (step-IsStack rooted s p h k) ks

pub clean_stack-IsStack : (p : Bytes) → IsStack (is_rooted p) (clean_stack p)
unfolding clean_stack
clean_stack-IsStack p = walk-IsStack (is_rooted p) [] (split slash p) tt (split-Lacks slash p)

-- ".." cannot stand above an element that is not "..".
abbrev pub is_anchored : Bool → List Bytes → Bool
is_anchored true s = true
is_anchored false [] = false
is_anchored false (w ∷ ws) = not (text_eq w dot_dot)

not_up_over :
    (rooted : Bool) (xs s : List Bytes)
    → is_anchored rooted s ≡ true
    → ¬ ((rooted ≡ false) × IsAllUp (xs ++ s))
not_up_over true xs s a (rel, _) = cc
not_up_over false xs [] a h = cc
not_up_over false xs (w ∷ ws) a (_, h) =
    let (up, _) = All-append_right (λ w. text_eq w dot_dot ≡ true) xs (w ∷ ws) h in cc (rw up at a)

pub IsStack-IsPlain :
    (rooted : Bool) (xs s : List Bytes)
    → IsStack rooted (xs ++ s)
    → is_anchored rooted s ≡ true
    → All IsPlain xs
IsStack-IsPlain rooted [] s h a = tt
IsStack-IsPlain rooted (x ∷ xs) s (k, up, h) a = elim (Bool-cases (text_eq x dot_dot)) [
  | inl e ↦ absurd (not_up_over rooted xs s a (up e))
  | inr e ↦ (
    record { not_empty = k.not_empty; not_dot = k.not_dot; not_dot_dot = e; no_slash = k.no_slash },
    IsStack-IsPlain rooted xs s h a,
  )
]

pub IsStack-Lacks : (rooted : Bool) (s : List Bytes) → IsStack rooted s → All (Lacks slash) s
IsStack-Lacks rooted [] h = tt
IsStack-Lacks rooted (w ∷ ws) (k, _, h) = (k.no_slash, IsStack-Lacks rooted ws h)

pub IsStack-IsKept : (rooted : Bool) (s : List Bytes) → IsStack rooted s → All IsKept s
IsStack-IsKept rooted [] h = tt
IsStack-IsKept rooted (w ∷ ws) (k, _, h) = (k, IsStack-IsKept rooted ws h)
