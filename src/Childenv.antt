-- ===== src/Childenv.antt =====
-- internal/childenv/childenv.go: the environment of a child process.
use grabber.Base.{
  Bool, false, List, [], ◌∷◌, ◌++◌, ◌≡◌, inl, inr, refl, ap, Option, ◌∙◌, none, some, if◌then◌else◌,
  any, Bool-cases, arith,
}
use grabber.Text.{Bytes, codes, text_eq, cut}
use grabber.Text.Laws.{text_eq_iff}

abbrev blocked_names : List Bytes
blocked_names = codes "GIT_ASKPASS" ∷ codes "SSH_ASKPASS" ∷ []

abbrev pub forced : List Bytes
forced =
    codes "GIT_TERMINAL_PROMPT=0"
    ∷ codes "GCM_INTERACTIVE=false"
    ∷ codes "GCM_GUI_PROMPT=false"
    ∷ codes "SSH_ASKPASS_REQUIRE=never"
    ∷ []

-- The variable that an entry sets, if it has the form "name=value".
abbrev name_of : Option (Bytes × Bytes) → Option Bytes
name_of none = none
name_of (some (name, value)) = some name

pub is_blocked : Option Bytes → Bool
is_blocked none = false
is_blocked (some name) = any (λ b. text_eq b name) blocked_names

keep : List Bytes → List Bytes
keep [] = []
keep (kv ∷ parent) =
    let rest = keep parent in if is_blocked (name_of (cut (codes "=") kv)) then rest else kv ∷ rest

-- `NonInteractive`, of the entries of `os.Environ`.
unfoldable pub non_interactive : List Bytes → List Bytes
unfolding keep
non_interactive parent = keep parent ++ forced

-- The value that an entry gives to a variable.
pub value_in : Bytes → Option (Bytes × Bytes) → Option Bytes
value_in name none = none
value_in name (some (n, value)) = if text_eq n name then some value else none

pub or_else : Option Bytes → Option Bytes → Option Bytes
or_else (some v) d = some v
or_else none d = d

-- What a child reads for a variable: where an environment has several entries, the last one.
unfoldable pub env_value : Bytes → List Bytes → Option Bytes
env_value name [] = none
env_value name (kv ∷ env) = or_else (env_value name env) (value_in name (cut (codes "=") kv))

or_else_assoc : (a b c : Option Bytes) → or_else (or_else a b) c ≡ or_else a (or_else b c)
unfolding or_else
or_else_assoc none b c = refl
or_else_assoc (some v) b c = refl

env_value-append :
    (name : Bytes) (xs ys : List Bytes)
    → env_value name (xs ++ ys) ≡ or_else (env_value name ys) (env_value name xs)
unfolding env_value or_else
env_value-append name [] ys = ground arith
env_value-append name (kv ∷ xs) ys =
    ap (λ v. or_else v (value_in name (cut (codes "=") kv))) (env_value-append name xs ys)
    ∙ or_else_assoc (env_value name ys) (env_value name xs) _

-- Whether an entry is dropped and whether it gives a value to a variable agree.
keep_value :
    (name : Bytes) (c : Option (Bytes × Bytes)) (rest : Option Bytes)
    → (if is_blocked (name_of c)
        then (if is_blocked (some name) then none else rest)
        else or_else (if is_blocked (some name) then none else rest) (value_in name c))
      ≡ (if is_blocked (some name) then none else or_else rest (value_in name c))
unfolding value_in or_else is_blocked
keep_value name none none = ground arith
keep_value name none (some v) = ground arith
keep_value name (some (n, v)) rest = elim (Bool-cases (text_eq n name)) [
  | inl same ↦ rw ((text_eq_iff n name).0 same) (ground arith)
  | inr other ↦ rw other (ground arith)
]

env_value-keep :
    (name : Bytes) (parent : List Bytes)
    → env_value name (keep parent)
      ≡ (if is_blocked (some name) then none else env_value name parent)
unfolding env_value keep
env_value-keep name [] = ground arith
env_value-keep name (kv ∷ parent) =
    let c = cut (codes "=") kv in
    let step = keep_value name c (env_value name parent) in
    elim (Bool-cases (is_blocked (name_of c))) [
      | inl dropped ↦ rw dropped (env_value-keep name parent ∙ (rw dropped at step))
      | inr kept ↦
          rw kept
            (ap (λ v. or_else v (value_in name c)) (env_value-keep name parent) ∙ (rw kept at step))
    ]

-- What a child process reads for any variable: the forced value if the variable is forced, no value
-- if it is blocked, and the parent's value if it is neither.
pub non_interactive_value :
    (name : Bytes) (parent : List Bytes)
    → env_value name (non_interactive parent)
      ≡ or_else
          (env_value name forced)
          (if is_blocked (some name) then none else env_value name parent)
unfolding non_interactive
non_interactive_value name parent =
    env_value-append name (keep parent) forced
    ∙ ap (or_else (env_value name forced)) (env_value-keep name parent)
