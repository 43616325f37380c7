-- ===== src/Netrc/Cells.antt =====
-- The cells that the loop of `parse` has allocated: what the pointers to them read.
use grabber.Base.{
  ℕ, suc, ◌<◌, Bool, true, false, List, [], ◌∷◌, ◌≡◌, inl, inr, refl, sym, ap, ◌∙◌, Option, none,
  some, if◌then◌else◌, ◌==◌, ==_refl, ==_iff, Bool-cases, arith,
}
use grabber.Netrc.{Machine, Parser, update, first_of, or_else, read_cell}
use grabber.Netrc.Entries.{Item, named, unnamed, with_login, with_password, close}

-- What a pointer reads once the open machine `c` has become `m`.
abbrev pub at : (ℕ → Machine) → ℕ → Machine → Option ℕ → Option Machine
at f c m none = none
at f c m (some p) = some (if c == p then m else f p)

abbrev pub Below : ℕ → Option ℕ → Type 0
Below n none = Unit
Below n (some p) = p < n

abbrev pub parser_at : (ℕ → Machine) → ℕ → ℕ → Option ℕ → Option ℕ → Parser
parser_at f n c a b = record { cell = f; next = n; current = some c; matched = a; fallback = b }

pub close-name : (m : Machine) (is : List Item) → (close m is).0.name ≡ m.name
unfolding close
close-name m [] = refl
close-name m (named n ∷ is) = refl
close-name m (unnamed ∷ is) = refl
close-name m (with_login v ∷ is) = close-name (record m { login = v }) is
close-name m (with_password v ∷ is) = close-name (record m { password = v }) is

update_same : (f : ℕ → Machine) (c p : ℕ) → update f c (f c) p ≡ f p
update_same f c p = elim (Bool-cases (c == p)) [
  | inl same ↦ rw (same) (ap f ((==_iff c p).0 same))
  | inr differs ↦ rw (differs) refl
]

pub update_hit : (f : ℕ → Machine) (c : ℕ) (m : Machine) → update f c m c ≡ m
update_hit f c m = rw (==_refl c) refl

update_below : (f : ℕ → Machine) (n p : ℕ) (m : Machine) → p < n → update f n m p ≡ f p
update_below f n p m p<n = rw (==_below n p p<n) refl
  where
    ==_below : (n p : ℕ) → p < n → (n == p) ≡ false
    ==_below n p below = ground arith

update_twice :
    (f : ℕ → Machine) (c p : ℕ) (m m' : Machine) → update (update f c m) c m' p ≡ update f c m' p
update_twice f c p m m' = elim (Bool-cases (c == p)) [
  | inl same ↦ rw (same) refl
  | inr differs ↦ rw (differs) refl
]

pub at_same : (c : ℕ) (st : Parser) (a : Option ℕ) → at st.cell c (st.cell c) a ≡ read_cell st a
at_same c st none = refl
at_same c st (some p) = ap some (update_same st.cell c p)

pub at_old :
    (f : ℕ → Machine) (n c : ℕ) (m m' : Machine) (a : Option ℕ)
    → Below n a
    → at (update f n m) n m' a ≡ at f c (f c) a
at_old f n c m m' none below = refl
at_old f n c m m' (some p) below =
    ap some (update_twice f n p m m' ∙ update_below f n p m' below ∙ sym (update_same f c p))

pub at_set :
    (f : ℕ → Machine) (c : ℕ) (m m' : Machine) (a : Option ℕ)
    → at (update f c m) c m' a ≡ at f c m' a
at_set f c m m' none = refl
at_set f c m m' (some p) = ap some (update_twice f c p m m')

pub Below-suc : (n : ℕ) (a : Option ℕ) → Below n a → Below (suc n) a
Below-suc n none below = tt
Below-suc n (some p) below = omega arith

pub first_of-Below :
    (n : ℕ) (hit : Bool) (a : Option ℕ)
    → Below n a
    → Below (suc n) (if hit then first_of a n else a)
first_of-Below n true none below = omega arith
first_of-Below n true (some p) below = Below-suc n (some p) below
first_of-Below n false a below = Below-suc n a below

-- A pointer that may be set to the new cell, and the search that goes on without it.
pub first_found :
    (f : ℕ → Machine) (n c : ℕ) (m m' : Machine) (hit : Bool) (a : Option ℕ) (rest : Option Machine)
    → Below n a
    → or_else (at (update f n m) n m' (if hit then first_of a n else a)) rest
      ≡ or_else (at f c (f c) a) (if hit then some m' else rest)
first_found f n c m m' true none rest below =
    ap (λ x. or_else (some x) rest) (update_hit (update f n m) n m')
first_found f n c m m' true (some p) rest below =
    ap (λ x. or_else x rest) (at_old f n c m m' (some p) below)
first_found f n c m m' false a rest below = ap (λ x. or_else x rest) (at_old f n c m m' a below)

pub or_else-ap : {x x' y y' : Option Machine} → x ≡ x' → y ≡ y' → or_else x y ≡ or_else x' y'
or_else-ap {x = x} {y' = y'} p q = ap (or_else x) q ∙ ap (λ z. or_else z y') p
