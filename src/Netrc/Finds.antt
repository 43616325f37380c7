-- ===== src/Netrc/Finds.antt =====
-- The parser of netrc.go against the list of entries.
use grabber.Base.{
  ℕ, suc, ◌<◌, true, false, List, [], ◌∷◌, ◌≡◌, refl, sym, ap, ◌∙◌, subst, Option, none, some,
  if◌then◌else◌, arith,
}
use grabber.Text.{Bytes, text_eq}
use grabber.Netrc.{
  Machine, update, no_machine, first_of, on_machine, on_default, on_login, on_password, or_else,
  read_cell, answer, start, parse_tokens,
}
use grabber.Netrc.Entries.{
  Item, named, unnamed, with_login, with_password, items, Entry, close, entries, find_named,
  find_default, find, apply, run, scan-run,
}
use grabber.Netrc.Cells.{
  at, Below, parser_at, close-name, update_hit, at_same, at_old, at_set, Below-suc, first_of-Below,
  first_found, or_else-ap,
}

-- The answer, given the open machine at the end, the pointers and the entries that follow.
abbrev best : Bytes → Option Machine → Option Machine → List Entry → Option Machine
best host a b es = or_else (or_else a (find_named host es)) (or_else b (find_default es))

-- What `run` answers once an entry is open that has become `m`.
abbrev Answers : Bytes → (ℕ → Machine) → ℕ → ℕ → Option ℕ → Option ℕ → List Item → Machine → Type 0
Answers host f n c a b is m =
    answer (run host (parser_at f n c a b) is)
    ≡ best host (at f c (close m is).0 a) (at f c (close m is).0 b) (close m is).1

abbrev Answered : Bytes → List Item → Type 0
Answered host is =
    (f : ℕ → Machine) (n c : ℕ) (a b : Option ℕ)
    → c < n
    → Below n a
    → Below n b
    → Answers host f n c a b is (f c)

answer-write :
    (host : Bytes) (m : Machine) (is : List Item)
    → Answered host is
    → (f : ℕ → Machine) (n c : ℕ) (a b : Option ℕ) → c < n
    → Below n a
    → Below n b
    → answer (run host (parser_at (update f c m) n c a b) is)
      ≡ best host (at f c (close m is).0 a) (at f c (close m is).0 b) (close m is).1
answer-write host m is later f n c a b c<n a<n b<n =
    subst (Answers host (update f c m) n c a b is) (update_hit f c m)
      (later (update f c m) n c a b c<n a<n b<n)
    ∙ ap (λ x. best host x (at (update f c m) c (close m is).0 b) (close m is).1)
        (at_set f c m (close m is).0 a)
    ∙ ap (λ x. best host (at f c (close m is).0 a) x (close m is).1) (at_set f c m (close m is).0 b)

answer-allocate :
    (host : Bytes) (m : Machine) (is : List Item)
    → Answered host is
    → (f : ℕ → Machine) (n : ℕ) (a b : Option ℕ) → Below (suc n) a
    → Below (suc n) b
    → Answers host (update f n m) (suc n) n a b is m
answer-allocate host m is later f n a b a≤n b≤n =
    subst (Answers host (update f n m) (suc n) n a b is) (update_hit f n m)
      (later (update f n m) (suc n) n a b (omega arith) a≤n b≤n)

at_end-best :
    (f : ℕ → Machine) (n c : ℕ) (host : Bytes) (a b : Option ℕ)
    → best host (at f c (f c) a) (at f c (f c) b) [] ≡ answer (parser_at f n c a b)
unfolding answer find_named find_default
at_end-best f n c host a b =
    ap (λ x. best host x (at f c (f c) b) []) (at_same c (parser_at f n c a b) a)
    ∙ ap (λ x. best host (read_cell (parser_at f n c a b) a) x [])
        (at_same c (parser_at f n c a b) b)
    ∙ without_more (read_cell (parser_at f n c a b) a) (read_cell (parser_at f n c a b) b)
  where
    without_more : (x y : Option Machine) → or_else (or_else x none) (or_else y none) ≡ or_else x y
    without_more none none = refl
    without_more none (some y) = refl
    without_more (some x) y = refl

named-best :
    (f : ℕ → Machine) (n c : ℕ) (host v : Bytes) (is : List Item) (a b : Option ℕ)
    → Below n a
    → Below n b
    → let m = record no_machine { name = v } in
      best host
        (at (update f n m) n (close m is).0 (if text_eq v host then first_of a n else a))
        (at (update f n m) n (close m is).0 b)
        (close m is).1
      ≡ best host
          (at f c (f c) a)
          (at f c (f c) b)
          (record { is_default = false; machine = (close m is).0 } ∷ (close m is).1)
unfolding find_named find_default
named-best f n c host v is a b a<n b<n =
    let m = record no_machine { name = v } in
    rw (close-name m is) (
      or_else-ap
        (first_found f n c m (close m is).0 (text_eq v host) a (find_named host (close m is).1) a<n)
        (ap (λ x. or_else x (find_default (close m is).1)) (at_old f n c m (close m is).0 b b<n)))

unnamed-best :
    (f : ℕ → Machine) (n c : ℕ) (host : Bytes) (is : List Item) (a b : Option ℕ)
    → Below n a
    → Below n b
    → best host
        (at (update f n no_machine) n (close no_machine is).0 a)
        (at (update f n no_machine) n (close no_machine is).0 (first_of b n))
        (close no_machine is).1
      ≡ best host (at f c (f c) a) (at f c (f c) b) (
          record { is_default = true; machine = (close no_machine is).0 } ∷ (close no_machine is).1)
unfolding find_named find_default
unnamed-best f n c host is a b a<n b<n =
    let m = close no_machine is in
    or_else-ap (ap (λ x. or_else x (find_named host m.1)) (at_old f n c no_machine m.0 a a<n))
      (first_found f n c no_machine m.0 true b (find_default m.1) b<n)

answer-run : (host : Bytes) (is : List Item) → Answered host is
unfolding run apply close find_named find_default on_login on_password on_machine on_default
answer-run host [] f n c a b c<n a<n b<n = sym (at_end-best f n c host a b)
answer-run host (named v ∷ is) f n c a b c<n a<n b<n =
    answer-allocate host (record no_machine { name = v }) is (answer-run host is) f n
      (if text_eq v host then first_of a n else a) b (first_of-Below n (text_eq v host) a a<n)
      (Below-suc n b b<n)
    ∙ named-best f n c host v is a b a<n b<n
answer-run host (unnamed ∷ is) f n c a b c<n a<n b<n =
    answer-allocate host no_machine is (answer-run host is) f n a (first_of b n) (Below-suc n a a<n)
      (first_of-Below n true b b<n)
    ∙ unnamed-best f n c host is a b a<n b<n
answer-run host (with_login v ∷ is) f n c a b c<n a<n b<n =
    answer-write host (record (f c) { login = v }) is (answer-run host is) f n c a b c<n a<n b<n
answer-run host (with_password v ∷ is) f n c a b c<n a<n b<n =
    answer-write host (record (f c) { password = v }) is (answer-run host is) f n c a b c<n a<n b<n

answer-run-start :
    (host : Bytes) (is : List Item) → answer (run host start is) ≡ find host (entries is)
unfolding run apply close find entries find_named find_default on_login on_password on_machine
    on_default
answer-run-start host [] = unfold answer in refl
answer-run-start host (named v ∷ is) =
    answer-allocate host (record no_machine { name = v }) is (answer-run host is) start.cell 0
      (if text_eq v host then first_of none 0 else none) none
      (first_of-Below 0 (text_eq v host) none tt) tt
    ∙ named-best start.cell 0 0 host v is none none tt tt
answer-run-start host (unnamed ∷ is) =
    answer-allocate host no_machine is (answer-run host is) start.cell 0 none (first_of none 0) tt
      (first_of-Below 0 true none tt)
    ∙ unnamed-best start.cell 0 0 host is none none tt tt
answer-run-start host (with_login v ∷ is) = answer-run-start host is
answer-run-start host (with_password v ∷ is) = answer-run-start host is

-- Whatever the tokens, in whatever order: the loop over them answers the first entry for the host,
-- or else the first default entry, of the list of entries that the tokens say, each with the last
-- login and password that follow it.
pub parse_tokens-find :
    (host : Bytes) (ts : List Bytes) → parse_tokens host ts ≡ find host (entries (items ts))
unfolding parse_tokens
parse_tokens-find host ts = ap answer (scan-run host start ts) ∙ answer-run-start host (items ts)
