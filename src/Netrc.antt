-- ===== src/Netrc.antt =====
-- internal/netrc/netrc.go. The environment and the file system are parameters. White space is that
-- of ASCII. The machines that `parse` makes are cells of a store, since `current`, `match` and
-- `fallback` may point to the same one.
pub mod Entries
pub mod Cells
pub mod Finds
use grabber.Base.{
  ℕ, suc, Bool, true, false, not, ◌&&◌, ◌||◌, List, [], ◌∷◌, ◌++◌, Option, none, some,
  if◌then◌else◌, ◌==◌, Result, ok, err, ◌>>=◌,
}
use grabber.Text.{fields_func, Bytes, codes, text_eq, is_empty, split, trim_space, is_space}
use grabber.FilePath.{join_path}

-- `Machine`
pub record Machine : Type 0 where
  pub name : Bytes
  pub login : Bytes
  pub password : Bytes

-- `strings.Fields`
unfoldable pub fields : Bytes → List Bytes
fields s = fields_func is_space s

-- The fields of a line up to "macdef", and whether that is there.
unfoldable pub line_tokens : List Bytes → List Bytes × Bool
line_tokens [] = ([], false)
line_tokens (f ∷ fs) =
    let (tokens, macro) = line_tokens fs in
    if text_eq f (codes "macdef") then ([], true) else (f ∷ tokens, macro)

-- The loop over the lines; the flag is `inMacdef`.
unfoldable pub tokens : Bool → List Bytes → List Bytes
unfolding line_tokens
tokens in_macro [] = []
tokens true (line ∷ lines) = tokens (not (is_empty (trim_space line))) lines
tokens false (line ∷ lines) =
    let (read, macro) = line_tokens (fields line) in read ++ tokens macro lines

pub data Keyword : Type 0 where
  machine default_entry login password account other : Keyword

unfoldable pub keyword : Bytes → Keyword
keyword t =
    if text_eq t (codes "machine")
    then machine
    else if text_eq t (codes "default")
    then default_entry
    else if text_eq t (codes "login")
    then login
    else if text_eq t (codes "password")
    then password
    else if text_eq t (codes "account")
    then account
    else other

-- The variables of the second loop. A pointer is the number of a cell, and `next` is the number
-- of the cell that is allocated next.
pub record Parser : Type 0 where
  pub cell : ℕ → Machine
  pub next : ℕ
  pub current : Option ℕ
  pub matched : Option ℕ
  pub fallback : Option ℕ

abbrev pub update : (ℕ → Machine) → ℕ → Machine → ℕ → Machine
update f p m q = if p == q then m else f q

abbrev pub no_machine : Machine
no_machine = record { name = []; login = []; password = [] }

abbrev pub first_of : Option ℕ → ℕ → Option ℕ
first_of none p = some p
first_of (some q) p = some q

-- `&Machine{…}` as the current one.
abbrev pub allocate : Machine → Parser → Parser
allocate m st = record st {
  cell = update st.cell st.next m;
  next = suc st.next;
  current = some st.next;
}

unfoldable pub on_machine : Bytes → Bytes → Parser → Parser
on_machine host name st = record (allocate (record no_machine { name = name }) st) {
  matched = if text_eq name host then first_of st.matched st.next else st.matched;
}

unfoldable pub on_default : Parser → Parser
on_default st = record (allocate no_machine st) { fallback = first_of st.fallback st.next }

-- `current.Login = …`, if there is a current machine.
abbrev pub write_current : (Machine → Machine) → Option ℕ → Parser → Parser
write_current f none st = st
write_current f (some p) st = record st { cell = update st.cell p (f (st.cell p)) }

unfoldable pub on_login : Bytes → Parser → Parser
on_login v st = write_current (λ m. record m { login = v }) st.current st

unfoldable pub on_password : Bytes → Parser → Parser
on_password v st = write_current (λ m. record m { password = v }) st.current st

-- A keyword that is the last token: only "default" does anything.
unfoldable pub at_end : Keyword → Parser → Parser
at_end default_entry st = on_default st
at_end _ st = st

-- The loop over the tokens.
unfoldable pub scan : Bytes → Parser → List Bytes → Parser
unfolding at_end
scan host st [] = st
scan host st (t ∷ []) = at_end (keyword t) st
scan host st (t ∷ v ∷ rest) = elim (keyword t) [
  | machine ↦ scan host (on_machine host v st) rest
  | default_entry ↦ scan host (on_default st) (v ∷ rest)
  | login ↦ scan host (on_login v st) rest
  | password ↦ scan host (on_password v st) rest
  | account ↦ scan host st rest
  | other ↦ scan host st (v ∷ rest)
]

abbrev pub read_cell : Parser → Option ℕ → Option Machine
read_cell st none = none
read_cell st (some p) = some (st.cell p)

abbrev pub or_else : Option Machine → Option Machine → Option Machine
or_else none m = m
or_else (some m) _ = some m

-- `match` if there is one, else `fallback`.
unfoldable pub answer : Parser → Option Machine
answer st = or_else (read_cell st st.matched) (read_cell st st.fallback)

abbrev pub start : Parser
start = record { cell = λ p. no_machine; next = 0; current = none; matched = none; fallback = none }

unfoldable pub parse_tokens : Bytes → List Bytes → Option Machine
unfolding answer
parse_tokens host ts = answer (scan host start ts)

-- `parse`, of the text that is read.
unfoldable pub parse : Bytes → Bytes → Option Machine
parse text host = parse_tokens host (tokens false (split 10 text))

-- What the path names: `none` in `file` if it cannot be read.
pub data Stat : Type 0 where
  missing unreadable directory : Stat
  file : Option Bytes → Stat

-- `LookupFile`: the error, or the machine if there is one.
unfoldable pub lookup_file : Stat → Bytes → Result (Unit {0}) (Option Machine)
lookup_file missing host = ok none
lookup_file unreadable host = err tt
lookup_file directory host = ok none
lookup_file (file none) host = err tt
lookup_file (file (some text)) host = ok (parse text host)

-- `DefaultPath`: `netrc` is the variable's value, `home` the home directory if it can be found.
unfoldable pub default_path : Bool → Bytes → Option Bytes → Bytes
default_path windows netrc none = netrc
default_path windows netrc (some home) =
    if not (is_empty netrc)
    then netrc
    else if is_empty home
    then []
    else join_path home (if windows then codes "_netrc" else codes ".netrc")

-- `Lookup`
unfoldable pub lookup :
    (Bytes → Stat) → Bool → Bytes → Option Bytes → Bytes → Result (Unit {0}) (Option Machine)
lookup stat windows netrc home host =
    let path = default_path windows netrc home in
    if is_empty path then ok none else lookup_file (stat path) host
