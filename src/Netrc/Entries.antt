-- ===== src/Netrc/Entries.antt =====
-- A netrc file as a list of entries, and that the parser finds the right one.
use grabber.Base.{
  Bool, true, false, not, ◌&&◌, List, [], ◌∷◌, ◌≡◌, refl, Option, none, some, if◌then◌else◌,
}
use grabber.Text.{Bytes, text_eq}
use grabber.Netrc.{
  Machine, Keyword, machine, default_entry, login, password, account, other, keyword, Parser,
  no_machine, on_machine, on_default, on_login, on_password, at_end, scan, or_else,
}

-- What the tokens say, with the value of each keyword that takes one.
pub data Item : Type 0 where
  named : Bytes → Item
  unnamed : Item
  with_login : Bytes → Item
  with_password : Bytes → Item

item_at_end : Keyword → List Item
item_at_end default_entry = unnamed ∷ []
item_at_end _ = []

unfoldable pub items : List Bytes → List Item
unfolding item_at_end
items [] = []
items (t ∷ []) = item_at_end (keyword t)
items (t ∷ v ∷ rest) = elim (keyword t) [
  | machine ↦ named v ∷ items rest
  | default_entry ↦ unnamed ∷ items (v ∷ rest)
  | login ↦ with_login v ∷ items rest
  | password ↦ with_password v ∷ items rest
  | account ↦ items rest
  | other ↦ items (v ∷ rest)
]

pub record Entry : Type 0 where
  pub is_default : Bool
  pub machine : Machine

-- The entry that is open, and those after it.
unfoldable pub close : Machine → List Item → Machine × List Entry
close m [] = (m, [])
close m (named n ∷ is) =
    let (m', later) = close (record no_machine { name = n }) is in
    (m, record { is_default = false; machine = m' } ∷ later)
close m (unnamed ∷ is) =
    let (m', later) = close no_machine is in (m, record { is_default = true; machine = m' } ∷ later)
close m (with_login v ∷ is) = close (record m { login = v }) is
close m (with_password v ∷ is) = close (record m { password = v }) is

-- The entries of a file: a login or password belongs to the entry before it, and the last one
-- counts. What stands before the first entry belongs to none.
unfoldable pub entries : List Item → List Entry
unfolding close
entries [] = []
entries (named n ∷ is) =
    let (m, later) = close (record no_machine { name = n }) is in
    record { is_default = false; machine = m } ∷ later
entries (unnamed ∷ is) =
    let (m, later) = close no_machine is in record { is_default = true; machine = m } ∷ later
entries (with_login v ∷ is) = entries is
entries (with_password v ∷ is) = entries is

unfoldable pub find_named : Bytes → List Entry → Option Machine
find_named host [] = none
find_named host (e ∷ es) =
    if not e.is_default && text_eq e.machine.name host then some e.machine else find_named host es

unfoldable pub find_default : List Entry → Option Machine
find_default [] = none
find_default (e ∷ es) = if e.is_default then some e.machine else find_default es

-- The first entry for the host, or else the first default entry.
unfoldable pub find : Bytes → List Entry → Option Machine
find host es = or_else (find_named host es) (find_default es)

unfoldable pub apply : Bytes → Item → Parser → Parser
apply host (named n) st = on_machine host n st
apply host unnamed st = on_default st
apply host (with_login v) st = on_login v st
apply host (with_password v) st = on_password v st

unfoldable pub run : Bytes → Parser → List Item → Parser
run host st [] = st
run host st (i ∷ is) = run host (apply host i st) is

at_end-run : (host : Bytes) (st : Parser) (k : Keyword) → at_end k st ≡ run host st (item_at_end k)
unfolding at_end item_at_end run apply
at_end-run host st machine = refl
at_end-run host st default_entry = refl
at_end-run host st _ = refl

pub scan-run :
    (host : Bytes) (st : Parser) (ts : List Bytes) → scan host st ts ≡ run host st (items ts)
unfolding run apply scan keyword items
scan-run host st [] = unfold scan items in refl
scan-run host st (t ∷ []) = unfold scan items in at_end-run host st (keyword t)
scan-run host st (t ∷ v ∷ rest) =
    by_keyword (keyword t) (λ st'. scan-run host st' rest) (λ st'. scan-run host st' (v ∷ rest))
  where
    by_keyword :
        (k : Keyword)
        → ((st' : Parser) → scan host st' rest ≡ run host st' (items rest))
        → ((st' : Parser) → scan host st' (v ∷ rest) ≡ run host st' (items (v ∷ rest)))
        → ◌≡◌ {A = Parser}
            (elim k [
              | machine ↦ scan host (on_machine host v st) rest
              | default_entry ↦ scan host (on_default st) (v ∷ rest)
              | login ↦ scan host (on_login v st) rest
              | password ↦ scan host (on_password v st) rest
              | account ↦ scan host st rest
              | other ↦ scan host st (v ∷ rest)
            ])
            (run host st (elim k [
              | machine ↦ named v ∷ items rest
              | default_entry ↦ unnamed ∷ items (v ∷ rest)
              | login ↦ with_login v ∷ items rest
              | password ↦ with_password v ∷ items rest
              | account ↦ items rest
              | other ↦ items (v ∷ rest)
            ]))
    by_keyword machine f g = f (on_machine host v st)
    by_keyword default_entry f g = g (on_default st)
    by_keyword login f g = f (on_login v st)
    by_keyword password f g = f (on_password v st)
    by_keyword account f g = f st
    by_keyword other f g = g st
