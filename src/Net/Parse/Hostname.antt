-- ===== src/Net/Parse/Hostname.antt =====
-- What `URL.Hostname` takes from a `Host`.
use grabber.Base.{
  true, false, [], ◌∷◌, ◌++◌, ◌≡◌, ◌⊎◌, inl, inr, refl, sym, ap, ◌∙◌, Option, none, some, ℕ, ◌==◌,
  ==_iff, Bool-cases, reverse, reverse-append, reverse-reverse, append_assoc,
}
use grabber.Text.{Bytes, codes, cut}
use grabber.Text.Laws.{cut-eq-some}
use grabber.Net.Parse.{all_digits, without_port, last_is, init, without_brackets, url_hostname}

-- A host without its port: digits or nothing after its last colon.
pub data WithoutPort (host inside : Bytes) : Type 0 where
  ported :
      (port : Bytes)
      → all_digits (reverse port) ≡ true
      → host ≡ inside ++ codes ":" ++ port
      → WithoutPort host inside
  no_colon : cut (codes ":") (reverse host) ≡ none → inside ≡ host → WithoutPort host inside
  no_port :
      (before after : Bytes)
      → cut (codes ":") (reverse host) ≡ some (after, before)
      → all_digits after ≡ false
      → inside ≡ host
      → WithoutPort host inside

-- A literal without its brackets, or a name that has none.
pub data WithoutBrackets (inside name : Bytes) : Type 0 where
  bracketed : inside ≡ codes "[" ++ name ++ codes "]" → WithoutBrackets inside name
  no_brackets :
      ((s : Bytes) × (c : ℕ) × (inside ≡ c ∷ s) × ((c == b'[') ≡ false))
        ⊎ (last_is b']' inside ≡ false)
      → name ≡ inside
      → WithoutBrackets inside name

last_is-init : (c : ℕ) (s : Bytes) → last_is c s ≡ true → s ≡ init s ++ c ∷ []
unfolding last_is init
last_is-init c [] h = absurd (cc h)
last_is-init c (d ∷ []) h = ap (λ x. x ∷ []) (sym ((==_iff c d).0 h))
last_is-init c (d ∷ e ∷ s) h = ap (◌∷◌ d) (last_is-init c (e ∷ s) h)

without_port-WithoutPort :
    (host : Bytes) (o : Option (Bytes × Bytes))
    → cut (codes ":") (reverse host) ≡ o
    → WithoutPort host (without_port host o)
unfolding without_port
without_port-WithoutPort host none e = no_colon e refl
without_port-WithoutPort host (some (port, before)) e = elim (Bool-cases (all_digits port)) [
  | inr other ↦ rw other (no_port before port e other refl)
  | inl digits ↦
      let whole : host ≡ reverse before ++ codes ":" ++ reverse port =
        sym (reverse-reverse host)
        ∙ ap reverse (cut-eq-some (codes ":") (reverse host) port before e)
        ∙ turned in
      rw digits (ported (reverse port) (rw (reverse-reverse port) digits) whole)
]
  where
    turned : reverse (port ++ codes ":" ++ before) ≡ reverse before ++ codes ":" ++ reverse port
    turned =
        reverse-append (port ++ codes ":") before
        ∙ ap (λ x. reverse before ++ x) (reverse-append port (codes ":"))
        ∙ sym (append_assoc (reverse before) (codes ":") (reverse port))

closed :
    (c : ℕ) (s : Bytes)
    → c ≡ b'['
    → last_is b']' (c ∷ s) ≡ true
    → c ∷ s ≡ codes "[" ++ init s ++ codes "]"
unfolding last_is
closed c [] e h = absurd (cc (rw e at h))
closed c (d ∷ s) e h = rw e (ap (◌∷◌ b'[') (last_is-init b']' (d ∷ s) h))

without_brackets-WithoutBrackets :
    (inside : Bytes) → WithoutBrackets inside (without_brackets inside)
unfolding without_brackets
without_brackets-WithoutBrackets [] = no_brackets (inr (unfold last_is in refl)) refl
without_brackets-WithoutBrackets (c ∷ s) = elim (Bool-cases (c == b'[')) [
  | inr other ↦ rw other (no_brackets (inl (s, c, refl, other)) refl)
  | inl opens ↦ elim (Bool-cases (last_is b']' (c ∷ s))) [
    | inr unclosed ↦ rw (opens, unclosed) (no_brackets (inr unclosed) refl)
    | inl closes ↦ rw (opens, closes) (bracketed (closed c s ((==_iff c b'[').0 opens) closes))
  ]
]

pub url_hostname-cases :
    (host : Bytes)
    → (inside : Bytes) × WithoutPort host inside × WithoutBrackets inside (url_hostname host)
unfolding url_hostname
url_hostname-cases host = (
  without_port host (cut (codes ":") (reverse host)),
  without_port-WithoutPort host _ refl,
  without_brackets-WithoutBrackets _,
)
