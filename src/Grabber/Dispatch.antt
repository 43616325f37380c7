-- ===== src/Grabber/Dispatch.antt =====
-- `Grabber.download`, the order of `allProtocols`, and the interfaces of protocols/protocol.go.
pub mod Best
use Prim.Native.Nat.{compare, Ordering}
use grabber.Base.{
  ℕ, Bool, true, false, not, ◌&&◌, ◌||◌, List, [], ◌∷◌, ◌++◌, Option, none, some, if◌then◌else◌,
  ◌==◌, ltb, leb,
}
use grabber.Text.{Bytes, codes, text_eq, cut}

-- `protocols.Protocol`, over the type of what `Detect` returns. `detect_forced` is `none` for a
-- protocol that is no `ForcedDetector`.
pub record Protocol (D : Type 0) : Type 0 where
  pub prefix : Bytes
  pub priority : ℕ
  pub detect : Bytes → Option D
  pub detect_forced : Option (Bytes → Option D)

pub data Choice (D : Type 0) : Type 0 where
  chosen : D → Choice D
  unsupported : Choice D
  not_handled_by : Bytes → Choice D

-- Go's `<` on strings.
unfoldable pub text_lt : Bytes → Bytes → Bool
text_lt [] [] = false
text_lt [] (d ∷ t) = true
text_lt (c ∷ s) [] = false
text_lt (c ∷ s) (d ∷ t) = ltb c d || (c == d && text_lt s t)

module _ {D : Type 0} where
  -- The order of `init`: falling priority, and then the prefix.
  unfoldable pub protocol_less : Protocol D → Protocol D → Bool
  protocol_less p q =
      if p.priority == q.priority then text_lt p.prefix q.prefix else ltb q.priority p.priority

  insert_protocol : Protocol D → List (Protocol D) → List (Protocol D)
  insert_protocol p [] = p ∷ []
  insert_protocol p (q ∷ qs) =
      let rest = insert_protocol p qs in if protocol_less q p then q ∷ rest else p ∷ q ∷ qs

  -- `sort.Slice` on a list in which no two protocols have the same priority and prefix.
  unfoldable pub sort_protocols : List (Protocol D) → List (Protocol D)
  unfolding insert_protocol
  sort_protocols [] = []
  sort_protocols (p ∷ ps) = insert_protocol p (sort_protocols ps)

  -- The detector that a force-prefix uses.
  unfoldable pub forced_detector : Protocol D → Bytes → Option D
  forced_detector p = elim p.detect_forced [ none ↦ p.detect | some f ↦ f ]

  or_refuse : Bytes → Option D → Choice D
  or_refuse prefix none = not_handled_by prefix
  or_refuse prefix (some d) = chosen d

  -- The loop over the protocols for a force-prefix; `none` if no protocol has it.
  unfoldable pub by_prefix : Bytes → Bytes → List (Protocol D) → Option (Choice D)
  unfolding or_refuse
  by_prefix prefix remainder [] = none
  by_prefix prefix remainder (p ∷ ps) =
      if text_eq p.prefix prefix
      then some (or_refuse prefix (forced_detector p remainder))
      else by_prefix prefix remainder ps

  -- The loop of auto-detection.
  unfoldable pub by_detection : Bytes → List (Protocol D) → Choice D
  by_detection url [] = unsupported
  by_detection url (p ∷ ps) = elim (p.detect url) [ none ↦ by_detection url ps | some d ↦ chosen d ]

  or_detect : Bytes → List (Protocol D) → Option (Choice D) → Choice D
  or_detect url ps none = by_detection url ps
  or_detect url ps (some c) = c

  choose_cut : Bytes → List (Protocol D) → Option (Bytes × Bytes) → Choice D
  unfolding or_detect
  choose_cut url ps none = by_detection url ps
  choose_cut url ps (some (prefix, remainder)) = or_detect url ps (by_prefix prefix remainder ps)

  -- `download`, up to the call of `Download`.
  unfoldable pub choose : Bytes → List (Protocol D) → Choice D
  unfolding choose_cut
  choose url ps = choose_cut url ps (cut (codes "::") url)
