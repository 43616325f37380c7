-- ===== src/Ssrf/Ranges.antt =====
-- What the internal level blocks of the IPv4 addresses, as ranges of numbers.
use grabber.Base.{
  ℕ, ◌+◌, ◌*◌, ◌<◌, Bool, true, false, ◌&&◌, ◌||◌, [], ◌∷◌, ◌≡◌, refl, ◌∙◌, arith, leb, ◌==◌,
}
use grabber.Net.{
  is_loopback, is_unspecified, is_private, is_link_local_unicast, is_link_local_multicast,
  is_interface_local_multicast, is_multicast, net_contains,
}
use grabber.Ssrf.{is_internal, cgnat}

-- The number of a dotted quad.
abbrev pub quad : ℕ → ℕ → ℕ → ℕ → ℕ
quad a b c d = ((a * 256 + b) * 256 + c) * 256 + d

abbrev pub in_range : ℕ → ℕ → ℕ → Bool
in_range lo hi v = leb lo v && leb v hi

-- The ranges that the documentation of the level names, written out as first and last address.
abbrev pub is_reserved : ℕ → Bool
is_reserved v =
    in_range (quad 127 0 0 0) (quad 127 255 255 255) v
    || (in_range (quad 10 0 0 0) (quad 10 255 255 255) v
        || in_range (quad 172 16 0 0) (quad 172 31 255 255) v
        || in_range (quad 192 168 0 0) (quad 192 168 255 255) v)
    || in_range (quad 100 64 0 0) (quad 100 127 255 255) v
    || in_range (quad 169 254 0 0) (quad 169 254 255 255) v
    || in_range (quad 224 0 0 0) (quad 239 255 255 255) v
    || v == 0

absorb :
    (x link interface all_multicast u : Bool)
    → interface ≡ false
    → (link ≡ true → all_multicast ≡ true)
    → (x || link || interface || all_multicast || u) ≡ (x || all_multicast || u)
absorb x link interface all_multicast u e h = ground arith

module _ (a b c d : ℕ) (ha : a < 256) (hb : b < 256) (hc : c < 256) (hd : d < 256) where
  loopback_range :
      is_loopback (a ∷ b ∷ c ∷ d ∷ [])
      ≡ in_range (quad 127 0 0 0) (quad 127 255 255 255) (quad a b c d)
  unfolding is_loopback
  loopback_range = ground arith

  private_range : is_private (a ∷ b ∷ c ∷ d ∷ []) ≡ (
      in_range (quad 10 0 0 0) (quad 10 255 255 255) (quad a b c d)
      || in_range (quad 172 16 0 0) (quad 172 31 255 255) (quad a b c d)
      || in_range (quad 192 168 0 0) (quad 192 168 255 255) (quad a b c d))
  unfolding is_private
  private_range = ground arith

  cgnat_range :
      net_contains cgnat (a ∷ b ∷ c ∷ d ∷ [])
      ≡ in_range (quad 100 64 0 0) (quad 100 127 255 255) (quad a b c d)
  unfolding net_contains
  cgnat_range = ground arith

  link_local_range :
      is_link_local_unicast (a ∷ b ∷ c ∷ d ∷ [])
      ≡ in_range (quad 169 254 0 0) (quad 169 254 255 255) (quad a b c d)
  unfolding is_link_local_unicast
  link_local_range = ground arith

  multicast_range :
      is_multicast (a ∷ b ∷ c ∷ d ∷ [])
      ≡ in_range (quad 224 0 0 0) (quad 239 255 255 255) (quad a b c d)
  unfolding is_multicast
  multicast_range = ground arith

  link_local_multicast-imp :
      is_link_local_multicast (a ∷ b ∷ c ∷ d ∷ []) ≡ true → is_multicast (a ∷ b ∷ c ∷ d ∷ []) ≡ true
  unfolding is_link_local_multicast is_multicast
  link_local_multicast-imp h = ground arith

  interface_local-eq-false : is_interface_local_multicast (a ∷ b ∷ c ∷ d ∷ []) ≡ false
  unfolding is_interface_local_multicast
  interface_local-eq-false = refl

  unspecified_range : is_unspecified (a ∷ b ∷ c ∷ d ∷ []) ≡ (quad a b c d == 0)
  unfolding is_unspecified
  unspecified_range = ground arith

  -- An IPv4 address of four bytes is internal exactly if its number lies in one of the documented
  -- ranges.
  pub is_internal-is_reserved : is_internal (a ∷ b ∷ c ∷ d ∷ []) ≡ is_reserved (quad a b c d)
  unfolding is_internal
  is_internal-is_reserved =
      absorb _ _ _ _ _ interface_local-eq-false link_local_multicast-imp
      ∙ simp (
        loopback_range, private_range, cgnat_range, link_local_range, multicast_range,
        unspecified_range,
      )
