-- ===== src/Ssrf/Cache/Laws.antt =====
-- The cache stays bounded, serves an answer for its time, and shares one call.
use grabber.Base.{
  ℕ, ◌+◌, ◌≤◌, false, List, [], ◌∷◌, ◌≡◌, refl, arith, none, some, ltb, leb, if◌then◌else◌, length,
}
use grabber.Text.{Bytes, text_eq}
use grabber.Text.Laws.{text_eq_refl, text_eq_iff}
use grabber.Ssrf.Proxied.{Lookup}
use grabber.Ssrf.Cache.{
  LookupCache, LookupResult, hit, start_call, find, remove, put, lookup, run, ttl, lookup_cache_max,
  reset,
}

module _ {ℓ} {V : Type ℓ} where
  length-remove : (k : Bytes) (m : List (Bytes × V)) → length (remove k m) ≤ length m
  unfolding remove
  length-remove k [] = omega arith
  length-remove k ((j, v) ∷ m) = ground (arith, length-remove k m)

  pub find-put : (k : Bytes) (v : V) (m : List (Bytes × V)) → find k (put k v m) ≡ some v
  unfolding find put
  find-put k v m = rw (text_eq_refl k)

  pub find-remove_self : (k : Bytes) (m : List (Bytes × V)) → find k (remove k m) ≡ none
  unfolding find remove
  find-remove_self k [] = refl
  find-remove_self k ((j, v) ∷ m) = ground (arith, find-remove_self k m)

  pub find-remove_ne :
      (k j : Bytes) (m : List (Bytes × V)) → text_eq k j ≡ false → find j (remove k m) ≡ find j m
  unfolding find remove
  find-remove_ne k j [] h = refl
  find-remove_ne k j ((i, v) ∷ m) h =
      ground (arith, find-remove_ne k j m h, text_eq_iff i k, text_eq_iff i j, text_eq_iff k j)

abbrev pub IsBounded : LookupCache → Type 0
IsBounded c = length c.entries ≤ lookup_cache_max

-- A cache of at most 1024 names still holds at most as many after a lookup, after an answer and
-- after a reset.
pub cache-IsBounded :
    (c : LookupCache) (now : ℕ) (host : Bytes) (result : Lookup)
    → IsBounded c
    → IsBounded (lookup c now host).0 × IsBounded (run c now host result) × IsBounded (reset c)
unfolding lookup run reset
cache-IsBounded c now host result h = (
  ground arith,
  ground (arith, length-remove host c.entries, length-remove {V = LookupResult} host []),
  ground arith,
)

-- After an answer, the same name is served from the cache until its time is up, and then a new call
-- starts.
pub lookup-run :
    (c : LookupCache) (t now : ℕ) (host : Bytes) (result : Lookup)
    → (lookup (run c t host result) now host).1
      ≡ (if ltb now (t + ttl result) then hit result else start_call c.next_call)
unfolding lookup run
lookup-run c t now host result =
    let kept = if leb lookup_cache_max (length c.entries) then [] else c.entries in
    ground (arith, text_eq_refl host, find-remove_self host c.inflight)
