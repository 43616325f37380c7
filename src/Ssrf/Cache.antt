-- ===== src/Ssrf/Cache.antt =====
-- ssrf/lookupcache.go: the cache of name lookups as a state, and its critical sections as steps.
-- Times are numbers of seconds; the resolver's result is what the environment answers.
pub mod Laws
use grabber.Base.{
  ℕ, zero, suc, ◌+◌, ◌≤◌, Bool, true, false, not, ◌&&◌, ◌||◌, List, [], ◌∷◌, Option, none, some,
  ◌==◌, ltb, leb, if◌then◌else◌, length,
}
use grabber.Text.{Bytes, text_eq}
use grabber.Net.{Ip}
use grabber.Ssrf.Proxied.{Lookup, answer, not_found, failed}

abbrev pub lookup_cache_ttl : ℕ
lookup_cache_ttl = 30

abbrev pub lookup_error_ttl : ℕ
lookup_error_ttl = 5

abbrev pub lookup_cache_max : ℕ
lookup_cache_max = 1024

pub record LookupResult : Type 0 where
  pub result : Lookup
  pub expires : ℕ

module _ {ℓ} {V : Type ℓ} where
  -- Go's maps with string keys.
  unfoldable pub find : Bytes → List (Bytes × V) → Option V
  unfolding text_eq
  find k [] = none
  find k ((j, v) ∷ m) = if text_eq j k then some v else find k m

  unfoldable pub remove : Bytes → List (Bytes × V) → List (Bytes × V)
  unfolding text_eq
  remove k [] = []
  remove k ((j, v) ∷ m) = let rest = remove k m in if text_eq j k then rest else (j, v) ∷ rest

  unfoldable pub put : Bytes → V → List (Bytes × V) → List (Bytes × V)
  unfolding remove
  put k v m = (k, v) ∷ remove k m

-- `lookupCache`: `inflight` maps a name to the number of its running call.
pub record LookupCache : Type 0 where
  pub entries : List (Bytes × LookupResult)
  pub inflight : List (Bytes × ℕ)
  pub next_call : ℕ

-- What `lookup` does under the lock: answer from the cache, join a running call, or start one.
pub data Outcome : Type 0 where
  hit : Lookup → Outcome
  join_call : ℕ → Outcome
  start_call : ℕ → Outcome

join_or_start : LookupCache → Bytes → Option ℕ → LookupCache × Outcome
unfolding put
join_or_start c host (some call) = (c, join_call call)
join_or_start c host none = (
  record c { inflight = put host c.next_call c.inflight; next_call = c.next_call + 1 },
  start_call c.next_call,
)

fresh_or_call : LookupCache → Bytes → ℕ → Option LookupResult → LookupCache × Outcome
unfolding join_or_start find
fresh_or_call c host now none = join_or_start c host (find host c.inflight)
fresh_or_call c host now (some r) =
    if ltb now r.expires then (c, hit r.result) else join_or_start c host (find host c.inflight)

-- `lookupCache.lookup`, up to the wait.
unfoldable pub lookup : LookupCache → ℕ → Bytes → LookupCache × Outcome
unfolding fresh_or_call
lookup c now host = fresh_or_call c host now (find host c.entries)

-- `ttl` in `run`.
unfoldable pub ttl : Lookup → ℕ
ttl failed = lookup_error_ttl
ttl _ = lookup_cache_ttl

-- `lookupCache.run`, after the resolver has answered at time `now`.
unfoldable pub run : LookupCache → ℕ → Bytes → Lookup → LookupCache
unfolding put remove ttl
run c now host result =
    let kept = if leb lookup_cache_max (length c.entries) then [] else c.entries in
    record c {
      entries = put host (record { result = result; expires = now + ttl result }) kept;
      inflight = remove host c.inflight;
    }

-- `lookupCache.reset`
unfoldable pub reset : LookupCache → LookupCache
reset c = record c { entries = []; inflight = [] }
