-- ===== src/Cache.antt =====
-- glc/cache/semantic.py: the semantic cache, a table of answers with the embeddings of their prompts.
-- Floating-point numbers, which hold no NaN, the digest of the matched fields, the text of the scope and
-- the embedder are the host's.
mod Tests
pub mod Types
pub mod Table
pub mod Hits
pub mod Eviction
use glc_v.Prelude.{
  ℕ, ◌+◌, ◌*◌, Bool, not, ◌&&◌, ◌||◌, Option, none, some, List, [], ◌∷◌, map, leb, if◌then◌else◌,
  length, is_empty, keep, ◌==◌, ℕ-Eq, String-Eq, ×-Eq, List-Eq, Time, second,
}
use glc_v.Prelude.Dict.{Dict, lookup, insert}
use glc_v.Text.{Text}
pub use glc_v.Cache.Types.{
  CacheConfig, CacheEntry, Counters, CacheStore, Embedded, Skip, CacheLookup, CacheHost, Query,
  no_vector, failing, vector, cache_disabled, not_opted_in, is_streaming, has_tools, too_warm,
  no_embedding, skipped_for, miss, hit,
}
use glc_v.Prelude.Floats.{Floats}

module _ {N J : Type 0} (host : CacheHost N J) (config : CacheConfig N) where
  abbrev f : Floats N
  f = host.floats

  abbrev zero_float : N
  zero_float = f.ratio 0 1

  -- The sums of `cosine`: the product, and the squares of both.
  unfoldable pub dot_products : List N → List N → N × N × N → N × N × N
  dot_products (x ∷ xs) (y ∷ ys) (dot, na, nb) =
      dot_products xs ys (f.add dot (f.mul x y), f.add na (f.mul x x), f.add nb (f.mul y y))
  dot_products _ _ sums = sums

  abbrev ratio_of : N × N × N → N
  ratio_of (dot, na, nb) =
      if not (f.less zero_float na) || not (f.less zero_float nb)
      then zero_float
      else f.div dot (f.mul (host.sqrt na) (host.sqrt nb))

  unfoldable pub cosine : List N → List N → N
  unfolding dot_products
  cosine a b =
      if is_empty a || is_empty b || not (length a == length b)
      then zero_float
      else ratio_of (dot_products a b (zero_float, zero_float, zero_float))

  -- The matched fields that are not None.
  unfoldable pub payload : Dict Text (Option J) → List Text → Dict Text J
  unfolding lookup insert
  payload fields [] = []
  payload fields (k ∷ ks) =
      let rest = payload fields ks in
      elim (lookup k fields) [
        | none ↦ rest
        | some v ↦ elim v [ none ↦ rest | some j ↦ insert k j rest ]
      ]

  unfoldable pub namespace_of : Dict Text (Option J) → Text
  unfolding payload
  namespace_of fields = host.digest (payload fields config.namespace_fields)

  -- `scope`
  unfoldable pub scope_of : Dict Text Text → Text
  unfolding lookup
  scope_of principal =
      if is_empty config.scope_dimensions
      then []
      else host.scope_text (map (λ d. (d, lookup d principal)) config.scope_dimensions)

  abbrev opted_in : Option Bool → Bool
  opted_in none = config.default_on
  opted_in (some b) = b

  -- `should_consult`, none where the cache is consulted
  unfoldable pub should_consult : Query N J → Option Skip
  should_consult q =
      if not config.enabled
      then some cache_disabled
      else if not (opted_in q.opt_in)
      then some not_opted_in
      else if config.skip_when_stream && q.stream
      then some is_streaming
      else if config.skip_when_tools && q.has_tools
      then some has_tools
      else if f.less config.max_temperature q.temperature
      then some too_warm
      else none

  -- `created_at >= now - ttl_seconds`, if there is a ttl
  abbrev pub is_fresh : Time → CacheEntry N J → Bool
  is_fresh now e = config.ttl_seconds == 0 || leb now (e.created_at + config.ttl_seconds * second)

  -- The row is in the namespace and the scope, and has not expired.
  abbrev pub is_live : Text → Text → Time → CacheEntry N J → Bool
  is_live ns sc now e = e.namespace == ns && e.scope == sc && is_fresh now e

  unfoldable pub live_rows : Text → Text → Time → CacheStore N J → List (CacheEntry N J)
  live_rows ns sc now s = keep (is_live ns sc now) s.entries

  -- The loop over the rows: the best similarity, and its row.
  unfoldable pub scan :
      List N → List (CacheEntry N J) → N → Option (CacheEntry N J) → N × Option (CacheEntry N J)
  unfolding cosine
  scan vec [] sim best = (sim, best)
  scan vec (e ∷ es) sim best = elim e.embedding [
    | none ↦ scan vec es sim best
    | some stored ↦
        let better = scan vec es (cosine vec stored) (some e) in
        let same = scan vec es sim best in if f.less sim (cosine vec stored) then better else same
  ]

  abbrev count_skip : CacheStore N J → CacheStore N J
  count_skip s = record s { counters = record s.counters { skipped = s.counters.skipped + 1 } }

  -- The UPDATE of the row that was hit.
  unfoldable pub mark_hit : ℕ → Time → List (CacheEntry N J) → List (CacheEntry N J)
  mark_hit id now [] = []
  mark_hit id now (e ∷ es) =
      let rest = mark_hit id now es in
      if e.id == id then record e { hits = e.hits + 1; last_hit_at = some now } ∷ rest else e ∷ rest

  abbrev max_float : N → N → N
  max_float a b = if f.less a b then b else a

  abbrev pub count_hit : Time → CacheEntry N J → CacheStore N J → CacheStore N J
  count_hit now e s =
      let c = s.counters in
      record s {
        entries = mark_hit e.id now s.entries;
        counters = record c {
          lookups = c.lookups + 1;
          hits = c.hits + 1;
          tokens_saved = c.tokens_saved + (e.input_tokens + e.output_tokens);
          usd_saved = f.add c.usd_saved e.usd;
        };
      }

  abbrev pub count_miss : N → CacheStore N J → CacheStore N J
  count_miss sim s =
      let c = s.counters in
      record s {
        counters = record c {
          lookups = c.lookups + 1;
          misses = c.misses + 1;
          best_similarity_missed =
              (if f.is_zero sim
                then c.best_similarity_missed
                else max_float c.best_similarity_missed sim);
        };
      }

  -- What the best row comes to.
  abbrev pub settle :
      Time → CacheStore N J → N → Option (CacheEntry N J) → CacheLookup N J × CacheStore N J
  settle now s sim none = (miss sim, count_miss sim s)
  settle now s sim (some e) =
      if f.less sim config.threshold
      then (miss sim, count_miss sim s)
      else (hit e sim, count_hit now e s)

  -- `embed`, which counts a failure
  abbrev pub embed : Embedded N → CacheStore N J → Option (List N) × CacheStore N J
  embed no_vector s = (none, s)
  embed (vector []) s = (none, s)
  embed (vector (x ∷ xs)) s = (some (x ∷ xs), s)
  embed failing s = (
    none,
    record s { counters = record s.counters { embed_failures = s.counters.embed_failures + 1 } },
  )

  abbrev pub search_rows :
      Query N J → Time → Option (List N) → CacheStore N J → CacheLookup N J × CacheStore N J
  search_rows q now none s = (skipped_for no_embedding, count_skip s)
  search_rows q now (some vec) s =
      let found =
        scan vec (live_rows (namespace_of q.request_fields) (scope_of q.principal) now s) zero_float
          none in
      settle now s found.0 found.1

  abbrev pub consult :
      Query N J
      → Embedded N
      → Time
      → CacheStore N J
      → Option Skip
      → CacheLookup N J × CacheStore N J
  consult q given now s (some why) = (skipped_for why, count_skip s)
  consult q given now s none = let (vec, t) = embed given s in search_rows q now vec t

  -- `lookup`
  unfoldable pub look_up :
      Query N J → Embedded N → Time → CacheStore N J → CacheLookup N J × CacheStore N J
  unfolding should_consult live_rows scan namespace_of scope_of mark_hit
  look_up q given now s = consult q given now s (should_consult q)
