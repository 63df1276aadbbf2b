-- ===== src/Cache/Types.antt =====
-- The configuration, the rows and the counters of glc/cache/semantic.py, and what the cache asks of its host.
use glc_v.Prelude.{ℕ, Bool, Option, List, ℕ-Eq, String-Eq, ×-Eq, List-Eq, Time}
use glc_v.Prelude.Dict.{Dict}
use glc_v.Text.{Text}
use glc_v.Prelude.Floats.{Floats}

-- `SemanticCacheConfig`
pub record CacheConfig (N : Type 0) : Type 0 where
  pub enabled : Bool
  pub default_on : Bool
  pub threshold : N
  pub ttl_seconds : ℕ
  pub max_entries : ℕ
  pub namespace_fields : List Text
  pub max_temperature : N
  pub skip_when_tools : Bool
  pub skip_when_stream : Bool
  pub scope_dimensions : List Text

-- A row; `embedding` is none where its text is no list.
pub record CacheEntry (N J : Type 0) : Type 0 where
  pub id : ℕ
  pub created_at : Time
  pub last_hit_at : Option Time
  pub namespace : Text
  pub scope : Text
  pub query_text : Text
  pub embedding : Option (List N)
  pub response : J
  pub provider : Text
  pub model : Text
  pub input_tokens : ℕ
  pub output_tokens : ℕ
  pub usd : N
  pub hits : ℕ

pub record Counters (N : Type 0) : Type 0 where
  pub lookups : ℕ
  pub hits : ℕ
  pub misses : ℕ
  pub skipped : ℕ
  pub stores : ℕ
  pub embed_failures : ℕ
  pub tokens_saved : ℕ
  pub usd_saved : N
  pub best_similarity_missed : N

-- The two tables; `next_id` is the sequence of AUTOINCREMENT.
pub record CacheStore (N J : Type 0) : Type 0 where
  pub entries : List (CacheEntry N J)
  pub next_id : ℕ
  pub counters : Counters N

-- What the embedder does: there is none or it gives nothing, it raises, or it gives a vector.
pub data Embedded (N : Type 0) : Type 0 where
  no_vector failing : Embedded N
  vector : List N → Embedded N

pub data Skip : Type 0 where
  cache_disabled not_opted_in is_streaming has_tools too_warm no_embedding : Skip

-- `CacheLookup`: not consulted, no match with the best similarity, or a match with its similarity.
pub data CacheLookup (N J : Type 0) : Type 0 where
  skipped_for : Skip → CacheLookup N J
  miss : N → CacheLookup N J
  hit : CacheEntry N J → N → CacheLookup N J

-- `digest` is SHA-256 of the sorted JSON text of the fields, `scope_text` the sorted JSON text of the
-- dimensions.
pub record CacheHost (N J : Type 0) : Type 0 where
  pub floats : Floats N
  pub sqrt : N → N
  pub digest : Dict Text J → Text
  pub scope_text : Dict Text (Option Text) → Text

-- What the caller asks.
pub record Query (N J : Type 0) : Type 0 where
  pub query_text : Text
  pub request_fields : Dict Text (Option J)
  pub principal : Dict Text Text
  pub opt_in : Option Bool
  pub temperature : N
  pub has_tools : Bool
  pub stream : Bool
