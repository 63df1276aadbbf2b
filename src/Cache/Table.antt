-- ===== src/Cache/Table.antt =====
-- glc/cache/semantic.py: what `store` and `purge` do to the table. Rows of the same time stay in the order
-- of the table when they are sorted.
use glc_v.Prelude.{
  take, drop, ℕ, ◌+◌, ◌*◌, Bool, not, Option, none, some, List, [], ◌∷◌, ◌++◌, ltb, if◌then◌else◌,
  length, keep, any, ◌==◌, ℕ-Eq, String-Eq, ×-Eq, List-Eq, Time, second,
}
use glc_v.Prelude.Dict.{Dict}
use glc_v.Text.{Text}
use glc_v.Cache.{
  CacheConfig, CacheEntry, CacheStore, CacheHost, Embedded, namespace_of, scope_of, embed,
}

-- What an answer is stored with.
pub record Storing (N J : Type 0) : Type 0 where
  pub query_text : Text
  pub request_fields : Dict Text (Option J)
  pub principal : Dict Text Text
  pub response : J
  pub provider : Text
  pub model : Text
  pub input_tokens : ℕ
  pub output_tokens : ℕ
  pub usd : N
  pub embedding : Option (List N)

module _ {N J : Type 0} where
  -- `ORDER BY created_at DESC`
  unfoldable pub place_by_age : CacheEntry N J → List (CacheEntry N J) → List (CacheEntry N J)
  place_by_age e [] = e ∷ []
  place_by_age e (x ∷ xs) =
      let rest = place_by_age e xs in if ltb e.created_at x.created_at then x ∷ rest else e ∷ x ∷ xs

  unfoldable pub newest_first : List (CacheEntry N J) → List (CacheEntry N J)
  unfolding place_by_age
  newest_first [] = []
  newest_first (e ∷ es) = place_by_age e (newest_first es)

  -- `WHERE id IN (...)`
  abbrev pub has_id_of : List (CacheEntry N J) → CacheEntry N J → Bool
  has_id_of old e = any (λ o. o.id == e.id) old

  -- The DELETE behind an insertion: rows over the limit go, the oldest first.
  unfoldable pub evict : ℕ → List (CacheEntry N J) → List (CacheEntry N J)
  unfolding newest_first
  evict most es =
      if most == 0 then es else keep (λ e. not (has_id_of (drop most (newest_first es)) e)) es

module _ {N J : Type 0} (host : CacheHost N J) (config : CacheConfig N) where
  abbrev pub new_entry : Storing N J → List N → Time → ℕ → CacheEntry N J
  new_entry a vec now id = record {
    id = id;
    created_at = now;
    last_hit_at = none;
    namespace = namespace_of host config a.request_fields;
    scope = scope_of host config a.principal;
    query_text = take 8000 a.query_text;
    embedding = some vec;
    response = a.response;
    provider = a.provider;
    model = a.model;
    input_tokens = a.input_tokens;
    output_tokens = a.output_tokens;
    usd = a.usd;
    hits = 0;
  }

  abbrev pub add_entry :
      Storing N J → Time → Option (List N) → CacheStore N J → Option ℕ × CacheStore N J
  add_entry a now none s = (none, s)
  add_entry a now (some vec) s = (
    some s.next_id,
    record s {
      entries = evict config.max_entries (s.entries ++ new_entry a vec now s.next_id ∷ []);
      next_id = s.next_id + 1;
      counters = record s.counters { stores = s.counters.stores + 1 };
    },
  )

  -- The vector that the caller brings, else that of the embedder.
  abbrev pub add_embedded :
      Storing N J → Embedded N → Time → Option (List N) → CacheStore N J → Option ℕ × CacheStore N J
  add_embedded a given now (some vec) s = add_entry a now (some vec) s
  add_embedded a given now none s =
      let (vec, t) = embed host config given s in add_entry a now vec t

  -- `store`
  unfoldable pub store_answer :
      Storing N J → Embedded N → Time → CacheStore N J → Option ℕ × CacheStore N J
  unfolding evict namespace_of scope_of
  store_answer a given now s =
      if config.enabled then add_embedded a given now a.embedding s else (none, s)

  -- `purge`, with the number of rows that it deletes
  unfoldable pub purge : Bool → Time → CacheStore N J → ℕ × CacheStore N J
  purge expired_only now s =
      let expired : CacheEntry N J → Bool =
        λ e. ltb (e.created_at + config.ttl_seconds * second) now in
      if not expired_only
      then (length s.entries, record s { entries = [] })
      else if config.ttl_seconds == 0
      then (0, s)
      else (
        length (keep expired s.entries),
        record s { entries = keep (λ e. not (expired e)) s.entries },
      )
