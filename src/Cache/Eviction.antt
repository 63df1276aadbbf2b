-- ===== src/Cache/Eviction.antt =====
-- How many rows the cache holds.
use glc_v.Prelude.{
  drop, ℕ, zero, suc, ◌≤◌, ◌≡◌, refl, ◌∙◌, ◌≢◌, inl, inr, Bool, true, false, not, Option, none,
  some, List, [], ◌∷◌, ◌++◌, arith, ltb, nat_eq_iff, Bool-cases, length, keep, any, All, All-map,
  any-item, ◌==◌, ==-refl, ℕ-Eq, String-Eq, ×-Eq, List-Eq, Time,
}
use glc_v.Cache.{
  CacheConfig, CacheEntry, CacheStore, CacheHost, Embedded, embed, no_vector, failing, vector,
}
use glc_v.Cache.Table.{
  Storing, place_by_age, newest_first, has_id_of, evict, new_entry, add_entry, add_embedded,
  store_answer,
}

module _ {N J : Type 0} where
  count_placed :
      (q : CacheEntry N J → Bool) (e : CacheEntry N J) (es : List (CacheEntry N J))
      → length (keep q (place_by_age e es)) ≡ length (keep q (e ∷ es))
  unfolding place_by_age
  count_placed q e [] = refl
  count_placed q e (x ∷ xs) = elim (Bool-cases (ltb e.created_at x.created_at)) [
    | inl y ↦ rw y (ground (arith, count_placed q e xs))
    | inr n ↦ rw n refl
  ]

  count_sorted :
      (q : CacheEntry N J → Bool) (es : List (CacheEntry N J))
      → length (keep q (newest_first es)) ≡ length (keep q es)
  unfolding newest_first
  count_sorted q [] = refl
  count_sorted q (e ∷ es) = count_placed q e (newest_first es) ∙ ground (arith, count_sorted q es)

  -- Of a list, at most `n` items are not among those behind the first `n`.
  count_kept :
      (n : ℕ) (q : CacheEntry N J → Bool) (es : List (CacheEntry N J))
      → All (λ e. q e ≡ false) (drop n es)
      → length (keep q es) ≤ n
  count_kept zero q [] h = omega arith
  count_kept zero q (e ∷ es) h = ground (arith, h.0, count_kept zero q es h.1)
  count_kept (suc n) q [] h = omega arith
  count_kept (suc n) q (e ∷ es) h = ground (arith, count_kept n q es h)

  own_ids : (es : List (CacheEntry N J)) → All (λ e. not (has_id_of es e) ≡ false) es
  own_ids es =
      All-map (λ e. (p : CacheEntry N J → Bool) → p e ≡ true → any p es ≡ true)
        (λ e. not (has_id_of es e) ≡ false) es
        (λ e found. ground (arith, found (λ o. o.id == e.id) (==-refl e.id))) (any-item es)

  evict_bound : (most : ℕ) (es : List (CacheEntry N J)) → most ≢ 0 → length (evict most es) ≤ most
  unfolding evict
  evict_bound most es some_room =
      let old = drop most (newest_first es) in
      let q : CacheEntry N J → Bool = λ e. not (has_id_of old e) in
      let kept = count_kept most q (newest_first es) (own_ids old) in
      let same = count_sorted q es in ground (arith, some_room, kept, same, nat_eq_iff most 0)

module _ {N J : Type 0} (host : CacheHost N J) (config : CacheConfig N)
    (limited : config.max_entries ≢ 0) (a : Storing N J) (now : Time) where
  abbrev HasRoom : CacheStore N J → Type 0
  HasRoom s = length s.entries ≤ config.max_entries

  add_entry-HasRoom :
      (vec : Option (List N)) (s : CacheStore N J)
      → HasRoom s
      → HasRoom (add_entry host config a now vec s).1
  add_entry-HasRoom none s h = h
  add_entry-HasRoom (some vec) s h =
      evict_bound config.max_entries (s.entries ++ new_entry host config a vec now s.next_id ∷ [])
        limited

  embed-HasRoom :
      (given : Embedded N) (s : CacheStore N J) → HasRoom s → HasRoom (embed host config given s).1
  embed-HasRoom no_vector s h = h
  embed-HasRoom (vector []) s h = h
  embed-HasRoom (vector (x ∷ xs)) s h = h
  embed-HasRoom failing s h = h

  add_embedded-HasRoom :
      (given : Embedded N) (own : Option (List N)) (s : CacheStore N J)
      → HasRoom s
      → HasRoom (add_embedded host config a given now own s).1
  add_embedded-HasRoom given (some vec) s h = add_entry-HasRoom (some vec) s h
  add_embedded-HasRoom given none s h =
      let (vec, t) = embed host config given s in add_entry-HasRoom vec t (embed-HasRoom given s h)

  -- Storing an answer leaves no more rows than the configured number, if there is one and there were no
  -- more before, whether the embedder gives a vector, fails or is not asked.
  pub store_answer-bound :
      (given : Embedded N) (s : CacheStore N J)
      → length s.entries ≤ config.max_entries
      → length (store_answer host config a given now s).1.entries ≤ config.max_entries
  unfolding store_answer
  store_answer-bound given s h = elim (Bool-cases config.enabled) [
    | inl y ↦ rw y (add_embedded-HasRoom given a.embedding s h)
    | inr n ↦ rw n h
  ]
