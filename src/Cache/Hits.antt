-- ===== src/Cache/Hits.antt =====
-- What a hit tells: the row that it serves.
use mathlib.Core.List.{Memᴰ}
use mathlib.Core.List.Memᴰ.{head, tail}
use glc_v.Prelude.{
  ◌+◌, ◌*◌, ◌≤◌, ◌≡◌, refl, sym, ap, ◌∙◌, subst, ◌⊎◌, inl, inr, true, false, Option, none, some,
  List, [], ◌∷◌, arith, leb→le, nat_eq_iff, Bool-cases, Option-cases, keep, All, All-zip, All-map,
  ◌==◌, ℕ-Eq, String-Eq, ×-Eq, list_eq_iff, List-Eq, keep-All, keep_passes, Time, second,
}
use glc_v.Text.{Text}
use glc_v.Cache.{
  CacheConfig, CacheEntry, CacheStore, CacheHost, Query, Embedded, CacheLookup, cosine,
  namespace_of, scope_of, should_consult, is_live, live_rows, scan, settle, search_rows, consult,
  look_up, no_vector, failing, vector, skipped_for, miss, hit,
}

every_item {ℓ} : {A : Type ℓ} (xs : List A) → All (λ x. Memᴰ x xs) xs
every_item [] = tt
every_item (x ∷ xs) =
    (head refl, All-map (λ y. Memᴰ y xs) (λ y. Memᴰ y (x ∷ xs)) xs (λ y m. tail m) (every_item xs))

module _ {N J : Type 0} (host : CacheHost N J) (config : CacheConfig N) where
  -- The row is one of the table, it has the namespace and the scope, it has not expired, and the
  -- similarity is that of its embedding and the vector.
  pub record IsMatch (ns sc : Text) (now : Time) (s : CacheStore N J) (vec : List N)
      (e : CacheEntry N J) (sim : N) : Type 0 where
    pub stored : Memᴰ e s.entries
    pub same_namespace : e.namespace ≡ ns
    pub same_scope : e.scope ≡ sc
    pub fresh : (config.ttl_seconds ≡ 0) ⊎ (now ≤ e.created_at + config.ttl_seconds * second)
    pub measured : (v : List N) × (e.embedding ≡ some v) × (cosine host config vec v ≡ sim)

  module _ (ns sc : Text) (now : Time) (s : CacheStore N J) (vec : List N) where
    abbrev IsBest : N × Option (CacheEntry N J) → Type 0
    IsBest (sim, none) = Unit
    IsBest (sim, some e) = IsMatch ns sc now s vec e sim

    abbrev IsCandidate : CacheEntry N J → Type 0
    IsCandidate e = Memᴰ e s.entries × (is_live host config ns sc now e ≡ true)

    live-fresh :
        (e : CacheEntry N J)
        → is_live host config ns sc now e ≡ true
        → (config.ttl_seconds ≡ 0) ⊎ (now ≤ e.created_at + config.ttl_seconds * second)
    live-fresh e h = elim (Bool-cases (config.ttl_seconds == 0)) [
      | inl y ↦ inl ((nat_eq_iff config.ttl_seconds 0).0 y)
      | inr n ↦ inr (leb→le now (e.created_at + config.ttl_seconds * second) (ground (arith, h, n)))
    ]

    matched :
        (e : CacheEntry N J) (v : List N)
        → IsCandidate e
        → e.embedding ≡ some v
        → IsMatch ns sc now s vec e (cosine host config vec v)
    matched e v (stored, live) has = record {
      stored = stored;
      same_namespace = (list_eq_iff e.namespace ns).0 (ground (arith, live));
      same_scope = (list_eq_iff e.scope sc).0 (ground (arith, live));
      fresh = live-fresh e live;
      measured = (v, has, refl);
    }

    scan-IsBest :
        (es : List (CacheEntry N J)) (sim : N) (best : Option (CacheEntry N J))
        → All IsCandidate es
        → IsBest (sim, best)
        → IsBest (scan host config vec es sim best)
    unfolding scan
    scan-IsBest [] sim best h b = b
    scan-IsBest (e ∷ es) sim best h b = elim (Option-cases e.embedding) [
      | inl none_here ↦ rw (none_here, scan) (scan-IsBest es sim best h.1 b)
      | inr (v, has) ↦ elim (Bool-cases (host.floats.less sim (cosine host config vec v))) [
        | inr n ↦ rw (has, scan) (rw n (scan-IsBest es sim best h.1 b))
        | inl y ↦
            rw (has, scan)
              (rw y (scan-IsBest es (cosine host config vec v) (some e) h.1 (matched e v h.0 has)))
      ]
    ]

    live-IsCandidate : All IsCandidate (live_rows host config ns sc now s)
    unfolding live_rows
    live-IsCandidate =
        let live = is_live host config ns sc now in
        All-zip (λ e. Memᴰ e s.entries) (λ e. live e ≡ true) (keep live s.entries)
          (keep-All (λ e. Memᴰ e s.entries) live s.entries (every_item s.entries))
          (keep_passes live s.entries)

    abbrev Justified : CacheLookup N J → Type 0
    Justified (hit e sim) =
        IsMatch ns sc now s vec e sim × (host.floats.less sim config.threshold ≡ false)
    Justified (miss sim) = Unit
    Justified (skipped_for why) = Unit

    settle-Justified :
        (t : CacheStore N J) (sim : N) (best : Option (CacheEntry N J))
        → IsBest (sim, best)
        → Justified (settle host config now t sim best).0
    settle-Justified t sim none b = tt
    settle-Justified t sim (some e) b = elim (Bool-cases (host.floats.less sim config.threshold)) [
      | inl y ↦ rw y tt
      | inr n ↦ rw n (b, n)
    ]

  module _ (q : Query N J) (now : Time) (s : CacheStore N J) (e : CacheEntry N J) (sim : N) where
    -- The embedder gave a vector, and the row matches it closely enough.
    abbrev pub IsJustified : Embedded N → Type 0
    IsJustified given =
        (vec : List N) × (given ≡ vector vec)
        × IsMatch (namespace_of host config q.request_fields) (scope_of host config q.principal) now
            s vec e sim
        × (host.floats.less sim config.threshold ≡ false)

    search-IsJustified :
        (vec : List N)
        → (search_rows host config q now (some vec) s).0 ≡ hit e sim
        → IsMatch
            (namespace_of host config q.request_fields)
            (scope_of host config q.principal)
            now
            s
            vec
            e
            sim
          × (host.floats.less sim config.threshold ≡ false)
    search-IsJustified vec h =
        let ns = namespace_of host config q.request_fields in
        let sc = scope_of host config q.principal in
        let start = host.floats.ratio 0 1 in
        let found = scan host config vec (live_rows host config ns sc now s) start none in
        let best =
          scan-IsBest ns sc now s vec (live_rows host config ns sc now s) start none
            (live-IsCandidate ns sc now s vec) tt in
        subst (Justified ns sc now s vec) h
          (settle-Justified ns sc now s vec s found.0 found.1 best)

    consult-IsJustified :
        (given : Embedded N)
        → (consult host config q given now s none).0 ≡ hit e sim
        → IsJustified given
    consult-IsJustified no_vector h = absurd (ground (arith, h))
    consult-IsJustified failing h = absurd (ground (arith, h))
    consult-IsJustified (vector []) h = absurd (ground (arith, h))
    consult-IsJustified (vector (x ∷ xs)) h =
        let (matches, close) = search-IsJustified (x ∷ xs) h in (x ∷ xs, refl, matches, close)

    -- An answer is served from the cache only for a request that may consult it and that was embedded,
    -- and it is one of the table's, stored in the namespace and the scope of the request, not expired,
    -- and at least as similar as the threshold asks.
    pub look_up-hit :
        (given : Embedded N)
        → (look_up host config q given now s).0 ≡ hit e sim
        → (should_consult host config q ≡ none) × IsJustified given
    unfolding look_up
    look_up-hit given h = elim (Option-cases (should_consult host config q)) [
      | inl y ↦ (
        y,
        consult-IsJustified given (ap (λ o. (consult host config q given now s o).0) (sym y) ∙ h),
      )
      | inr (why, n) ↦ absurd (ground (arith, h, n))
    ]
