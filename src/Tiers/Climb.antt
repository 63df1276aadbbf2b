-- ===== src/Tiers/Climb.antt =====
-- One rung up and one rung down.
use glc_v.Tiers.Placing.{IsPlaced}
use glc_v.Prelude.{
  ℕ, zero, suc, ◌+◌, ◌<◌, ◌≡◌, refl, sym, ap, ◌∙◌, ◌≢◌, inl, inr, some, List, [], ◌∷◌, arith, ltb,
  ltb→lt, Bool-cases, Option-cases, length, All, All-map, get_elem?, get_elem?-All, ℕ-Eq, String-Eq,
  ×-Eq, list_eq_iff, List-Eq, ok, Distinct,
}
use glc_v.Prelude.Dict.{lookup, lookup-All}
use glc_v.Text.{Text}
use glc_v.Tiers.{Document, RoutingPolicy, default_ladder, load_policy}
use glc_v.Tiers.Ladder.{index_of, ladder_name, rungs_of, ladder_of, rank, next_tier, prev_tier}
use glc_v.Tiers.Loading.{IsLoaded, load_policy-IsLoaded}

get_elem?-index_of :
    (t : Text) (xs : List Text) (i : ℕ) → index_of t xs ≡ some i → get_elem? xs i ≡ some t
unfolding index_of
get_elem?-index_of t [] i h = absurd (ground (arith, h))
get_elem?-index_of t (x ∷ xs) zero h = ground (arith, h, list_eq_iff x t)
get_elem?-index_of t (x ∷ xs) (suc i) h =
    ground (arith, h, list_eq_iff x t, get_elem?-index_of t xs i)

index_of-Distinct :
    (t : Text) (xs : List Text) (i : ℕ)
    → Distinct xs
    → get_elem? xs i ≡ some t
    → index_of t xs ≡ some i
unfolding index_of
index_of-Distinct t [] i d h = absurd (ground (arith, h))
index_of-Distinct t (x ∷ xs) zero d h = ground (arith, h, list_eq_iff x t)
index_of-Distinct t (x ∷ xs) (suc i) d h = ground (
  arith,
  list_eq_iff x t,
  index_of-Distinct t xs i d.1 h,
  get_elem?-All (λ y. x ≢ y) xs i t d.0 h,
)

module _ {N : Type 0} (p : RoutingPolicy N) (loaded : IsLoaded p) where
  placed_on :
      (name : Text) (rungs : List Text)
      → lookup name p.ladders ≡ some rungs
      → All (λ u. ladder_of p u ≡ rungs) rungs
  unfolding ladder_of ladder_name rungs_of
  placed_on name rungs e =
      All-map (λ u. lookup u p.placed ≡ some name) (λ u. ladder_of p u ≡ rungs) rungs
        (λ u placed. rw (placed, ladder_of, ladder_name) (rw (e, rungs_of) refl))
        (lookup-All (IsPlaced p.placed) name rungs p.ladders loaded.ladders_placed e)

  -- All rungs of a ladder stand on this ladder.
  rungs_of-All : (name : Text) → All (λ u. ladder_of p u ≡ rungs_of p name) (rungs_of p name)
  unfolding rungs_of
  rungs_of-All name = elim (Option-cases (lookup name p.ladders)) [
    | inl e ↦ rw (e, rungs_of) (placed_on default_ladder p.ladder loaded.ladder_kept)
    | inr (rungs, e) ↦ rw (e, rungs_of) (placed_on name rungs e)
  ]

  same_ladder :
      (t u : Text) (i : ℕ) → get_elem? (ladder_of p t) i ≡ some u → ladder_of p u ≡ ladder_of p t
  unfolding ladder_of
  same_ladder t u i e =
      get_elem?-All (λ v. ladder_of p v ≡ ladder_of p t) (ladder_of p t) i u
        (rungs_of-All (ladder_name p t)) e

  rank_at : (u : Text) (i : ℕ) → index_of u (ladder_of p u) ≡ some i → rank p u ≡ i
  unfolding rank
  rank_at u i e = rw (e, rank) refl

  rank-index :
      (t : Text) → rank p t < length (ladder_of p t) → get_elem? (ladder_of p t) (rank p t) ≡ some t
  unfolding rank
  rank-index t h = elim (Option-cases (index_of t (ladder_of p t))) [
    | inl e ↦
        let top : rank p t ≡ length (ladder_of p t) = rw (e, rank) refl in
        absurd (omega (arith, h, top))
    | inr (i, e) ↦ rw (rank_at t i e) (get_elem?-index_of t (ladder_of p t) i e)
  ]

  pub next_tier_above :
      (t u : Text)
      → next_tier p t ≡ some u
      → (rank p t + 1 < length (ladder_of p t))
        × (get_elem? (ladder_of p t) (rank p t + 1) ≡ some u)
  unfolding next_tier
  next_tier_above t u e = elim (Bool-cases (ltb (rank p t + 1) (length (ladder_of p t)))) [
    | inl y ↦ (ltb→lt (rank p t + 1) (length (ladder_of p t)) y, sym (rw (y, next_tier) refl) ∙ e)
    | inr n ↦ absurd (ground (arith, e, n))
  ]

  prev_tier_at :
      (u t : Text) (i : ℕ)
      → rank p u ≡ i + 1
      → i + 1 < length (ladder_of p u)
      → get_elem? (ladder_of p u) i ≡ some t
      → prev_tier p u ≡ some t
  unfolding prev_tier
  prev_tier_at u t i e h found = ground (arith, e, h, found)

  next_tier_step :
      (t u : Text)
      → Distinct (ladder_of p t)
      → next_tier p t ≡ some u
      → (ladder_of p u ≡ ladder_of p t) × (rank p u ≡ rank p t + 1) × (prev_tier p u ≡ some t)
  next_tier_step t u d e =
      let (h, found) = next_tier_above t u e in
      let same = same_ladder t u (rank p t + 1) found in
      let up : rank p u ≡ rank p t + 1 =
        rank_at u (rank p t + 1)
          (ap (index_of u) same ∙ index_of-Distinct u (ladder_of p t) (rank p t + 1) d found) in
      (
        same,
        up,
        prev_tier_at u t (rank p t) up (rw same h)
            (ap (λ l. get_elem? l (rank p t)) same ∙ rank-index t (omega (arith, h))),
      )

-- In a loaded policy, from a ladder that names no tier twice: the next tier stands one rung higher on
-- the same ladder, and the tier before it is the one that it was reached from.
pub next_tier-prev_tier :
    {N : Type 0} (file : Document N) (p : RoutingPolicy N) (t u : Text)
    → load_policy file ≡ ok p
    → Distinct (ladder_of p t)
    → next_tier p t ≡ some u
    → (ladder_of p u ≡ ladder_of p t) × (rank p u ≡ rank p t + 1) × (prev_tier p u ≡ some t)
next_tier-prev_tier file p t u h d e = next_tier_step p (load_policy-IsLoaded file p h) t u d e
