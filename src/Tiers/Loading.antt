-- ===== src/Tiers/Loading.antt =====
-- What a file that loads has: declared tiers only, and each on one ladder.
use glc_v.Prelude.{
  ◌≡◌, refl, sym, ap, ◌∙◌, subst, inl, inr, true, false, Option, none, some, List, [], ◌∷◌, arith,
  if◌then◌else◌, Bool-cases, is_empty, All, All-map, ◌==◌, ℕ-Eq, String-Eq, ×-Eq, List-Eq, ◌>>=◌,
  ok-injective, bind-ok, ok,
}
use glc_v.Prelude.Dict.{Dict, lookup, insert, contains, lookup-insert, insert-All}
use glc_v.Text.{Text}
use glc_v.Tiers.Placing.{IsPlaced, place_all-IsPlaced}
use glc_v.Tiers.{
  RawTier, RawRole, Document, RoleSpec, RoutingPolicy, or_text, given, first_of, all_declared,
  default_ladder, add_ladders, place_all, build_tiers, tier_or_none, roles_fit, build_role,
  build_roles, or_all_tiers, ladder_from, load_policy,
}

module _ {ℓ} {V : Type ℓ} (tiers : Dict Text V) where
  -- The name is that of a tier.
  abbrev pub IsDeclared : Text → Type 0
  IsDeclared t = contains t tiers ≡ true

  all_declared-IsDeclared : (ts : List Text) → all_declared tiers ts ≡ true → All IsDeclared ts
  unfolding all_declared
  all_declared-IsDeclared [] h = tt
  all_declared-IsDeclared (t ∷ ts) h =
      (ground (arith, h), all_declared-IsDeclared ts (ground (arith, h)))

  abbrev pub RungsAreDeclared : Text × List Text → Type 0
  RungsAreDeclared e = All IsDeclared e.1

  add_ladders_step :
      (name : Text) (rungs : List Text) (ls out ladders : Dict Text (List Text))
      → add_ladders tiers out ((name, rungs) ∷ ls) ≡ ok ladders
      → (all_declared tiers rungs ≡ true)
        × ((name == default_ladder) ≡ false)
        × (add_ladders tiers (insert name rungs out) ls ≡ ok ladders)
  unfolding add_ladders
  add_ladders_step name rungs ls out ladders e = ground (arith, e)

  add_ladders_lem :
      (ls out ladders : Dict Text (List Text))
      → add_ladders tiers out ls ≡ ok ladders
      → All RungsAreDeclared out
      → All RungsAreDeclared ladders × (lookup default_ladder ladders ≡ lookup default_ladder out)
  unfolding add_ladders
  add_ladders_lem [] out ladders e h =
      subst (λ d. All RungsAreDeclared d × (lookup default_ladder d ≡ lookup default_ladder out))
        (ok-injective e) (h, refl)
  add_ladders_lem ((name, rungs) ∷ ls) out ladders e h =
      let (fits, other, step) = add_ladders_step name rungs ls out ladders e in
      let (declared, same) =
        add_ladders_lem ls (insert name rungs out) ladders step
          (insert-All RungsAreDeclared name rungs out h (all_declared-IsDeclared rungs fits)) in
      (
        declared,
        same
            ∙ lookup-insert name default_ladder rungs out
            ∙ ap (λ b. if b then some rungs else lookup default_ladder out) other,
      )

  abbrev pub GivenIsDeclared : Option Text → Type 0
  GivenIsDeclared none = Unit
  GivenIsDeclared (some t) = IsDeclared t

  pub record RoleIsDeclared (spec : RoleSpec) : Type 0 where
    pub default_declared : IsDeclared spec.default_tier
    pub min_declared : GivenIsDeclared (given spec.min_tier)
    pub max_declared : GivenIsDeclared (given spec.max_tier)

  or_text-IsDeclared :
      (o : Option Text) (bottom : Text)
      → tier_or_none tiers o ≡ true
      → IsDeclared bottom
      → IsDeclared (or_text o bottom)
  or_text-IsDeclared none bottom h low = low
  or_text-IsDeclared (some []) bottom h low = low
  or_text-IsDeclared (some (c ∷ cs)) bottom h low = h

  given_lem : (o : Option Text) → tier_or_none tiers o ≡ true → GivenIsDeclared (given o)
  given_lem none h = tt
  given_lem (some []) h = tt
  given_lem (some (c ∷ cs)) h = h

  first_of-IsDeclared :
      (ladder : List Text) (bottom : Text)
      → All IsDeclared ladder
      → first_of ladder ≡ ok bottom
      → IsDeclared bottom
  first_of-IsDeclared [] bottom low e = absurd (ground (arith, e))
  first_of-IsDeclared (t ∷ ts) bottom low e = subst IsDeclared (ok-injective e) low.0

  build_role-RoleIsDeclared :
      (bottom name : Text) (raw : RawRole)
      → IsDeclared bottom
      → roles_fit tiers raw ≡ true
      → RoleIsDeclared (build_role bottom name raw)
  build_role-RoleIsDeclared bottom name raw low fits = record {
    default_declared = or_text-IsDeclared raw.default_tier bottom (ground (arith, fits)) low;
    min_declared = given_lem raw.min_tier (ground (arith, fits));
    max_declared = given_lem raw.max_tier (ground (arith, fits));
  }

  -- The first role of a file that loads fits, and the others load.
  build_roles_step :
      (ladder : List Text) (name : Text) (raw : RawRole) (raws : Dict Text RawRole)
      (roles : Dict Text RoleSpec)
      → build_roles ladder tiers ((name, raw) ∷ raws) ≡ ok roles
      → (roles_fit tiers raw ≡ true)
        × ((first_of ladder >>= λ bottom. build_roles ladder tiers raws >>= λ rest.
              ok ((name, build_role bottom name raw) ∷ rest))
            ≡ ok roles)
  unfolding build_roles
  build_roles_step ladder name raw raws roles e = elim (Bool-cases (roles_fit tiers raw)) [
    | inl y ↦ (y, sym (rw (y, build_roles) refl) ∙ e)
    | inr n ↦ absurd (ground (arith, e, n))
  ]

  build_roles-RoleIsDeclared :
      (ladder : List Text) (raws : Dict Text RawRole) (roles : Dict Text RoleSpec)
      → All IsDeclared ladder
      → build_roles ladder tiers raws ≡ ok roles
      → All (λ e. RoleIsDeclared e.1) roles
  unfolding build_roles
  build_roles-RoleIsDeclared ladder [] roles low e =
      subst (All (λ r. RoleIsDeclared r.1)) (ok-injective e) tt
  build_roles-RoleIsDeclared ladder ((name, raw) ∷ raws) roles low e =
      let (fits, step) = build_roles_step ladder name raw raws roles e in
      let (bottom, lowest, more) = bind-ok (first_of ladder) _ roles step in
      let (rest, loaded, done) = bind-ok (build_roles ladder tiers raws) _ roles more in
      subst (All (λ r. RoleIsDeclared r.1)) (ok-injective done) (
        build_role-RoleIsDeclared bottom name raw (first_of-IsDeclared ladder bottom low lowest)
            fits,
        build_roles-RoleIsDeclared ladder raws rest low loaded,
      )

module _ {ℓ κ} {V : Type ℓ} {W : Type κ} (ts : Dict Text V) (us : Dict Text W)
    (over : (t : Text) → IsDeclared ts t → IsDeclared us t) where
  GivenIsDeclared-map : (o : Option Text) → GivenIsDeclared ts o → GivenIsDeclared us o
  GivenIsDeclared-map none h = tt
  GivenIsDeclared-map (some t) h = over t h

  RoleIsDeclared-map : (spec : RoleSpec) → RoleIsDeclared ts spec → RoleIsDeclared us spec
  RoleIsDeclared-map spec h = record {
    default_declared = over spec.default_tier h.default_declared;
    min_declared = GivenIsDeclared-map (given spec.min_tier) h.min_declared;
    max_declared = GivenIsDeclared-map (given spec.max_tier) h.max_declared;
  }

lookup_first :
    (ladder : List Text) → lookup default_ladder ((default_ladder, ladder) ∷ []) ≡ some ladder
unfolding lookup
lookup_first ladder = refl

module _ {N : Type 0} where
  build_tiers-contains :
      (placed : Dict Text Text) (raws : Dict Text (RawTier N)) (t : Text)
      → contains t (build_tiers placed raws) ≡ contains t raws
  unfolding build_tiers contains lookup
  build_tiers-contains placed [] t = refl
  build_tiers-contains placed ((name, raw) ∷ raws) t =
      ground (arith, build_tiers-contains placed raws t)

  -- What the constructor promises.
  pub record IsLoaded (p : RoutingPolicy N) : Type 0 where
    pub ladder_declared : All (IsDeclared p.tiers) p.ladder
    pub ladder_kept : lookup default_ladder p.ladders ≡ some p.ladder
    pub has_bottom : is_empty p.ladder ≡ false
    pub ladders_declared : All (RungsAreDeclared p.tiers) p.ladders
    pub ladders_placed : All (IsPlaced p.placed) p.ladders
    pub roles_declared : All (λ e. RoleIsDeclared p.tiers e.1) p.roles

  or_all_tiers_lem :
      (tiers : Dict Text (RawTier N)) (ladder : List Text)
      → is_empty tiers ≡ false
      → is_empty (or_all_tiers tiers ladder) ≡ false
  or_all_tiers_lem [] [] h = h
  or_all_tiers_lem (t ∷ ts) [] h = refl
  or_all_tiers_lem tiers (t ∷ ts) h = refl

  ladder_from_lem :
      (d : Document N) (ladder : List Text)
      → ladder_from d ≡ ok ladder
      → All (IsDeclared d.tiers) ladder × (is_empty ladder ≡ false)
  ladder_from_lem d ladder e =
      let rungs = or_all_tiers d.tiers d.ladder in
      let same : rungs ≡ ladder = ground (arith, e) in
      let declared : all_declared d.tiers rungs ≡ true = ground (arith, e) in
      let some_tier : is_empty d.tiers ≡ false = ground (arith, e) in
      subst (λ l. All (IsDeclared d.tiers) l × (is_empty l ≡ false)) same
        (
          all_declared-IsDeclared d.tiers rungs declared,
          or_all_tiers_lem d.tiers d.ladder some_tier,
        )

  -- A file that loads gives a policy whose ladders, roles, floors and ceilings name declared tiers only,
  -- and every tier of a ladder is placed on that ladder and on no other.
  pub load_policy-IsLoaded :
      (d : Document N) (p : RoutingPolicy N) → load_policy d ≡ ok p → IsLoaded p
  unfolding load_policy
  load_policy-IsLoaded d p e =
      let (ladder, h₁, e₁) = bind-ok (ladder_from d) _ p e in
      let first = (default_ladder, ladder) ∷ [] in
      let (ladders, h₂, e₂) = bind-ok (add_ladders d.tiers first d.ladders) _ p e₁ in
      let (placed, h₃, e₃) = bind-ok (place_all ladders []) _ p e₂ in
      let (roles, h₄, e₄) = bind-ok (build_roles ladder d.tiers d.roles) _ p e₃ in
      let (declared, some_rung) = ladder_from_lem d ladder h₁ in
      let (all, kept) = add_ladders_lem d.tiers d.ladders first ladders h₂ (declared, tt) in
      let built = build_tiers placed d.tiers in
      let over : (t : Text) → IsDeclared d.tiers t → IsDeclared built t =
        λ t h. build_tiers-contains placed d.tiers t ∙ h in
      subst IsLoaded (ok-injective e₄) (record {
        ladder_declared = All-map (IsDeclared d.tiers) (IsDeclared built) ladder over declared;
        ladder_kept = kept ∙ lookup_first ladder;
        has_bottom = some_rung;
        ladders_declared =
            All-map (RungsAreDeclared d.tiers) (RungsAreDeclared built) ladders
              (λ l. All-map (IsDeclared d.tiers) (IsDeclared built) l.1 over) all;
        ladders_placed = place_all-IsPlaced ladders [] placed h₃;
        roles_declared =
            All-map (λ r. RoleIsDeclared d.tiers r.1) (λ r. RoleIsDeclared built r.1) roles
              (λ r. RoleIsDeclared-map d.tiers built over r.1)
              (build_roles-RoleIsDeclared d.tiers ladder d.roles roles declared h₄);
      })
