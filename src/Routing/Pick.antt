-- ===== src/Routing/Pick.antt =====
-- glc/routing/core.py: the failover ring chooses the first candidate that can be used.
use mathlib.Core.Path.{subst}
use glc_v.Prelude.{
  ℕ, ◌≤◌, String, ◌≡◌, refl, sym, ap, ◌∙◌, subst, ◌⊎◌, inl, inr, Option, none, some, List, [], ◌∷◌,
  ◌++◌, map, arith, ltb, Bool-cases, Option-cases, ℕ-Eq, String-Eq, ×-Eq, List-Eq, Exn, Result,
  ◌>>=◌, ok-injective, Result-cases, ok, raise, Time,
}
use glc_v.Prelude.Dict.{Dict, lookup}
use glc_v.Routing.Rings.{
  first_missing, state_or_new, Tried, Picked, passed_over, ring, usable, try_known, try_candidate,
  pick,
}
use glc_v.Routing.{Limits, RateState, Provider, Refusal, can_use}

-- The chosen name stands in the candidates right behind those that were passed over, in order; if
-- there is none, all were passed over.
abbrev pub IsFirst : List String → Option String × List (String × Refusal) → Type 0
IsFirst names (none, attempts) = names ≡ map (λ a. a.0) attempts
IsFirst names (some name, attempts) =
    (rest : List String) × (names ≡ map (λ a. a.0) attempts ++ name ∷ rest)

passed-IsFirst :
    (name : String) (why : Refusal) (names : List String) (rest : Picked)
    → IsFirst names rest.0
    → IsFirst (name ∷ names) (passed_over name why rest).0
passed-IsFirst name why names ((none, attempts), states) h = ap (λ ns. name ∷ ns) h
passed-IsFirst name why names ((some chosen, attempts), states) (rest, e) =
    (rest, ap (λ ns. name ∷ ns) e)

module _ (try : String → Dict String RateState → Result Tried) where
  ring-stop :
      (name : String) (names : List String) (states : Dict String RateState) (t : Tried)
      → try name states ≡ ok t
      → t.0 ≡ none
      → ring try (name ∷ names) states ≡ ok ((some name, []), t.1)
  unfolding ring
  ring-stop name names states t e f = rw (e, f) refl

  ring-pass :
      (name : String) (names : List String) (states : Dict String RateState) (t : Tried)
      (why : Refusal)
      → try name states ≡ ok t
      → t.0 ≡ some why
      → ring try (name ∷ names) states
        ≡ (ring try names t.1 >>= λ rest. ok (passed_over name why rest))
  unfolding ring
  ring-pass name names states t why e f = rw (e, f) refl

  ring-raise :
      (name : String) (names : List String) (states : Dict String RateState) (x : Exn)
      → try name states ≡ raise x
      → ring try (name ∷ names) states ≡ raise x
  unfolding ring
  ring-raise name names states x e = rw e refl

  -- The chosen candidate could be used, in the state that the ring had come to.
  abbrev IsUsable : Option String → Type 0
  IsUsable none = Unit
  IsUsable (some name) =
      (states : Dict String RateState) × (t : Tried) × (try name states ≡ ok t) × (t.0 ≡ none)

  abbrev pub IsPicked : List String → Picked → Type 0
  IsPicked names p = IsFirst names p.0 × IsUsable p.0.0

  ring-nil : (states : Dict String RateState) → ring try [] states ≡ ok ((none, []), states)
  unfolding ring
  ring-nil states = refl

  passed-IsPicked :
      (name : String) (why : Refusal) (names : List String) (rest : Picked)
      → IsPicked names rest
      → IsPicked (name ∷ names) (passed_over name why rest)
  passed-IsPicked name why names rest (first, usable) =
      (passed-IsFirst name why names rest first, same_choice rest usable)
    where
      same_choice : (rest : Picked) → IsUsable rest.0.0 → IsUsable (passed_over name why rest).0.0
      same_choice ((chosen, attempts), states) u = u

  ring-IsPicked :
      (names : List String) (states : Dict String RateState) (p : Picked)
      → ring try names states ≡ ok p
      → IsPicked names p
  ring-IsPicked [] states p e =
      subst (IsPicked []) (ok-injective (sym (ring-nil states) ∙ e)) (refl, tt)
  ring-IsPicked (name ∷ names) states p e = elim (Result-cases (try name states)) [
    | inr (x, r) ↦ absurd (ground (arith, e, ring-raise name names states x r))
    | inl (t, r) ↦ elim (Option-cases t.0) [
      | inl f ↦
          subst (IsPicked (name ∷ names))
            (ok-injective (sym (ring-stop name names states t r f) ∙ e))
            ((names, refl), (states, t, r, f))
      | inr (why, f) ↦
          passed t why r f (λ rest q. ring-IsPicked names t.1 rest q)
            (Result-cases (ring try names t.1))
    ]
  ]
    where
      passed :
          (t : Tried) (why : Refusal)
          → try name states ≡ ok t
          → t.0 ≡ some why
          → ((rest : Picked) → ring try names t.1 ≡ ok rest → IsPicked names rest)
          → ((rest : Picked) × (ring try names t.1 ≡ ok rest))
            ⊎ ((x : Exn) × (ring try names t.1 ≡ raise x))
          → IsPicked (name ∷ names) p
      passed t why r f ih (inr (x, q)) =
          absurd (ground (arith, e, q, ring-pass name names states t why r f))
      passed t why r f ih (inl (rest, q)) =
          let same : ok (passed_over name why rest) ≡ ok p =
            rw (sym e, ring-pass name names states t why r f, q) refl in
          subst (IsPicked (name ∷ names)) (ok-injective same)
            (passed-IsPicked name why names rest (ih rest q))

module _ (table : Dict String Limits) (providers : Dict String Provider) (est : ℕ)
    (required : List String) (now : Time) where
  -- The chosen provider is known, has every required capability and room for the prompt, and
  -- `can_use` allowed it.
  abbrev pub IsSuitable : Option String → Type 0
  IsSuitable none = Unit
  IsSuitable (some name) =
      (l : Limits) × (q : Provider) × (st : RateState) × (lookup name table ≡ some l)
      × (lookup name providers ≡ some q)
      × (first_missing required q.capabilities ≡ none)
      × (est ≤ l.max_ctx)
      × ((can_use l est now st).0 ≡ none)

  known-IsSuitable :
      (name : String) (l : Limits) (q : Provider) (states : Dict String RateState)
      → lookup name table ≡ some l
      → lookup name providers ≡ some q
      → (try_known table providers est required now name l q states).0 ≡ none
      → IsSuitable (some name)
  known-IsSuitable name l q states a b e =
      elim (Option-cases (first_missing required q.capabilities)) [
        | inr (c, m) ↦ absurd (ground (arith, e, m))
        | inl m ↦ elim (Bool-cases (ltb l.max_ctx est)) [
          | inl long ↦ absurd (ground (arith, e, m, long))
          | inr fits ↦ (
            l,
            q,
            state_or_new (lookup name states) now,
            a,
            b,
            m,
            ground arith,
            ground (arith, e, m, fits),
          )
        ]
      ]

  usable-IsSuitable :
      (chosen : Option String)
      → IsUsable (try_candidate table providers est required now) chosen
      → IsSuitable chosen
  unfolding try_candidate
  usable-IsSuitable none u = tt
  usable-IsSuitable (some name) (states, t, e, f) = elim (Option-cases (lookup name table)) [
    | inl a ↦ absurd (ground (arith, e, a))
    | inr (l, a) ↦ elim (Option-cases (lookup name providers)) [
      | inl b ↦ absurd (ground (arith, e, a, b))
      | inr (q, b) ↦
          let known : try_candidate table providers est required now name states
              ≡ ok (try_known table providers est required now name l q states) =
            rw (a, try_candidate) (rw b refl) in
          known-IsSuitable name l q states a b
            (ap (λ tried. tried.0) (ok-injective (sym known ∙ e)) ∙ f)
    ]
  ]

  -- Where `pick` returns, the attempts are the candidates that it passed over, in order, up to the
  -- chosen one, or all of them if it chose none; and the chosen one has limits and a provider, every
  -- required capability, room for the prompt, and passed `can_use`.
  pub pick-IsSuitable :
      (names : List String) (states : Dict String RateState) (p : Picked)
      → pick table providers est required now names states ≡ ok p
      → IsFirst names p.0 × IsSuitable p.0.0
  unfolding pick
  pick-IsSuitable names states p e =
      let (first, usable) =
        ring-IsPicked (try_candidate table providers est required now) names states p e in
      (first, usable-IsSuitable p.0.0 usable)
