-- ===== src/Economics/Budget/Gate.antt =====
-- The verdicts of the gate, on every branch of `admit`.
use glc_v.Prelude.Value.{value_get, boolean, text}
use glc_v.Prelude.{
  ◌+◌, ◌≤◌, ◌≡◌, refl, sym, ◌∙◌, ◌≢◌, ◌⊎◌, inl, inr, true, false, none, some, List, [], ◌∷◌, arith,
  ltb, Bool-cases, Option-cases, All, ℕ-Eq, String-Eq, ×-Eq, List-Eq, Result-cases, ok, Time,
}
use glc_v.Prelude.Int.{ℤ}
use glc_v.Economics.Ledger.{Principal, Row, Usd, Dimension-Eq}
use glc_v.Economics.Budget.Decision.{
  Review, no_findings, over, tighter, weigh, review, warn_at_fraction, conclude, gate, admit,
}
use glc_v.Economics.Budget.{
  BudgetStatus, Host, BudgetController, Admission, remaining_usd, Overrides, policies, statuses,
}

-- There is room under the status's limit for the projected cost.
abbrev pub HasRoom : Usd → BudgetStatus → Type 0
HasRoom projected st = st.spent_usd + projected ≤ st.limit_usd

-- The breach that is reported: the projected cost would take some status over its limit, and none
-- of those leaves less than the one reported.
abbrev pub IsTightest : Usd → List BudgetStatus → BudgetStatus → Type 0
IsTightest projected sts b =
    (over projected b ≡ true)
    × All (λ st. over projected st ≡ true → remaining_usd b ≤ remaining_usd st) sts

module _ (warn_at : ℤ) (projected : Usd) where
  weigh-room :
      (r : Review) (st : BudgetStatus)
      → over projected st ≡ false
      → (weigh warn_at projected r st).breached ≡ r.breached
  unfolding weigh
  weigh-room r st x = ground arith

  weigh-breach :
      (r : Review) (st : BudgetStatus)
      → over projected st ≡ true
      → (weigh warn_at projected r st).breached ≡ some (tighter r.breached st)
  unfolding weigh
  weigh-breach r st x = rw x refl

  tighter_least :
      (b st : BudgetStatus)
      → over projected b ≡ true
      → over projected st ≡ true
      → (over projected (tighter (some b) st) ≡ true)
        × (remaining_usd (tighter (some b) st) ≤ remaining_usd b)
        × (remaining_usd (tighter (some b) st) ≤ remaining_usd st)
  unfolding tighter
  tighter_least b st x y = elim (Bool-cases (ltb (remaining_usd st) (remaining_usd b))) [
    | inl z ↦ rw z (y, ground arith, omega arith)
    | inr z ↦ rw z (x, omega arith, ground arith)
  ]

  review-breached :
      (r : Review) (sts : List BudgetStatus) (b : BudgetStatus)
      → r.breached ≡ some b
      → over projected b ≡ true
      → (c : BudgetStatus) × ((review warn_at projected r sts).breached ≡ some c)
        × IsTightest projected sts c
        × (remaining_usd c ≤ remaining_usd b)
  unfolding review
  review-breached r [] b e x = (b, e, (x, tt), omega arith)
  review-breached r (st ∷ sts) b e x = elim (Bool-cases (over projected st)) [
    | inl y ↦
        let (x₁, le_b, le_st) = tighter_least b st x y in
        let (c, e', (x', all), le) =
          review-breached (weigh warn_at projected r st) sts (tighter (some b) st)
            (rw (weigh-breach r st y, e) refl) x₁ in
        (c, e', (x', (λ _. omega (arith, le, le_st), all)), omega (arith, le, le_b))
    | inr y ↦
        let (c, e', (x', all), le) =
          review-breached (weigh warn_at projected r st) sts b (weigh-room r st y ∙ e) x in
        (c, e', (x', (ground arith, all)), le)
  ]

  review-room :
      (r : Review) (sts : List BudgetStatus)
      → r.breached ≡ none
      → (All (HasRoom projected) sts × ((review warn_at projected r sts).breached ≡ none))
        ⊎ ((c : BudgetStatus) × ((review warn_at projected r sts).breached ≡ some c)
            × IsTightest projected sts c)
  unfolding review
  review-room r [] e = inl (tt, e)
  review-room r (st ∷ sts) e = elim (Bool-cases (over projected st)) [
    | inl y ↦
        let (c, e', (x', all), le) =
          review-breached (weigh warn_at projected r st) sts st
            (rw (weigh-breach r st y, e, tighter) refl) y in
        inr (c, e', (x', (λ _. le, all)))
    | inr y ↦ elim (review-room (weigh warn_at projected r st) sts (weigh-room r st y ∙ e)) [
      | inl (all, e') ↦ inl ((ground arith, all), e')
      | inr (c, e', (x, all)) ↦ inr (c, e', (x, (ground arith, all)))
    ]
  ]

-- Either every status has room for the projected cost and the call is allowed, or it is refused and
-- the tightest breach is reported.
abbrev pub IsVerdict : Usd → List BudgetStatus → Admission → Type 0
IsVerdict projected sts a =
    (a.checked ≡ sts)
    × ((All (HasRoom projected) sts × (a.allowed ≡ true) × (a.breached ≡ none))
        ⊎ ((b : BudgetStatus) × (a.allowed ≡ false)
            × (a.breached ≡ some b)
            × IsTightest projected sts b))

conclude-IsVerdict :
    (projected : Usd) (sts : List BudgetStatus) (r : Review)
    → (All (HasRoom projected) sts × (r.breached ≡ none))
      ⊎ ((b : BudgetStatus) × (r.breached ≡ some b) × IsTightest projected sts b)
    → IsVerdict projected sts (conclude projected sts r)
conclude-IsVerdict projected sts r (inl (all, e)) = rw e (refl, inl (all, refl, refl))
conclude-IsVerdict projected sts r (inr (b, e, tight)) = rw e (refl, inr (b, refl, refl, tight))

gate-IsVerdict :
    (host : Host) (ctl : BudgetController) (st : BudgetStatus) (sts : List BudgetStatus)
    (projected : Usd) (a : Admission)
    → gate host ctl (st ∷ sts) projected ≡ ok a
    → IsVerdict projected (st ∷ sts) a
unfolding gate
gate-IsVerdict host ctl st sts projected a e =
    elim (Result-cases (warn_at_fraction host ctl.alerts)) [
      | inr (x, q) ↦ absurd (ground arith)
      | inl (w, q) ↦
          let same : conclude projected (st ∷ sts) (review w projected no_findings (st ∷ sts)) ≡ a =
            ground arith in
          rw (sym same) (
            conclude-IsVerdict projected (st ∷ sts) (review w projected no_findings (st ∷ sts))
              (review-room w projected no_findings (st ∷ sts) refl))
    ]

pub gate-enforced :
    (host : Host) (ctl : BudgetController) (sts : List BudgetStatus) (projected : Usd)
    (a : Admission)
    → gate host ctl sts projected ≡ ok a
    → a.enforced ≡ true
unfolding gate
gate-enforced host ctl [] projected a e =
    elim (Result-cases (value_get ctl.defaults (text "allow") "unmatched")) [
      | inr (x, q) ↦ absurd (ground arith)
      | inl (v, q) ↦ ground arith
    ]
gate-enforced host ctl (st ∷ sts) projected a e =
    elim (Result-cases (warn_at_fraction host ctl.alerts)) [
      | inr (x, q) ↦ absurd (ground arith)
      | inl (w, q) ↦ elim (Option-cases ((review w projected no_findings (st ∷ sts)).breached)) [
        | inl n ↦ ground arith
        | inr (b, f) ↦ ground arith
      ]
    ]

module _ (host : Host) (ctl : BudgetController) (table : Overrides) (rows : List Row) (now : Time)
    (principal : Principal) (projected : Usd) (a : Admission) where
  -- An enforced admission that returns has looked at every status of the principal.
  enforced_gate :
      admit host ctl table rows now principal projected ≡ ok a
      → a.enforced ≡ true
      → gate host ctl (statuses host rows now (policies ctl table) principal) projected ≡ ok a
  unfolding admit
  enforced_gate e enforced = elim (Result-cases (value_get ctl.defaults (boolean true) "enabled")) [
    | inr (x, q) ↦ absurd (ground arith)
    | inl (v, q) ↦ ground arith
  ]

  -- Where `admit` returns an enforced admission that allows the call, every status that governs
  -- the principal has room for the projected cost.
  pub admitted_within_limits :
      admit host ctl table rows now principal projected ≡ ok a
      → a.enforced ≡ true
      → a.allowed ≡ true
      → All (HasRoom projected) (statuses host rows now (policies ctl table) principal)
  admitted_within_limits e enforced allowed =
      go (statuses host rows now (policies ctl table) principal) (enforced_gate e enforced)
    where
      go :
          (sts : List BudgetStatus)
          → gate host ctl sts projected ≡ ok a
          → All (HasRoom projected) sts
      go [] g = tt
      go (st ∷ sts) g = elim ((gate-IsVerdict host ctl st sts projected a g).1) [
        | inl (all, _, _) ↦ all
        | inr (b, refused, _, _) ↦ absurd (ground arith)
      ]

  -- Where `admit` refuses a principal that some policy governs, the admission lists every status of
  -- the principal and names one that the projected cost would take over its limit; and of those it
  -- is one with the least left.
  pub refused-IsTightest :
      admit host ctl table rows now principal projected ≡ ok a
      → a.enforced ≡ true
      → a.allowed ≡ false
      → statuses host rows now (policies ctl table) principal ≢ []
      → (b : BudgetStatus) × (a.breached ≡ some b)
        × (a.checked ≡ statuses host rows now (policies ctl table) principal)
        × IsTightest projected (statuses host rows now (policies ctl table) principal) b
  refused-IsTightest e enforced refused governed =
      go (statuses host rows now (policies ctl table) principal) governed (enforced_gate e enforced)
    where
      go :
          (sts : List BudgetStatus)
          → sts ≢ []
          → gate host ctl sts projected ≡ ok a
          → (b : BudgetStatus) × (a.breached ≡ some b)
            × (a.checked ≡ sts)
            × IsTightest projected sts b
      go [] some_st g = absurd (some_st refl)
      go (st ∷ sts) some_st g =
          let (listed, which) = gate-IsVerdict host ctl st sts projected a g in
          elim which [
            | inl (all, allowed, _) ↦ absurd (ground arith)
            | inr (b, _, found, tight) ↦ (b, found, listed, tight)
          ]
