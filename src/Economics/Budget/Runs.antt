-- ===== src/Economics/Budget/Runs.antt =====
-- The ledger over a sequence of calls, each admitted and then recorded before the next: the budget
-- step of the candidate ring in glc/routes/chat.py with `Meter.record`. Calls that overlap are not
-- such a sequence.
use glc_v.Prelude.Value.{Value, truthy, value_get, boolean}
use glc_v.Economics.Ledger.Laws.{
  spend_usd-log_call, spend_usd-antitone, period_start_mono, is_charged-part,
}
use glc_v.Economics.Budget.Gate.{HasRoom, gate-enforced, admitted_within_limits}
use glc_v.Prelude.{
  ℕ, ◌+◌, ◌≤◌, ◌≡◌, inl, inr, Bool, true, some, List, [], ◌∷◌, arith, if◌then◌else◌, Bool-cases,
  ℕ-Eq, String-Eq, ×-Eq, List-Eq, Result-cases, ok, raise, Time,
}
use glc_v.Text.{Text}
use glc_v.Economics.Budget.Governed.{statuses_of-has, present-has}
use glc_v.Economics.Ledger.{
  Row, Usd, Dimension-Eq, part, present, log_call, period_start, is_charged, spend_usd,
}
use glc_v.Economics.Budget.Decision.{admit}
use glc_v.Economics.Budget.{
  BudgetPolicy, Host, BudgetController, Admission, Overrides, policies, policy_for, status,
  statuses,
}

-- One call: when it asks for admission, and the row that its provider's answer leads to.
pub record Call : Type 0 where
  pub at : Time
  pub projected : Usd
  pub row : Row

-- A call that is refused (or whose admission raises) leaves no row here.
unfoldable pub serve : Host → BudgetController → Overrides → List Row → Call → List Row
serve host ctl table rows c = elim (admit host ctl table rows c.at c.row.principal c.projected) [
  | raise e ↦ rows
  | ok a ↦ if a.allowed then log_call rows c.row else rows
]

unfoldable pub serve_all : Host → BudgetController → Overrides → List Row → List Call → List Row
unfolding serve
serve_all host ctl table rows [] = rows
serve_all host ctl table rows (c ∷ cs) = serve_all host ctl table (serve host ctl table rows c) cs

-- Calls one after the other, each costing at most what was projected.
abbrev pub IsSequence : Time → List Call → Type 0
IsSequence now [] = Unit
IsSequence now (c ∷ cs) =
    (now ≤ c.at) × (c.at ≤ c.row.ts) × (c.row.usd ≤ c.projected) × IsSequence c.row.ts cs

abbrev pub end_of : Time → List Call → Time
end_of now [] = now
end_of now (c ∷ cs) = end_of c.row.ts cs

module _ (host : Host) (months : (m n : Time) → m ≤ n → host.month_start m ≤ host.month_start n)
    (ctl : BudgetController) (enabled : Value)
    (is_set : value_get ctl.defaults (boolean true) "enabled" ≡ ok enabled)
    (is_on : truthy enabled ≡ true) (table : Overrides) (p : BudgetPolicy) (c : ℕ) (cs : Text)
    (governs : policy_for (policies ctl table) p.dimension (c ∷ cs) ≡ some p) where
  spent : List Row → Time → Usd
  spent rows t =
      spend_usd rows p.dimension (c ∷ cs) (period_start host.month_start p.period t)
        p.include_errors

  spent-antitone : (rows : List Row) (m n : Time) → m ≤ n → spent rows n ≤ spent rows m
  unfolding spent
  spent-antitone rows m n le =
      spend_usd-antitone rows p.dimension (c ∷ cs) (period_start host.month_start p.period m)
        (period_start host.month_start p.period n) p.include_errors
        (period_start_mono host.month_start months p.period m n le)

  admit-enforced :
      (rows : List Row) (call : Call) (a : Admission)
      → admit host ctl table rows call.at call.row.principal call.projected ≡ ok a
      → a.enforced ≡ true
  unfolding admit
  admit-enforced rows call a e =
      gate-enforced host ctl (statuses host rows call.at (policies ctl table) call.row.principal)
        call.projected a (ground (arith, is_set, is_on, e))

  -- An admitted call that is charged to the policy's part fits under its limit.
  charged_fits :
      (rows : List Row) (call : Call) (a : Admission)
      → admit host ctl table rows call.at call.row.principal call.projected ≡ ok a
      → a.allowed ≡ true
      → part call.row.principal p.dimension ≡ some (c ∷ cs)
      → spent rows call.at + call.projected ≤ p.limit_usd
  unfolding spent status
  charged_fits rows call a e allowed has =
      statuses_of-has host rows call.at (policies ctl table) (HasRoom call.projected)
        (present call.row.principal) p.dimension (c ∷ cs) p
        (present-has call.row.principal p.dimension c cs has) governs
        (unfold statuses in
          admitted_within_limits host ctl table rows call.at call.row.principal call.projected a e
            (admit-enforced rows call a e) allowed)

  charged : Call → Bool
  charged call =
      is_charged p.dimension (c ∷ cs) (period_start host.month_start p.period call.row.ts)
        p.include_errors call.row

  spent-log_call :
      (rows : List Row) (call : Call)
      → spent (log_call rows call.row) call.row.ts
        ≡ spent rows call.row.ts + (if charged call then call.row.usd else 0)
  unfolding spent charged
  spent-log_call rows call =
      spend_usd-log_call rows call.row p.dimension (c ∷ cs)
        (period_start host.month_start p.period call.row.ts) p.include_errors

  charged-part :
      (call : Call) → charged call ≡ true → part call.row.principal p.dimension ≡ some (c ∷ cs)
  unfolding charged
  charged-part call x =
      is_charged-part p.dimension (c ∷ cs) (period_start host.month_start p.period call.row.ts)
        p.include_errors call.row x

  log-within :
      (rows : List Row) (call : Call) (a : Admission)
      → call.at ≤ call.row.ts
      → call.row.usd ≤ call.projected
      → spent rows call.at ≤ p.limit_usd
      → admit host ctl table rows call.at call.row.principal call.projected ≡ ok a
      → a.allowed ≡ true
      → spent (log_call rows call.row) call.row.ts ≤ p.limit_usd
  log-within rows call a le cost before e allowed = elim (Bool-cases (charged call)) [
    | inl x ↦
        let fits = charged_fits rows call a e allowed (charged-part call x) in
        rw (spent-log_call rows call, x)
          (omega (arith, spent-antitone rows call.at call.row.ts le, fits))
    | inr x ↦
        rw (spent-log_call rows call, x)
          (omega (arith, spent-antitone rows call.at call.row.ts le, before))
  ]

  serve-within :
      (rows : List Row) (call : Call)
      → call.at ≤ call.row.ts
      → call.row.usd ≤ call.projected
      → spent rows call.at ≤ p.limit_usd
      → spent (serve host ctl table rows call) call.row.ts ≤ p.limit_usd
  unfolding serve
  serve-within rows call le cost before =
      let later = spent-antitone rows call.at call.row.ts le in
      elim (Result-cases (admit host ctl table rows call.at call.row.principal call.projected)) [
        | inr (x, e) ↦ rw (e, serve) (omega (arith, later, before))
        | inl (a, e) ↦ elim (Bool-cases a.allowed) [
          | inl y ↦ rw (e, serve, y) (log-within rows call a le cost before e y)
          | inr y ↦ rw (e, serve, y) (omega (arith, later, before))
        ]
      ]

  serve_all-within :
      (rows : List Row) (now : Time) (calls : List Call)
      → IsSequence now calls
      → spent rows now ≤ p.limit_usd
      → spent (serve_all host ctl table rows calls) (end_of now calls) ≤ p.limit_usd
  unfolding serve_all
  serve_all-within rows now [] s before = before
  serve_all-within rows now (call ∷ calls) (start, le, cost, s) before =
      serve_all-within (serve host ctl table rows call) call.row.ts calls s (
        serve-within rows call le cost
          (omega (arith, spent-antitone rows now call.at start, before)))

  -- For a policy that governs a principal's part, with enforcement on and months that do not run
  -- backwards: if calls are admitted and recorded one after the other, each costs at most what was
  -- projected, and the part was within the policy's limit before them, then it is within the limit
  -- at any time after the last of them, whatever the other policies, parts and limits are.
  pub spend_within_limit :
      (rows : List Row) (now later : Time) (calls : List Call)
      → IsSequence now calls
      → end_of now calls ≤ later
      → spend_usd rows p.dimension
          (c ∷ cs)
          (period_start host.month_start p.period now)
          p.include_errors
        ≤ p.limit_usd
      → spend_usd
          (serve_all host ctl table rows calls)
          p.dimension
          (c ∷ cs)
          (period_start host.month_start p.period later)
          p.include_errors
        ≤ p.limit_usd
  unfolding spent
  spend_within_limit rows now later calls s after before =
      let after_last = serve_all-within rows now calls s before in
      omega (
        arith,
        after_last,
        spent-antitone (serve_all host ctl table rows calls) (end_of now calls) later after,
      )
