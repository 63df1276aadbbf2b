-- ===== src/Economics/Budget/Decision.antt =====
-- glc/economics/budget.py: the admission gate, which holds a projected cost against every status.
use glc_v.Prelude.{
  ◌+◌, min, Bool, true, false, Option, none, some, List, [], ◌∷◌, ◌++◌, ltb, if◌then◌else◌, ◌==◌,
  ℕ-Eq, String-Eq, ×-Eq, List-Eq, Result, ◌>>=◌, attribute_error, ok, raise, Time,
}
use glc_v.Prelude.Int.{ℤ, pos}
use glc_v.Prelude.Value.{Value, get_field, truthy, value_get, boolean, text, object}
use glc_v.Glob.{codes}
use glc_v.Text.{Text}
use glc_v.Economics.Ledger.{Principal, Row, Usd, Dimension-Eq}
use glc_v.Economics.Budget.{
  BudgetStatus, Host, BudgetController, Admission, remaining_usd, warns, Overrides, Verdict,
  policies, statuses, disabled, unmatched_allowed, unmatched_denied, within_budget, over_budget,
}

-- What the gate's loop keeps: the tightest breach so far and the warnings.
pub record Review : Type 0 where
  pub breached : Option BudgetStatus
  pub warnings : List BudgetStatus

abbrev pub no_findings : Review
no_findings = record { breached = none; warnings = [] }

abbrev pub over : Usd → BudgetStatus → Bool
over projected st = ltb st.limit_usd (st.spent_usd + projected)

-- `if breached is None or st.remaining_usd < breached.remaining_usd: breached = st`
unfoldable pub tighter : Option BudgetStatus → BudgetStatus → BudgetStatus
tighter none st = st
tighter (some b) st = if ltb (remaining_usd st) (remaining_usd b) then st else b

-- One round of the gate's loop.
unfoldable pub weigh : ℤ → Usd → Review → BudgetStatus → Review
unfolding tighter warns
weigh warn_at projected r st =
    if over projected st
    then record r { breached = some (tighter r.breached st) }
    else if warns warn_at st
    then record r { warnings = r.warnings ++ st ∷ [] }
    else r

unfoldable pub review : ℤ → Usd → Review → List BudgetStatus → Review
unfolding weigh
review warn_at projected r [] = r
review warn_at projected r (st ∷ sts) = review warn_at projected (weigh warn_at projected r st) sts

-- `float(self.alerts.get("warn_at_fraction", 1.1))`
unfoldable pub warn_at_fraction : Host → Value → Result ℤ
warn_at_fraction host (object fs) = elim (get_field "warn_at_fraction" fs) [
  | none ↦ ok (pos 1100000)
  | some v ↦ host.millionths v
]
warn_at_fraction host _ = raise attribute_error

abbrev pub text_of : Host → Value → Text
text_of host (text s) = codes s
text_of host v = host.str_of v

-- The last part of `admit`, from the review of the statuses.
abbrev pub conclude : Usd → List BudgetStatus → Review → Admission
conclude projected sts r = elim r.breached [
  | some b ↦ record {
    allowed = false;
    projected_usd = projected;
    checked = sts;
    breached = some b;
    warnings = r.warnings;
    reason = over_budget;
    enforced = true;
  }
  | none ↦ record {
    allowed = true;
    projected_usd = projected;
    checked = sts;
    breached = none;
    warnings = r.warnings;
    reason = within_budget;
    enforced = true;
  }
]

abbrev bare : Bool → Bool → Verdict → Usd → Admission
bare allowed enforced reason projected = record {
  allowed = allowed;
  projected_usd = projected;
  checked = [];
  breached = none;
  warnings = [];
  reason = reason;
  enforced = enforced;
}

abbrev answer_unmatched : Text → Usd → Admission
answer_unmatched unmatched projected =
    if unmatched == codes "allow"
    then bare true true unmatched_allowed projected
    else bare false true unmatched_denied projected

unfoldable pub gate : Host → BudgetController → List BudgetStatus → Usd → Result Admission
unfolding review warn_at_fraction
gate host ctl [] projected = do
  unmatched ← value_get ctl.defaults (text "allow") "unmatched"
  ok (answer_unmatched (text_of host unmatched) projected)
gate host ctl (st ∷ sts) projected = do
  warn_at ← warn_at_fraction host ctl.alerts
  ok (conclude projected (st ∷ sts) (review warn_at projected no_findings (st ∷ sts)))

unfoldable pub admit :
    Host → BudgetController → Overrides → List Row → Time → Principal → Usd → Result Admission
unfolding gate statuses policies
admit host ctl table rows now principal projected = do
  enabled ← value_get ctl.defaults (boolean true) "enabled"
  (if truthy enabled
      then gate host ctl (statuses host rows now (policies ctl table) principal) projected
      else ok (bare true false disabled projected))

-- `affordable_usd`
unfoldable pub least_remaining : List BudgetStatus → Option Usd
least_remaining [] = none
least_remaining (st ∷ sts) = elim (least_remaining sts) [
  | none ↦ some (remaining_usd st)
  | some r ↦ some (min (remaining_usd st) r)
]
