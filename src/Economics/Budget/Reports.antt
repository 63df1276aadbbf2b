-- ===== src/Economics/Budget/Reports.antt =====
-- glc/economics/budget.py: the receipts, `as_dict` and `envelope`. `round8` is `round(x, 8)`, and
-- `share` the rounded share of a limit that was spent.
use glc_v.Prelude.{ℕ, Bool, Option, none, some, List, map, ℕ-Eq, String-Eq, ×-Eq, List-Eq, Time}
use glc_v.Text.{Text}
use glc_v.Economics.Ledger.{Usd, Dimension, Dimension-Eq, Period}
use glc_v.Economics.Budget.{
  BudgetPolicy, BudgetStatus, BudgetController, Admission, PolicyKey, Source, key_of, remaining_usd,
  Overrides, Verdict, shortfall_usd, policies,
}

pub record PolicyReport : Type 0 where
  pub principal : PolicyKey
  pub limit_usd : Usd
  pub period : Period
  pub include_errors : Bool
  pub source : Source

-- `BudgetPolicy.as_dict`
unfoldable pub policy_report : BudgetPolicy → PolicyReport
policy_report p = record {
  principal = key_of p;
  limit_usd = p.limit_usd;
  period = p.period;
  include_errors = p.include_errors;
  source = p.source;
}

pub record StatusReport : Type 0 where
  pub principal : Dimension × Text
  pub limit_usd : Usd
  pub spent_usd : Usd
  pub remaining : Usd
  pub fraction_used : ℕ
  pub period : Period
  pub since : Time
  pub source : Source

pub record AdmissionReport : Type 0 where
  pub allowed : Bool
  pub enforced : Bool
  pub projected_usd : Usd
  pub reason : Verdict
  pub checked : List StatusReport
  pub warnings : List StatusReport
  pub breached : Option StatusReport

-- The 402 body.
pub record Envelope : Type 0 where
  pub message : Verdict
  pub breached : Option StatusReport
  pub projected_usd : Usd
  pub shortfall : Usd
  pub checked : List StatusReport

module _ (round8 : Usd → Usd) (share : Usd → Usd → ℕ) where
  -- `BudgetStatus.as_dict`
  unfoldable pub status_report : BudgetStatus → StatusReport
  status_report st = record {
    principal = (st.dimension, st.value);
    limit_usd = round8 st.limit_usd;
    spent_usd = round8 st.spent_usd;
    remaining = round8 (remaining_usd st);
    fraction_used = share st.spent_usd st.limit_usd;
    period = st.period;
    since = st.period_start;
    source = st.source;
  }

  abbrev breached_report : Option BudgetStatus → Option StatusReport
  breached_report none = none
  breached_report (some st) = some (status_report st)

  -- `Admission.as_dict`
  unfoldable pub admission_report : Admission → AdmissionReport
  unfolding status_report
  admission_report a = record {
    allowed = a.allowed;
    enforced = a.enforced;
    projected_usd = round8 a.projected_usd;
    reason = a.reason;
    checked = map status_report a.checked;
    warnings = map status_report a.warnings;
    breached = breached_report a.breached;
  }

  -- `Admission.envelope`
  unfoldable pub envelope : Admission → Envelope
  unfolding status_report shortfall_usd
  envelope a = record {
    message = a.reason;
    breached = breached_report a.breached;
    projected_usd = round8 a.projected_usd;
    shortfall = round8 (shortfall_usd a);
    checked = map status_report a.checked;
  }

  -- `describe`, the policies in force
  unfoldable pub describe : BudgetController → Overrides → List PolicyReport
  unfolding policies policy_report
  describe ctl table = map policy_report (policies ctl table)
