-- ===== src/Economics/Budget/Tests.antt =====
-- Runs of the budget gate on a small ledger.
use glc_v.Prelude.Dict.{insert}
use glc_v.Prelude.{
  ◌≤◌, ◌<◌, ◌≡◌, refl, ◌≢◌, true, false, none, some, List, [], ◌∷◌, arith, length, All, ℕ-Eq,
  String-Eq, ×-Eq, List-Eq, Result, type_error, value_error, ok, raise, Time,
}
use glc_v.Prelude.Int.{ℤ, pos}
use glc_v.Prelude.Value.{Value, truthy, value_get, boolean, int, text, object, end, field}
use glc_v.Glob.{codes}
use glc_v.Economics.Ledger.{
  Principal, Row, Usd, Dimension-Eq, present, log_call, period_start, spend_usd, tenant, ok_status,
  day,
}
use glc_v.Economics.Budget.Decision.{admit}
use glc_v.Economics.Budget.{
  BudgetPolicy, BudgetStatus, Host, BudgetController, Admission, shortfall_usd, policies,
  policy_for, status, status_for, statuses, budgets_yaml, disabled,
}
use glc_v.Economics.Budget.Config.{policy_from_entry}
use glc_v.Economics.Budget.Gate.{HasRoom, IsTightest, admitted_within_limits, refused-IsTightest}
use glc_v.Economics.Budget.Runs.{Call, serve_all, spend_within_limit}

abbrev read_int : Value → Result ℤ
read_int (int n) = ok n
read_int (text s) = raise value_error
read_int _ = raise type_error

abbrev a_host : Host
a_host = record {
  usd = read_int;
  millionths = read_int;
  str_of = λ _. codes "?";
  month_start = λ t. t;
}

abbrev acme_policy : BudgetPolicy
acme_policy = record {
  dimension = tenant;
  pattern = codes "acme";
  limit_usd = 100;
  period = day;
  include_errors = true;
  source = budgets_yaml;
}

abbrev any_tenant : BudgetPolicy
any_tenant = record acme_policy { pattern = codes "*"; limit_usd = 10 }

abbrev a_controller : BudgetController
a_controller = record {
  defaults = object end;
  projection = object end;
  alerts = object (field "warn_at_fraction" (int (pos 500000)) end);
  file_policies = any_tenant ∷ acme_policy ∷ [];
  load_overrides = true;
}

abbrev from_acme : Principal
from_acme = record {
  tenant = some (codes "acme");
  project = none;
  user = some (codes "ann");
  agent = none;
  session = none;
}

abbrev a_row : Time → Usd → Row
a_row t usd = record { ts = t; status = ok_status; principal = from_acme; usd = usd }

abbrev decision : List Row → Usd → Result Admission
decision rows projected = admit a_host a_controller [] rows 1000 from_acme projected

abbrev status_now : List Row → BudgetStatus
status_now rows = status a_host rows 1000 acme_policy (codes "acme")

abbrev admission_of : Result Admission → Admission
admission_of (ok a) = a
admission_of (raise _) = record {
  allowed = false;
  projected_usd = 0;
  checked = [];
  breached = none;
  warnings = [];
  reason = disabled;
  enforced = false;
}

admits_all_that_fits : (admission_of (decision (a_row 900 60 ∷ []) 40)).allowed ≡ true
unfolding admit status value_get truthy present status_for policy_for insert spend_usd period_start
admits_all_that_fits = refl

refuses_more : (admission_of (decision (a_row 900 60 ∷ []) 41)).allowed ≡ false
unfolding admit status value_get truthy present status_for policy_for insert spend_usd period_start
refuses_more = refl

shortfall_is_one : shortfall_usd (admission_of (decision (a_row 900 60 ∷ []) 41)) ≡ 1
unfolding admit status shortfall_usd log_call value_get truthy present status_for policy_for insert
    spend_usd period_start
shortfall_is_one = refl

warns_at_half : length (admission_of (decision (a_row 900 60 ∷ []) 40)).warnings ≡ 1
unfolding admit status value_get truthy present status_for policy_for insert spend_usd period_start
warns_at_half = refl

-- Two calls that are both admitted before either is recorded overspend the limit together.
overlapping_calls_overspend :
    ((admission_of (decision [] 60)).allowed ≡ true)
    × (100
        < spend_usd
            (log_call (log_call [] (a_row 1000 60)) (a_row 1000 60))
            tenant
            (codes "acme")
            0
            true)
unfolding admit status log_call value_get truthy present status_for policy_for insert spend_usd
overlapping_calls_overspend = (refl, omega arith)

admitted_within_limits_example :
    All (HasRoom 40) (statuses a_host (a_row 900 60 ∷ []) 1000 (policies a_controller []) from_acme)
unfolding admit status value_get truthy present status_for policy_for insert spend_usd period_start
admitted_within_limits_example =
    admitted_within_limits a_host a_controller [] (a_row 900 60 ∷ []) 1000 from_acme 40
      (admission_of (decision (a_row 900 60 ∷ []) 40)) refl refl refl

governed : statuses a_host (a_row 900 60 ∷ []) 1000 (policies a_controller []) from_acme ≢ []
unfolding statuses policies status_for policy_for insert present
governed e = ground (arith, e)

refused-IsTightest_example :
    (b : BudgetStatus) × ((admission_of (decision (a_row 900 60 ∷ []) 41)).breached ≡ some b)
    × ((admission_of (decision (a_row 900 60 ∷ []) 41)).checked
        ≡ statuses a_host (a_row 900 60 ∷ []) 1000 (policies a_controller []) from_acme)
    × IsTightest 41
        (statuses a_host (a_row 900 60 ∷ []) 1000 (policies a_controller []) from_acme)
        b
unfolding admit status value_get truthy present status_for policy_for insert spend_usd period_start
refused-IsTightest_example =
    refused-IsTightest a_host a_controller [] (a_row 900 60 ∷ []) 1000 from_acme 41
      (admission_of (decision (a_row 900 60 ∷ []) 41)) refl refl refl governed

abbrev two_calls : List Call
two_calls =
    record { at = 1000; projected = 60; row = a_row 1001 50 }
    ∷ record { at = 1002; projected = 60; row = a_row 1003 60 }
    ∷ []

second_is_refused : length (serve_all a_host a_controller [] [] two_calls) ≡ 1
unfolding serve_all admit status log_call value_get truthy present status_for policy_for insert
    spend_usd period_start
second_is_refused = refl

acme_governs : policy_for (policies a_controller []) tenant (codes "acme") ≡ some acme_policy
unfolding policies policy_for insert
acme_governs = refl

spend_within_limit_example :
    spend_usd
      (serve_all a_host a_controller [] [] two_calls)
      tenant
      (codes "acme")
      (period_start a_host.month_start day 2000)
      true
    ≤ 100
unfolding value_get truthy spend_usd
spend_within_limit_example =
    spend_within_limit a_host (λ m n le. le) a_controller (boolean true) refl refl [] acme_policy
      b'a' (codes "cme") acme_governs [] 1000 2000 two_calls
      (omega arith, omega arith, omega arith, (omega arith, omega arith, omega arith, tt))
      (omega arith) (omega arith)

abbrev typo : Value
typo = object (field "principal" (text "tenant:acme") (field "limit_usd" (text "ten") end))

abbrev good : Value
good = object (field "principal" (text "tenant: acme ") (field "limit_usd" (int (pos 100)) end))

reads_good : policy_from_entry a_host good (object end) budgets_yaml ≡ ok acme_policy
unfolding policy_from_entry truthy value_get
reads_good = refl
