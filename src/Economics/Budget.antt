-- ===== src/Economics/Budget.antt =====
-- glc/economics/budget.py: policies, their resolution and their statuses. A principal string `<dimension>:<pattern>` is the pair
-- that it is built from.
pub mod Decision
pub mod Config
pub mod Estimate
pub mod Reports
pub mod Gate
pub mod Resolution
pub mod Governed
pub mod Runs
mod Tests
use glc_v.Prelude.{
  ℕ, ◌+◌, ◌-◌, ◌*◌, min, Bool, true, false, ◌&&◌, ◌||◌, Option, none, some, List, [], ◌∷◌, ◌++◌,
  map, ltb, leb, if◌then◌else◌, length, keep, any, ◌==◌, ℕ-Eq, String-Eq, ×-Eq, List-Eq, Result,
  ◌>>=◌, ◌>>◌, attribute_error, ok, raise, Time,
}
use glc_v.Prelude.Int.{ℤ, pos_part, pos}
use glc_v.Prelude.Dict.{Dict, insert}
use glc_v.Prelude.Value.{Value, get_field, truthy, value_get, boolean, text, object}
use glc_v.Glob.{codes, translate, match_tokens}
use glc_v.Text.{Text}
use glc_v.Economics.Ledger.{
  Principal, Row, Usd, Dimension, dimension_eq, Dimension-Eq, present, Period, period_start,
  spend_usd,
}

abbrev pub PolicyKey : Type 0
PolicyKey = Dimension × Text

pub data Source : Type 0 where
  budgets_yaml runtime : Source

pub record BudgetPolicy : Type 0 where
  pub dimension : Dimension
  pub pattern : Text
  pub limit_usd : Usd
  pub period : Period
  pub include_errors : Bool
  pub source : Source

abbrev pub key_of : BudgetPolicy → PolicyKey
key_of p = (p.dimension, p.pattern)

abbrev is_wildcard : ℕ → Bool
is_wildcard c = c == b'*' || c == b'?' || c == b'['

unfoldable pub is_glob : BudgetPolicy → Bool
is_glob p = any is_wildcard p.pattern

-- `BudgetPolicy.matches`
unfoldable pub matches : BudgetPolicy → Dimension → Text → Bool
unfolding dimension_eq translate match_tokens
matches p d value = dimension_eq d p.dimension && match_tokens (translate 0 p.pattern) value

pub record BudgetStatus : Type 0 where
  pub dimension : Dimension
  pub value : Text
  pub limit_usd : Usd
  pub spent_usd : Usd
  pub period : Period
  pub period_start : Time
  pub source : Source

-- `max(0.0, limit - spent)`
abbrev pub remaining_usd : BudgetStatus → Usd
remaining_usd st = st.limit_usd - st.spent_usd

-- `fraction_used >= warn_at`, where `warn_at` is in millionths and `fraction_used` is the spent
-- share of the limit, at most one, and one if the limit is zero
unfoldable pub warns : ℤ → BudgetStatus → Bool
warns warn_at st =
    leb (pos_part warn_at) 1000000
    && (leb st.limit_usd 0 || leb (pos_part warn_at * st.limit_usd) (st.spent_usd * 1000000))

-- What the controller takes from outside: `float(v)` of a configured amount in money units, and of a
-- configured fraction in millionths (each with what `float` raises), `str(v)` of a value that is no
-- text, and the first instant of the calendar month of a clock reading.
pub record Host : Type 0 where
  pub usd : Value → Result ℤ
  pub millionths : Value → Result ℤ
  pub str_of : Value → Text
  pub month_start : Time → Time

pub record BudgetController : Type 0 where
  pub defaults : Value
  pub projection : Value
  pub alerts : Value
  pub file_policies : List BudgetPolicy
  pub load_overrides : Bool

-- The runtime table `budget_limits`, by its primary key.
abbrev pub Overrides : Type 0
Overrides = Dict PolicyKey BudgetPolicy

pub data Verdict : Type 0 where
  disabled unmatched_allowed unmatched_denied within_budget over_budget : Verdict

pub record Admission : Type 0 where
  pub allowed : Bool
  pub projected_usd : Usd
  pub checked : List BudgetStatus
  pub breached : Option BudgetStatus
  pub warnings : List BudgetStatus
  pub reason : Verdict
  pub enforced : Bool

unfoldable pub shortfall_usd : Admission → Usd
shortfall_usd a = elim a.breached [ none ↦ 0 | some b ↦ a.projected_usd - remaining_usd b ]

-- `{p.principal: p for p in policies}`: the last policy of a key wins, in the first one's place
unfoldable pub by_key :
    Dict PolicyKey BudgetPolicy → List BudgetPolicy → Dict PolicyKey BudgetPolicy
by_key merged [] = merged
by_key merged (p ∷ ps) = by_key (insert (key_of p) p merged) ps

-- `policies()`
unfoldable pub policies : BudgetController → Overrides → List BudgetPolicy
unfolding by_key
policies ctl table =
    let from_table = if ctl.load_overrides then map (λ e. e.1) table else [] in
    map (λ e. e.1) (by_key (by_key [] ctl.file_policies) from_table)

-- Python's comparison of the pairs `(0 if is_glob else 1, len(pattern))`
unfoldable pub more_specific : BudgetPolicy → BudgetPolicy → Bool
unfolding is_glob
more_specific p q =
    if is_glob p
    then is_glob q && ltb (length q.pattern) (length p.pattern)
    else is_glob q || ltb (length q.pattern) (length p.pattern)

-- `max(matches, key=specificity)`: the first of the greatest
unfoldable pub most_specific : BudgetPolicy → List BudgetPolicy → BudgetPolicy
unfolding more_specific
most_specific best [] = best
most_specific best (p ∷ ps) = most_specific (if more_specific p best then p else best) ps

abbrev pub best_of : List BudgetPolicy → Option BudgetPolicy
best_of [] = none
best_of (p ∷ ps) = some (most_specific p ps)

unfoldable pub policy_for : List BudgetPolicy → Dimension → Text → Option BudgetPolicy
unfolding matches most_specific
policy_for ps d value = best_of (keep (λ p. matches p d value) ps)

module _ (host : Host) (rows : List Row) (now : Time) where
  -- `_status`
  unfoldable pub status : BudgetPolicy → Text → BudgetStatus
  status p value =
      let start = period_start host.month_start p.period now in
      record {
        dimension = p.dimension;
        value = value;
        limit_usd = p.limit_usd;
        spent_usd = spend_usd rows p.dimension value start p.include_errors;
        period = p.period;
        period_start = start;
        source = p.source;
      }

  unfoldable pub status_for : List BudgetPolicy → Dimension → Text → Option BudgetStatus
  unfolding status
  status_for ps d value = elim (policy_for ps d value) [
    | none ↦ none
    | some p ↦ some (status p value)
  ]

  unfoldable pub statuses_of : List BudgetPolicy → List (Dimension × Text) → List BudgetStatus
  statuses_of ps [] = []
  statuses_of ps ((d, value) ∷ parts) =
      let rest = statuses_of ps parts in
      elim (status_for ps d value) [ none ↦ rest | some st ↦ st ∷ rest ]

  -- `statuses`
  unfoldable pub statuses : List BudgetPolicy → Principal → List BudgetStatus
  unfolding statuses_of
  statuses ps principal = statuses_of ps (present principal)
