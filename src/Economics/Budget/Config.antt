-- ===== src/Economics/Budget/Config.antt =====
-- glc/economics/budget.py: reading budgets.yaml, and the runtime limits of `POST /v1/budget`. A
-- configured amount is compared in money units; NaN and infinities are left to `Host.usd`.
use glc_v.Prelude.{
  String, ◌≡◌, refl, sym, ◌⊎◌, inl, inr, Bool, true, Option, none, some, List, [], ◌∷◌,
  if◌then◌else◌, is_empty, ◌==◌, ℕ-Eq, String-Eq, ×-Eq, List-Eq, Exn, Result, ◌>>=◌, Result-cases,
  type_error, value_error, config_error, ok, raise,
}
use glc_v.Prelude.Int.{ℤ, pos, negsuc}
use glc_v.Prelude.Dict.{insert, erase, contains}
use glc_v.Prelude.Value.{
  Value, Items, Fields, get_field, get_value, truthy, value_get, or_empty, null, boolean, text,
  array, object, nil, cons, end, field,
}
use glc_v.Text.{Text, strip}
use glc_v.Economics.Ledger.{Usd, Dimension-Eq, parse_dimension, Period, parse_period}
use glc_v.Economics.Budget.Decision.{text_of}
use glc_v.Economics.Budget.{
  BudgetPolicy, Host, BudgetController, PolicyKey, Source, key_of, Overrides, budgets_yaml, runtime,
}

-- `s.partition(":")`, without the separator
unfoldable pub partition_colon : Text → Text × Text
partition_colon [] = ([], [])
partition_colon (c ∷ cs) =
    let rest = partition_colon cs in if c == b':' then ([], cs) else (c ∷ rest.0, rest.1)

-- `_parse_principal`
unfoldable pub parse_principal : Text → Result PolicyKey
unfolding partition_colon strip parse_dimension
parse_principal spec =
    let (before, after) = partition_colon spec in
    elim (parse_dimension (strip before)) [
      | none ↦ raise config_error
      | some d ↦ if is_empty (strip after) then raise config_error else ok (d, strip after)
    ]

-- `except (TypeError, ValueError)`
unfoldable pub not_a_number : Result ℤ → Result ℤ
not_a_number (raise type_error) = raise config_error
not_a_number (raise value_error) = raise config_error
not_a_number r = r

-- `if limit < 0: raise`
abbrev non_negative : ℤ → Result Usd
non_negative (pos n) = ok n
non_negative (negsuc n) = raise config_error

unfoldable pub limit_of : Host → Fields → Result Usd
unfolding not_a_number
limit_of host entry = elim (get_field "limit_usd" entry) [
  | none ↦ raise config_error
  | some v ↦ not_a_number (host.usd v) >>= λ n. non_negative n
]

unfoldable pub period_of : Host → Fields → Value → Result Period
unfolding parse_period
period_of host entry defaults = do
  default ← value_get defaults (text "day") "period"
  period ← value_get (object entry) default "period"
  elim (parse_period (text_of host period)) [ none ↦ raise config_error | some p ↦ ok p ]

unfoldable pub counts_errors : Fields → Value → Result Bool
counts_errors entry defaults = do
  default ← value_get defaults (boolean true) "include_errors"
  included ← value_get (object entry) default "include_errors"
  ok (truthy included)

-- `_policy_from_entry`, for a mapping with a principal
unfoldable pub read_entry : Host → Fields → Value → Source → Result BudgetPolicy
unfolding limit_of period_of counts_errors parse_principal get_value
read_entry host entry defaults source = do
  limit ← limit_of host entry
  period ← period_of host entry defaults
  key ← parse_principal (text_of host (get_value "principal" entry))
  errors ← counts_errors entry defaults
  ok (record {
    dimension = key.0;
    pattern = key.1;
    limit_usd = limit;
    period = period;
    include_errors = errors;
    source = source;
  })

-- `_policy_from_entry`
unfoldable pub policy_from_entry : Host → Value → Value → Source → Result BudgetPolicy
unfolding read_entry get_value
policy_from_entry host (object entry) defaults source =
    if truthy (get_value "principal" entry)
    then read_entry host entry defaults source
    else raise config_error
policy_from_entry host _ defaults source = raise config_error

unfoldable pub policies_from : Host → Value → Items → Result (List BudgetPolicy)
unfolding policy_from_entry
policies_from host defaults nil = ok []
policies_from host defaults (cons v vs) = do
  p ← policy_from_entry host v defaults budgets_yaml
  ps ← policies_from host defaults vs
  ok (p ∷ ps)

-- `load_yaml`: none is a file that is not there
unfoldable pub load_yaml : Option Value → Result Fields
load_yaml none = ok end
load_yaml (some null) = ok end
load_yaml (some (object fs)) = ok fs
load_yaml (some _) = raise value_error

unfoldable pub entries_of : Value → Result Items
entries_of null = ok nil
entries_of (array vs) = ok vs
entries_of _ = raise config_error

-- `reload`: where it raises, the controller keeps what it had
unfoldable pub reload : Host → Option Value → BudgetController → Result BudgetController
unfolding load_yaml entries_of policies_from get_value
reload host file ctl = do
  fields ← load_yaml file
  entries ← entries_of (get_value "policies" fields)
  ps ← policies_from host (or_empty (get_value "defaults" fields)) entries
  ok (record ctl {
    defaults = or_empty (get_value "defaults" fields);
    projection = or_empty (get_value "projection" fields);
    alerts = or_empty (get_value "alerts" fields);
    file_policies = ps;
  })

abbrev optional_field : String → Option Value → Fields
optional_field k none = end
optional_field k (some v) = field k v end

-- The entry that `set_limit` builds.
unfoldable pub entry_for : String → Value → Option String → Option Bool → Value
entry_for principal limit period errors = object (
    field "principal" (text principal) (
      field "limit_usd" limit (elim period [
        | none ↦
            optional_field "include_errors"
              (elim errors [ none ↦ none | some b ↦ some (boolean b) ])
        | some t ↦ field "period" (text t) (
            optional_field "include_errors"
              (elim errors [ none ↦ none | some b ↦ some (boolean b) ]))
      ])))

-- `set_limit`: the policy, and the table with its row inserted or updated in place
unfoldable pub set_limit :
    Host
    → BudgetController
    → Overrides
    → String
    → Value
    → Option String
    → Option Bool
    → Result (BudgetPolicy × Overrides)
unfolding policy_from_entry entry_for
set_limit host ctl table principal limit period errors = do
  p ← policy_from_entry host (entry_for principal limit period errors) ctl.defaults runtime
  ok (p, insert (key_of p) p table)

-- `clear_limit`: was there a row, and the table without it
unfoldable pub clear_limit : Overrides → Text → Result (Bool × Overrides)
unfolding parse_principal
clear_limit table principal = do
  key ← parse_principal principal
  ok (contains key table, erase key table)

-- The entry is one of the list.
abbrev pub IsEntry : Value → Items → Type 0
IsEntry v nil = ⊥
IsEntry v (cons w ws) = (v ≡ w) ⊎ IsEntry v ws

-- No policy list is loaded with an entry in it that raises.
policies_from-bad :
    (host : Host) (defaults : Value) (entries : Items) (v : Value) (x : Exn)
    → IsEntry v entries
    → policy_from_entry host v defaults budgets_yaml ≡ raise x
    → (y : Exn) × (policies_from host defaults entries ≡ raise y)
unfolding policies_from
policies_from-bad host defaults nil v x m bad = absurd m
policies_from-bad host defaults (cons w ws) v x (inl e) bad =
    (x, rw (sym e, policies_from) (rw bad refl))
policies_from-bad host defaults (cons w ws) v x (inr m) bad =
    let (y, rest) = policies_from-bad host defaults ws v x m bad in
    elim (Result-cases (policy_from_entry host w defaults budgets_yaml)) [
      | inl (p, e) ↦ (y, rw (e, policies_from) (rw rest refl))
      | inr (z, e) ↦ (z, rw (e, policies_from) refl)
    ]

-- A file whose list of policies holds an entry that does not read as a policy is refused as a whole:
-- `reload` raises.
pub reload-bad_entry :
    (host : Host) (fs : Fields) (ctl : BudgetController) (entries : Items) (v : Value) (x : Exn)
    → get_value "policies" fs ≡ array entries
    → IsEntry v entries
    → policy_from_entry host v (or_empty (get_value "defaults" fs)) budgets_yaml ≡ raise x
    → (y : Exn) × (reload host (some (object fs)) ctl ≡ raise y)
unfolding reload
reload-bad_entry host fs ctl entries v x listed m bad =
    let (y, raised) =
      policies_from-bad host (or_empty (get_value "defaults" fs)) entries v x m bad in
    (y, rw (listed, reload) (rw raised refl))
