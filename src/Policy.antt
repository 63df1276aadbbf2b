-- ===== src/Policy.antt =====
-- glc/policy/engine.py and glc/policy/schemas.py: the declarative policy engine.
-- A tool call's arguments and a rule's condition are parsed documents (`Prelude.Value`). The engine's
-- lock only guards the swap of the configuration and is not modelled.
pub mod Text
pub mod Matchers
pub mod Spec
pub mod Globs
pub mod Laws
pub mod Guarantees
pub mod Totality
mod Tests
use glc_v.Prelude.{
  ℕ, ◌+◌, ◌*◌, String, Bool, true, false, not, ◌||◌, Option, none, some, List, [], ◌∷◌,
  if◌then◌else◌, ◌==◌, ℕ-Eq, String-Eq, ×-Eq, List-Eq, Result, ◌>>=◌, ◌>>◌, type_error, ok, raise,
}
use glc_v.Prelude.Value.{Value, Fields, get_field, get_value, value_eq, or_empty, text, end}
use glc_v.Policy.Matchers.{matches_condition}
use glc_v.Policy.Text.{Host}

pub data Action : Type 0 where
  allow deny require_approval : Action

pub record PolicyRule : Type 0 where
  pub tool : String
  pub channel : String
  pub trust_level : String
  pub condition : Fields
  pub action : Action
  pub reason : String

-- The reason of a verdict: a rule's own text, or one of the engine's with the values in it.
pub data Reason : Type 0 where
  own : String → Reason
  denied_by_policy default_allow : Reason
  matched_rule : ℕ → Reason
  default_deny : Value → Reason

pub record PolicyVerdict : Type 0 where
  pub action : Action
  pub reason : Reason
  pub matched_rule_index : Option ℕ

pub record PolicyConfig : Type 0 where
  pub rules : List PolicyRule

abbrev pub safe_default : PolicyConfig
safe_default = record {
  rules =
      record {
        tool = "*";
        channel = "*";
        trust_level = "*";
        condition = end;
        action = deny;
        reason = "policy.yaml unreadable — falling back to deny-everything";
      }
      ∷ [];
}

-- What reading and validating the file came to. YAML and pydantic are not modelled.
pub data Loaded : Type 0 where
  missing malformed : Loaded
  parsed : PolicyConfig → Loaded

pub record PolicyEngine : Type 0 where
  pub config : PolicyConfig

unfoldable pub from_yaml : Loaded → PolicyEngine
from_yaml missing = record { config = safe_default }
from_yaml malformed = record { config = safe_default }
from_yaml (parsed cfg) = record { config = cfg }

unfoldable pub reload : Loaded → PolicyEngine → PolicyEngine
unfolding from_yaml
reload file engine = record engine { config = (from_yaml file).config }

-- What `evaluate` reads from `tool_call` and `context`.
pub record Call : Type 0 where
  pub tool : Value
  pub params : Value
  pub channel : Value
  pub trust_level : Value

abbrev get_or : String → Value → Fields → Value
get_or k default fs = elim (get_field k fs) [ none ↦ default | some v ↦ v ]

unfoldable pub read_call : Fields → Fields → Call
read_call tool_call context = record {
  tool = get_or "name" (text "") tool_call;
  params = or_empty (get_value "arguments" tool_call);
  channel = get_or "channel" (text "") context;
  trust_level = get_or "trust_level" (text "untrusted") context;
}

-- `pattern == "*" or pattern == value`
unfoldable pub addresses : String → Value → Bool
unfolding value_eq
addresses pattern value = pattern == "*" || value_eq (text pattern) value

-- `except TypeError: condition_ok = True`; every other exception goes on to the caller.
unfoldable pub fail_closed : Result Bool → Result Bool
fail_closed (raise type_error) = ok true
fail_closed r = r

pub record Found : Type 0 where
  pub deny_match : Option (ℕ × PolicyRule)
  pub first_match : Option (ℕ × PolicyRule)

abbrev pub is_deny : Action → Bool
is_deny deny = true
is_deny _ = false

-- `if match is None: match = (i, rule)`
abbrev pub or_first : Option (ℕ × PolicyRule) → ℕ → PolicyRule → Option (ℕ × PolicyRule)
or_first none i r = some (i, r)
or_first (some m) i r = some m

unfoldable pub note_match : ℕ → PolicyRule → Found → Found
note_match i r found = record {
  deny_match = if is_deny r.action then or_first found.deny_match i r else found.deny_match;
  first_match = or_first found.first_match i r;
}

-- `r.reason or ...`
abbrev pub own_or : String → Reason → Reason
own_or s default = if s == "" then default else own s

unfoldable pub verdict : Found → Value → PolicyVerdict
verdict found trust_level = elim found.deny_match [
  | some (i, r) ↦ record {
    action = deny;
    reason = own_or r.reason denied_by_policy;
    matched_rule_index = some i;
  }
  | none ↦ elim found.first_match [
    | some (i, r) ↦ record {
      action = r.action;
      reason = own_or r.reason (matched_rule i);
      matched_rule_index = some i;
    }
    | none ↦
        if value_eq trust_level (text "owner_paired")
        then record { action = allow; reason = default_allow; matched_rule_index = none }
        else record { action = deny; reason = default_deny trust_level; matched_rule_index = none }
  ]
]

module _ (host : Host) where
  unfoldable pub condition_ok : Fields → Value → Result Bool
  unfolding fail_closed
  condition_ok end params = ok true
  condition_ok condition params = fail_closed (matches_condition host condition params)

  -- Does the loop's body get past its `continue` lines for this rule?
  unfoldable pub applies : PolicyRule → Call → Result Bool
  unfolding addresses condition_ok
  applies r call =
      if not (addresses r.tool call.tool)
      then ok false
      else if not (addresses r.channel call.channel)
      then ok false
      else if not (addresses r.trust_level call.trust_level)
      then ok false
      else condition_ok r.condition call.params

  -- The loop over `enumerate(rules)`, from index `i`.
  unfoldable pub scan : List PolicyRule → ℕ → Call → Found → Result Found
  unfolding note_match
  scan [] i call found = ok found
  scan (r ∷ rules) i call found = do
    hit ← applies r call
    scan rules (i + 1) call (if hit then note_match i r found else found)

  unfoldable pub evaluate_call : PolicyEngine → Call → Result PolicyVerdict
  unfolding verdict
  evaluate_call engine call = do
    found ← scan engine.config.rules 0 call (record { deny_match = none; first_match = none })
    ok (verdict found call.trust_level)

  unfoldable pub evaluate : PolicyEngine → Fields → Fields → Result PolicyVerdict
  unfolding read_call
  evaluate engine tool_call context = evaluate_call engine (read_call tool_call context)
