-- ===== src/Policy/Totality.antt =====
-- An evaluation returns: the only exceptions that reach the caller are a regular expression that
-- does not compile and arguments that are no dict.
use glc_v.Prelude.{
  ◌≡◌, refl, ◌⊎◌, inl, inr, Bool, some, ℕ-Eq, String-Eq, ×-Eq, List-Eq, Result, type_error, ok,
  raise,
}
use glc_v.Prelude.Value.{Value, Fields}
use glc_v.Policy.Text.{Host}
use glc_v.Policy.{
  PolicyVerdict, PolicyEngine, Call, safe_default, Loaded, reload, read_call, applies, scan,
  evaluate_call, evaluate, deny, own, missing, malformed,
}

-- A matcher's outcome that the engine handles: an answer or a TypeError.
abbrev IsHandled : Result Bool → Type 0
IsHandled (ok b) = Unit
IsHandled (raise type_error) = Unit
IsHandled (raise _) = ⊥

abbrev denial : PolicyVerdict
denial = record {
  action = deny;
  reason = own "policy.yaml unreadable — falling back to deny-everything";
  matched_rule_index = some 0;
}

safe_default-denial :
    (host : Host) (call : Call)
    → evaluate_call host (record { config = safe_default }) call ≡ ok denial
unfolding evaluate_call scan applies
safe_default-denial host call = refl

-- After a missing or malformed policy file every call is denied, whatever its arguments and context.
pub unreadable_denies :
    (host : Host) (engine : PolicyEngine) (file : Loaded) (tool_call context : Fields)
    → (file ≡ missing) ⊎ (file ≡ malformed)
    → (v : PolicyVerdict) × (evaluate host (reload file engine) tool_call context ≡ ok v)
      × (v.action ≡ deny)
unfolding evaluate reload
unreadable_denies host engine file tool_call context (inl e) =
    (denial, rw e (safe_default-denial host (read_call tool_call context)), refl)
unreadable_denies host engine file tool_call context (inr e) =
    (denial, rw e (safe_default-denial host (read_call tool_call context)), refl)
