-- ===== src/Channels/Ingress.antt =====
-- glc/routes/channels.py: the checks of `channel_ws` and `channel_webhook` in their order.
use glc_v.Prelude.{
  String, Bool, some, List, [], ◌∷◌, ◌++◌, map, if◌then◌else◌, ◌==◌, ℕ-Eq, String-Eq, ×-Eq, List-Eq,
  Result, ◌>>=◌, ok, Time,
}
use glc_v.Prelude.Value.{Value}
use glc_v.Security.RateLimits.{RateLimiter, Reason, check_message}
use glc_v.Security.Pairing.{PairingStore, owners}
use glc_v.Channels.{
  ChannelMessage, AuditRow, Why, allowed, verified_identity, audit_row, derive_gate, allowlist_drop,
  rate_limit, inbound_message,
}

pub data Outcome : Type 0 where
  wrong_channel : Outcome
  dropped : Why → Outcome
  too_many : Reason → Outcome
  forwarded : ChannelMessage → Outcome

-- The outcome of a message, the rate limiter after it, and the audit rows.
pub record Handled : Type 0 where
  pub outcome : Outcome
  pub limiter : RateLimiter
  pub audit : List AuditRow

-- From `limiter.check_message` on.
abbrev pub rate_checked : ChannelMessage → List AuditRow → (Bool × Reason) × RateLimiter → Handled
rate_checked m rows ((passed, why), limiter) =
    if passed
    then record {
      outcome = forwarded m;
      limiter = limiter;
      audit = rows ++ audit_row m (inbound_message m.text) ∷ [];
    }
    else record {
      outcome = too_many why;
      limiter = limiter;
      audit = rows ++ audit_row m (rate_limit why) ∷ [];
    }

abbrev pub allow_checked :
    RateLimiter → Time → ChannelMessage → List AuditRow → Bool × Why → Handled
allow_checked limiter now m rows (passed, why) =
    if passed
    then rate_checked m rows (check_message limiter m.channel m.channel_user_id now)
    else record {
      outcome = dropped why;
      limiter = limiter;
      audit = rows ++ audit_row m (allowlist_drop why) ∷ [];
    }

-- The checks of a message whose identity is verified, which both routes make.
unfoldable pub gate_message :
    Value → List String → RateLimiter → Time → ChannelMessage → Result Handled
unfolding derive_gate allowed
gate_message cfg owner_ids limiter now m = do
  derived ← derive_gate cfg m
  verdict ← allowed cfg m.channel m.channel_user_id owner_ids derived.0
  ok (allow_checked limiter now m derived.1 verdict)

-- One round of the loop of `channel_ws`, for an envelope that parsed; `owner_ids` were read when the
-- connection was opened.
unfoldable pub ws_message :
    Value
    → String
    → List String
    → PairingStore
    → RateLimiter
    → Time
    → ChannelMessage
    → Result Handled
unfolding gate_message verified_identity
ws_message cfg name owner_ids pairings limiter now m =
    if m.channel == name
    then gate_message cfg owner_ids limiter now (verified_identity pairings m)
    else ok (record { outcome = wrong_channel; limiter = limiter; audit = [] })

-- `channel_webhook`, for a message that the adapter made of the request
unfoldable pub webhook_message :
    Value → String → PairingStore → RateLimiter → Time → ChannelMessage → Result Handled
unfolding gate_message verified_identity owners
webhook_message cfg name pairings limiter now m =
    let owner_ids = map (λ p. p.channel_user_id) (owners pairings (some name)) in
    gate_message cfg owner_ids limiter now (verified_identity pairings m)
