-- ===== src/Channels/Tests.antt =====
-- Messages to a public channel with a mention token.
use glc_v.Prelude.Dict.{lookup}
use glc_v.Channels.Gate.{IsVerified, HasPassed, ws_message-HasPassed}
use glc_v.Channels.Claims.{unclaimed, claims_never_relax}
use glc_v.Prelude.{
  String, ◌≡◌, refl, Bool, true, false, some, List, [], ◌∷◌, ℕ-Eq, String-Eq, ×-Eq, List-Eq, Result,
  ok, raise,
}
use glc_v.Prelude.Int.{pos}
use glc_v.Prelude.Value.{
  Value, Fields, truthy, value_get, or_empty, boolean, text, array, object, end, field, nil, cons,
}
use glc_v.Security.RateLimits.{
  RateLimiter, gc, new_limiter, limits_for, sweep_locked, check, check_message,
}
use glc_v.Security.Pairing.{empty_store, lookup_pairing}
use glc_v.Channels.Ingress.{Handled, ws_message, wrong_channel, dropped, forwarded}
use glc_v.Channels.{
  ChannelMessage, AuditRow, allowed, verified_identity, derive_gate, passes, sender_not_mentioned,
  installation_owner,
}

abbrev discord : Value
discord = object (
    field "is_public" (boolean true) (
      field "mention_tokens" (array (cons (text "@glc") nil))
        (field "allowed_senders" (array (cons (text "ann") nil)) end)))

abbrev some_cfg : Value
some_cfg = object (field "channels" (object (field "discord" discord end)) end)

abbrev from_ann : String → Fields → ChannelMessage
from_ann said md = record {
  channel = "discord";
  channel_user_id = "ann";
  text = some said;
  trust_level = "owner_paired";
  metadata = md;
  principal_id = some installation_owner;
}

abbrev false_claims : Fields
false_claims = field "was_mentioned" (boolean true) (field "is_public_channel" (boolean false) end)

abbrev a_limiter : RateLimiter
a_limiter = new_limiter (pos 5) (pos 5)

abbrev none_handled : Handled
none_handled = record { outcome = wrong_channel; limiter = a_limiter; audit = [] }

abbrev handled : Result Handled → Handled
handled (ok h) = h
handled (raise _) = none_handled

abbrev said : String → Result Handled
said words =
    ws_message some_cfg "discord" [] empty_store a_limiter 1000 (from_ann words false_claims)

claimed_mention_is_dropped : (handled (said "hello")).outcome ≡ dropped sender_not_mentioned
unfolding ws_message value_get truthy lookup_pairing or_empty
claimed_mention_is_dropped = refl

real_mention_is_forwarded :
    (handled (said "hi @glc")).outcome
    ≡ forwarded (verified_identity empty_store (from_ann "hi @glc" false_claims))
unfolding ws_message value_get truthy lookup_pairing or_empty check_message check limits_for
    sweep_locked gc lookup
real_mention_is_forwarded = refl

-- A sender that was an owner when the connection was opened still passes the allowlist after its
-- pairing is revoked.
revoked_owner_still_passes :
    (handled (
      ws_message some_cfg "discord"
        ("bob" ∷ [])
        empty_store
        a_limiter
        1000
        (record (from_ann "hi @glc" end) { channel_user_id = "bob" }))).outcome
    ≡ forwarded (
        verified_identity empty_store (record (from_ann "hi @glc" end) { channel_user_id = "bob" }))
unfolding ws_message value_get truthy lookup_pairing or_empty check_message check limits_for
    sweep_locked gc lookup
revoked_owner_still_passes = refl

ws_message-HasPassed_example :
    ((from_ann "hi @glc" false_claims).channel ≡ "discord")
    × IsVerified empty_store
        (from_ann "hi @glc" false_claims)
        (verified_identity empty_store (from_ann "hi @glc" false_claims))
    × HasPassed some_cfg [] a_limiter 1000
        (verified_identity empty_store (from_ann "hi @glc" false_claims))
unfolding ws_message value_get truthy lookup_pairing or_empty check_message check limits_for
    sweep_locked gc lookup
ws_message-HasPassed_example =
    ws_message-HasPassed some_cfg "discord" [] empty_store a_limiter 1000
      (from_ann "hi @glc" false_claims) (handled (said "hi @glc"))
      (verified_identity empty_store (from_ann "hi @glc" false_claims)) refl refl

claims_never_relax_example :
    (honest : (Bool × Bool) × List AuditRow) × (derive_gate some_cfg
        (unclaimed (from_ann "hi @glc" false_claims))
      ≡ ok honest)
    × (allowed some_cfg "discord" "ann" [] honest.0 ≡ ok (true, passes))
unfolding ws_message value_get truthy or_empty derive_gate allowed
claims_never_relax_example =
    claims_never_relax some_cfg (from_ann "hi @glc" false_claims) [] (true, true) [] passes
      ((object end, discord), array (cons (text "@glc") nil), refl, refl, refl) refl refl
