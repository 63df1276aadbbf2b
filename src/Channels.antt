-- ===== src/Channels.antt =====
-- glc/security/allowlists.py and the inbound half of glc/routes/channels.py: what a message must pass
-- before it reaches the agent, in Ingress.antt check by check. The parsed channels.yaml is an argument. The audit log is a list of
-- rows; the rows of a call that raises are left out. The reply and the bridge are not modelled.
pub mod Ingress
pub mod Gate
pub mod Claims
pub mod Access
mod Tests
use glc_v.Policy.Text.{is_part}
use glc_v.Glob.{codes}
use glc_v.Prelude.{
  String, Bool, true, false, not, ◌&&◌, ◌||◌, Option, none, some, List, [], ◌∷◌, ◌++◌, map,
  if◌then◌else◌, any, ◌==◌, ℕ-Eq, String-Eq, ×-Eq, List-Eq, Result, ◌>>=◌, ◌>>◌, type_error, ok,
  raise, Time,
}
use glc_v.Prelude.Value.{
  Value, Fields, Items, get_field, truthy, value_get, or_empty, null, boolean, text, array, object,
  end, field, nil, cons,
}
use glc_v.Policy.Matchers.{member}
use glc_v.Security.RateLimits.{RateLimiter, Reason, check_message}
use glc_v.Security.Pairing.{
  PairingRecord, PairingStore, lookup_pairing, owners, owner_paired, untrusted,
}

-- `load_channels`: none is a file that is not there
unfoldable pub load_channels : Option Value → Value
load_channels none = object (field "channels" (object end) end)
load_channels (some v) = if truthy v then v else object (field "channels" (object end) end)

-- `_channel_cfg`: the defaults and the channel's own settings
unfoldable pub channel_cfg : Value → String → Result (Value × Value)
unfolding value_get
channel_cfg cfg channel = do
  defaults ← value_get cfg null "defaults"
  channels ← value_get cfg null "channels"
  own ← value_get (or_empty channels) null channel
  ok (or_empty defaults, or_empty own)

-- `ch_cfg.get(key, defaults.get(key, otherwise))`
unfoldable pub setting : Value × Value → String → Value → Result Value
unfolding value_get
setting (defaults, own) key otherwise =
    value_get defaults otherwise key >>= λ default. value_get own default key

pub record Entry : Type 0 where
  pub allowed_senders : Value
  pub mention_only_in_public : Bool
  pub enabled : Bool

-- `_entry`
unfoldable pub entry : Value → String → Result Entry
unfolding channel_cfg setting
entry cfg channel = do
  both ← channel_cfg cfg channel
  senders ← setting both "allowed_senders" (array nil)
  mention_only ← setting both "mention_only_in_public" (boolean true)
  enabled ← value_get both.1 (boolean true) "enabled"
  ok (record {
    allowed_senders = senders;
    mention_only_in_public = truthy mention_only;
    enabled = truthy enabled;
  })

pub data Why : Type 0 where
  passes channel_disabled owner_not_mentioned sender_not_allowed sender_not_mentioned : Why

-- A public channel whose rule is that only a mention counts, and there is none.
abbrev pub unmentioned : Entry → Bool × Bool → Bool
unmentioned e (is_public, was_mentioned) =
    is_public && e.mention_only_in_public && not was_mentioned

abbrev pub or_no_senders : Value → Value
or_no_senders v = if truthy v then v else array nil

-- The last part of `allowed`, from the answer of `channel_user_id in allowed_list`.
abbrev pub judge_sender : Entry → Bool × Bool → Bool → Bool × Why
judge_sender e gate listed =
    if listed
    then if unmentioned e gate then (false, sender_not_mentioned) else (true, passes)
    else (false, sender_not_allowed)

abbrev pub judge_owner : Entry → Bool × Bool → Bool × Why
judge_owner e gate = if unmentioned e gate then (false, owner_not_mentioned) else (true, passes)

abbrev pub judge : Entry → String → List String → Bool × Bool → Result (Bool × Why)
judge e user owner_ids gate =
    if e.enabled
    then if any (λ o. o == user) owner_ids
      then ok (judge_owner e gate)
      else (member (text user) (or_no_senders e.allowed_senders) >>= λ listed.
          ok (judge_sender e gate listed))
    else ok (false, channel_disabled)

-- `allowed`. The pair is `is_public_channel`, `was_mentioned`.
unfoldable pub allowed : Value → String → String → List String → Bool × Bool → Result (Bool × Why)
unfolding entry member
allowed cfg channel user owner_ids gate = entry cfg channel >>= λ e. judge e user owner_ids gate

-- `glc_principal_id`, which `_verified_identity` writes over any claim in the metadata.
pub data PrincipalId : Type 0 where
  installation_owner : PrincipalId
  sender : String → String → PrincipalId

-- `ChannelMessage`, without the fields that no check reads.
pub record ChannelMessage : Type 0 where
  pub channel : String
  pub channel_user_id : String
  pub text : Option String
  pub trust_level : String
  pub metadata : Fields
  pub principal_id : Option PrincipalId

abbrev pub trust_of : Option PairingRecord → String
trust_of none = "untrusted"
trust_of (some rec) = rec.trust_level

-- `_verified_identity`
unfoldable pub verified_identity : PairingStore → ChannelMessage → ChannelMessage
unfolding lookup_pairing
verified_identity pairings m =
    let trust = trust_of (lookup_pairing pairings m.channel m.channel_user_id) in
    record m {
      trust_level = trust;
      principal_id = some (
          if trust == "owner_paired"
          then installation_owner
          else sender m.channel m.channel_user_id);
    }

pub data Event : Type 0 where
  mention_claim_ignored : Bool × Bool → Bool × Bool → Event
  allowlist_drop : Why → Event
  rate_limit : Reason → Event
  inbound_message : Option String → Event

pub record AuditRow : Type 0 where
  pub channel : String
  pub channel_user_id : String
  pub trust_level : String
  pub event : Event

abbrev pub audit_row : ChannelMessage → Event → AuditRow
audit_row m event = record {
  channel = m.channel;
  channel_user_id = m.channel_user_id;
  trust_level = m.trust_level;
  event = event;
}

-- `tok and tok in text`, for one token
unfoldable pub mentions : String → Value → Result Bool
unfolding member
mentions said token = if truthy token then member token (text said) else ok false

-- `any(tok and tok in text for tok in tokens)`
unfoldable pub any_mention : String → Items → Result Bool
unfolding mentions
any_mention said nil = ok false
any_mention said (cons token tokens) =
    mentions said token >>= λ found. if found then ok true else any_mention said tokens

abbrev claim : String → Fields → Bool
claim key md = elim (get_field key md) [ none ↦ false | some v ↦ truthy v ]

-- What the caller claims: a public channel, a mention.
unfoldable pub claims : ChannelMessage → Bool × Bool
claims m = (claim "is_public_channel" m.metadata, claim "was_mentioned" m.metadata)

abbrev or_no_text : Option String → String
or_no_text none = ""
or_no_text (some s) = s

abbrev key_tokens : Fields → Items
key_tokens end = nil
key_tokens (field k v fs) = cons (text k) (key_tokens fs)

-- A text is walked by its characters, a dict by its keys.
unfoldable pub walk_tokens : String → Value → Result Bool
unfolding any_mention is_part
walk_tokens said (array ts) = any_mention said ts
walk_tokens said (text s) = ok (any (λ c. is_part (c ∷ []) (codes said)) (codes s))
walk_tokens said (object fs) = any_mention said (key_tokens fs)
walk_tokens said _ = raise type_error

-- What `was_mentioned` becomes.
unfoldable pub server_mention : Value → ChannelMessage → Result Bool
unfolding walk_tokens claims
server_mention tokens m =
    if truthy tokens then walk_tokens (or_no_text m.text) tokens else ok (claims m).1

abbrev pub differ : Bool → Bool → Bool
differ true b = not b
differ false b = b

abbrev pub ignored_claim : ChannelMessage → Bool → Bool × Bool → List AuditRow
ignored_claim m has_tokens (is_public, was_mentioned) =
    if has_tokens && differ (claims m).1 was_mentioned
    then audit_row m (mention_claim_ignored (claims m) (is_public, was_mentioned)) ∷ []
    else []

-- `_derive_gate`: the pair to gate on, and the audit rows
unfoldable pub derive_gate : Value → ChannelMessage → Result ((Bool × Bool) × List AuditRow)
unfolding channel_cfg setting server_mention claims
derive_gate cfg m = do
  both ← channel_cfg cfg m.channel
  configured ← setting both "is_public" (boolean false)
  tokens ← setting both "mention_tokens" (array nil)
  was_mentioned ← server_mention tokens m
  let gate : Bool × Bool = (truthy configured || (claims m).0, was_mentioned)
  ok (gate, ignored_claim m (truthy tokens) gate)
