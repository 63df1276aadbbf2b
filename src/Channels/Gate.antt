-- ===== src/Channels/Gate.antt =====
-- What a message that reaches the agent has passed.
use glc_v.Security.Pairing.{PairingStore, Pairing, lookup_pairing}
use glc_v.Prelude.Dict.{lookup}
use glc_v.Security.RateLimits.{RateLimiter, Reason, check_message}
use glc_v.Prelude.{
  String, ◌≡◌, refl, sym, ap, ◌∙◌, subst, ◌≢◌, ◌⊎◌, inl, inr, Bool, true, false, none, some, List,
  arith, if◌then◌else◌, Bool-cases, Option-cases, any, ◌==◌, ℕ-Eq, String-Eq, ×-Eq, List-Eq,
  ok-injective, Result-cases, ok, Time,
}
use glc_v.Prelude.Value.{Value, text}
use glc_v.Policy.Matchers.{member}
use glc_v.Channels.Ingress.{
  Handled, rate_checked, allow_checked, gate_message, ws_message, forwarded,
}
use glc_v.Channels.{
  Entry, ChannelMessage, AuditRow, entry, Why, unmentioned, or_no_senders, judge, allowed,
  PrincipalId, trust_of, verified_identity, derive_gate, installation_owner, sender,
}

-- The sender may speak on the channel: it is an owner, or one of the allowed senders.
abbrev pub MaySpeak : Entry → String → List String → Type 0
MaySpeak e user owner_ids =
    (any (λ o. o == user) owner_ids ≡ true)
    ⊎ (member (text user) (or_no_senders e.allowed_senders) ≡ ok true)

pub judge-passes :
    (e : Entry) (user : String) (owner_ids : List String) (gate : Bool × Bool) (why : Why)
    → judge e user owner_ids gate ≡ ok (true, why)
    → (e.enabled ≡ true) × (unmentioned e gate ≡ false) × MaySpeak e user owner_ids
judge-passes e user owner_ids gate why j = elim (Bool-cases e.enabled) [
  | inr off ↦ absurd (ground (arith, j, off))
  | inl on ↦ elim (Bool-cases (any (λ o. o == user) owner_ids)) [
    | inl owner ↦ (on, ground (arith, j, on, owner), inl owner)
    | inr other ↦ elim (Result-cases (member (text user) (or_no_senders e.allowed_senders))) [
      | inr (x, r) ↦ absurd (ground (arith, j, on, other, r))
      | inl (true, r) ↦ (on, ground (arith, j, on, other, r), inr r)
      | inl (false, r) ↦ absurd (ground (arith, j, on, other, r))
    ]
  ]
]

module _ (cfg : Value) (owner_ids : List String) (limiter : RateLimiter) (now : Time)
    (m : ChannelMessage) where
  -- What stands behind a message that is forwarded: the channel is enabled, the sender may speak
  -- there, a mention is there where the rules ask for one, and the rate limiter let it pass.
  abbrev pub HasPassed : Type 0
  HasPassed =
      (e : Entry) × (gate : Bool × Bool) × (rows : List AuditRow) × (entry cfg m.channel ≡ ok e)
      × (derive_gate cfg m ≡ ok (gate, rows))
      × (e.enabled ≡ true)
      × (unmentioned e gate ≡ false)
      × MaySpeak e m.channel_user_id owner_ids
      × ((check_message limiter m.channel m.channel_user_id now).0.0 ≡ true)

  allowed-passes :
      (gate : Bool × Bool) (rows : List AuditRow) (why : Why)
      → derive_gate cfg m ≡ ok (gate, rows)
      → allowed cfg m.channel m.channel_user_id owner_ids gate ≡ ok (true, why)
      → (check_message limiter m.channel m.channel_user_id now).0.0 ≡ true
      → HasPassed
  unfolding allowed
  allowed-passes gate rows why d a c = elim (Result-cases (entry cfg m.channel)) [
    | inr (x, r) ↦ absurd (ground (arith, a, r))
    | inl (e, r) ↦
        let j : judge e m.channel_user_id owner_ids gate ≡ ok (true, why) = ground (arith, a, r) in
        let (on, mention, speak) = judge-passes e m.channel_user_id owner_ids gate why j in
        (e, gate, rows, r, d, on, mention, speak, c)
  ]

  rate_checked-forwarded :
      (rows : List AuditRow) (checked : (Bool × Reason) × RateLimiter) (sent : ChannelMessage)
      → (rate_checked m rows checked).outcome ≡ forwarded sent
      → (sent ≡ m) × (checked.0.0 ≡ true)
  rate_checked-forwarded rows ((true, why), l) sent f = (cc, refl)
  rate_checked-forwarded rows ((false, why), l) sent f = absurd (ground (arith, f))

  allow_checked-forwarded :
      (rows : List AuditRow) (verdict : Bool × Why) (sent : ChannelMessage)
      → (allow_checked limiter now m rows verdict).outcome ≡ forwarded sent
      → (verdict.0 ≡ true)
        × (sent ≡ m)
        × ((check_message limiter m.channel m.channel_user_id now).0.0 ≡ true)
  allow_checked-forwarded rows (false, why) sent f = absurd (ground (arith, f))
  allow_checked-forwarded rows (true, why) sent f =
      let (same, c) =
        rate_checked-forwarded rows (check_message limiter m.channel m.channel_user_id now) sent
          f in
      (refl, same, c)

  gate_message-HasPassed :
      (h : Handled) (sent : ChannelMessage)
      → gate_message cfg owner_ids limiter now m ≡ ok h
      → h.outcome ≡ forwarded sent
      → (sent ≡ m) × HasPassed
  unfolding gate_message
  gate_message-HasPassed h sent g f = elim (Result-cases (derive_gate cfg m)) [
    | inr (x, r) ↦ absurd (ground (arith, g, r))
    | inl ((gate, rows), r) ↦
        elim (Result-cases (allowed cfg m.channel m.channel_user_id owner_ids gate)) [
          | inr (x, a) ↦ absurd (ground (arith, g, r, a))
          | inl ((verdict, why), a) ↦
              let stepped : gate_message cfg owner_ids limiter now m
                  ≡ ok (allow_checked limiter now m rows (verdict, why)) =
                rw (r, gate_message) (rw a refl) in
              let same : allow_checked limiter now m rows (verdict, why) ≡ h =
                ok-injective (sym stepped ∙ g) in
              let (v, sent_m, c) =
                allow_checked-forwarded rows (verdict, why) sent (ap (λ k. k.outcome) same ∙ f) in
              (sent_m, allowed-passes gate rows why r (a ∙ ap (λ b. ok (b, why)) v) c)
        ]
  ]

-- The principal that goes with a trust level.
abbrev pub IsPrincipal : String → String → String → PrincipalId → Type 0
IsPrincipal level channel user who =
    ((level ≡ "owner_paired") × (who ≡ installation_owner))
    ⊎ ((level ≢ "owner_paired") × (who ≡ sender channel user))

-- The level of the sender's row in the pairing table.
abbrev pub IsLevel : PairingStore → String → String → String → Type 0
IsLevel pairings channel user level =
    ((lookup (channel, user) pairings.pairings ≡ none) × (level ≡ "untrusted"))
    ⊎ ((row : Pairing) × (lookup (channel, user) pairings.pairings ≡ some row)
        × (level ≡ row.trust_level))

-- The message as it was, but for the trust level, which is that of the pairing table, and the principal.
abbrev pub IsVerified : PairingStore → ChannelMessage → ChannelMessage → Type 0
IsVerified pairings m sent =
    (level : String) × (who : PrincipalId) × (IsLevel pairings m.channel m.channel_user_id level)
    × IsPrincipal level m.channel m.channel_user_id who
    × (sent ≡ record m { trust_level = level; principal_id = some who })

trust_of-IsLevel :
    (pairings : PairingStore) (channel user : String)
    → IsLevel pairings channel user (trust_of (lookup_pairing pairings channel user))
unfolding lookup_pairing
trust_of-IsLevel pairings channel user =
    elim (Option-cases (lookup (channel, user) pairings.pairings)) [
      | inl n ↦ inl (n, rw (n, lookup_pairing) refl)
      | inr (row, e) ↦ inr (row, e, rw (e, lookup_pairing) refl)
    ]

by_level-IsPrincipal :
    (level channel user : String)
    → IsPrincipal level channel user
        (if level == "owner_paired" then installation_owner else sender channel user)
by_level-IsPrincipal level channel user = elim (Bool-cases (level == "owner_paired")) [
  | inl y ↦ inl ((String-Eq.eqb_iff level "owner_paired").0 y, rw y refl)
  | inr n ↦ inr (λ q. ground (arith, n, q, (String-Eq.eqb_iff level "owner_paired").1 q), rw n refl)
]

verified_identity-IsVerified :
    (pairings : PairingStore) (m : ChannelMessage)
    → IsVerified pairings m (verified_identity pairings m)
unfolding verified_identity
verified_identity-IsVerified pairings m =
    let level = trust_of (lookup_pairing pairings m.channel m.channel_user_id) in
    (
      level,
      (if level == "owner_paired" then installation_owner else sender m.channel m.channel_user_id),
      trust_of-IsLevel pairings m.channel m.channel_user_id,
      by_level-IsPrincipal level m.channel m.channel_user_id,
      refl,
    )

-- Where a websocket message is forwarded to the agent, it is for the connection's channel, its trust
-- level is that of the sender's row in the pairing table (untrusted without a row), whatever it
-- claimed, and its principal the installation's owner for that level and the sender for any other.
-- The channel is enabled; the sender is one of the owners read at the start or of the allowed
-- senders; where one is asked for, the gate has a mention, found in the text or, on a channel without
-- mention tokens, claimed; and the rate limiter let the message pass.
pub ws_message-HasPassed :
    (cfg : Value) (name : String) (owner_ids : List String) (pairings : PairingStore)
    (limiter : RateLimiter) (now : Time) (m : ChannelMessage) (h : Handled) (sent : ChannelMessage)
    → ws_message cfg name owner_ids pairings limiter now m ≡ ok h
    → h.outcome ≡ forwarded sent
    → (m.channel ≡ name) × IsVerified pairings m sent × HasPassed cfg owner_ids limiter now sent
unfolding ws_message
ws_message-HasPassed cfg name owner_ids pairings limiter now m h sent w f =
    elim (Bool-cases (m.channel == name)) [
      | inl on ↦
          let (same, passed) =
            gate_message-HasPassed cfg owner_ids limiter now (verified_identity pairings m) h sent
              (ground (arith, w, on)) f in
          (
            (String-Eq.eqb_iff m.channel name).0 on,
            subst (IsVerified pairings m) (sym same) (verified_identity-IsVerified pairings m),
            subst (HasPassed cfg owner_ids limiter now) (sym same) passed,
          )
      | inr off ↦ absurd (ground (arith, w, f, off))
    ]
