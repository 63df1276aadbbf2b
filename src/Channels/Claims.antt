-- ===== src/Channels/Claims.antt =====
-- What the claims in a message can change at the gate of a channel.
use glc_v.Channels.Gate.{judge-passes}
use mathlib.Core.Path.{subst}
use glc_v.Prelude.{
  String, ◌≡◌, refl, sym, ap, ◌∙◌, inl, inr, Bool, true, false, ◌||◌, List, arith, Bool-cases, any,
  ◌==◌, ℕ-Eq, String-Eq, ×-Eq, List-Eq, Exn, ok-injective, Result-cases, ok, raise,
}
use glc_v.Prelude.Value.{Value, get_field, truthy, boolean, text, array, end, nil}
use glc_v.Policy.Matchers.{member}
use glc_v.Channels.{
  Entry, ChannelMessage, AuditRow, channel_cfg, setting, entry, Why, unmentioned, or_no_senders,
  judge, allowed, claims, server_mention, ignored_claim, derive_gate,
}

-- The message without what the caller claims about it.
abbrev pub unclaimed : ChannelMessage → ChannelMessage
unclaimed m = record m { metadata = end }

-- The settings of the channel name mention tokens.
abbrev pub HasTokens : Value → String → Type 0
HasTokens cfg channel =
    (both : Value × Value) × (tokens : Value) × (channel_cfg cfg channel ≡ ok both)
    × (setting both "mention_tokens" (array nil) ≡ ok tokens)
    × (truthy tokens ≡ true)

server_mention-unclaimed :
    (tokens : Value) (m : ChannelMessage)
    → truthy tokens ≡ true
    → server_mention tokens (unclaimed m) ≡ server_mention tokens m
unfolding server_mention
server_mention-unclaimed tokens m on = rw (on, server_mention) refl

derive_gate-values :
    (cfg : Value) (m : ChannelMessage) (both : Value × Value) (configured tokens : Value)
    (was_mentioned : Bool)
    → channel_cfg cfg m.channel ≡ ok both
    → setting both "is_public" (boolean false) ≡ ok configured
    → setting both "mention_tokens" (array nil) ≡ ok tokens
    → server_mention tokens m ≡ ok was_mentioned
    → derive_gate cfg m
      ≡ ok (
        (truthy configured || (claims m).0, was_mentioned),
        ignored_claim m (truthy tokens) (truthy configured || (claims m).0, was_mentioned),
      )
unfolding derive_gate
derive_gate-values cfg m both configured tokens was_mentioned a b c d =
    rw (a, derive_gate) (rw b (rw c (rw d refl)))

unmentioned-unclaimed :
    (e : Entry) (configured claimed was_mentioned : Bool)
    → unmentioned e (configured || claimed, was_mentioned) ≡ false
    → unmentioned e (configured || false, was_mentioned) ≡ false
unmentioned-unclaimed e true claimed was_mentioned h = h
unmentioned-unclaimed e false claimed was_mentioned h = refl

judge-mentioned :
    (e : Entry) (user : String) (owner_ids : List String) (g k : Bool × Bool) (why : Why)
    → unmentioned e g ≡ false
    → unmentioned e k ≡ false
    → judge e user owner_ids g ≡ ok (true, why)
    → judge e user owner_ids k ≡ ok (true, why)
judge-mentioned e user owner_ids g k why a b j = elim (Bool-cases e.enabled) [
  | inr off ↦ absurd (ground (arith, j, off))
  | inl on ↦ elim (Bool-cases (any (λ o. o == user) owner_ids)) [
    | inl owner ↦ ground (arith, j, on, owner, a, b)
    | inr other ↦ elim (Result-cases (member (text user) (or_no_senders e.allowed_senders))) [
      | inr (x, r) ↦ absurd (ground (arith, j, on, other, r))
      | inl (listed, r) ↦ ground (arith, j, on, other, r, a, b)
    ]
  ]
]

allowed-relaxed :
    (cfg : Value) (channel user : String) (owner_ids : List String) (why : Why)
    (configured claimed was_mentioned : Bool)
    → allowed cfg channel user owner_ids (configured || claimed, was_mentioned) ≡ ok (true, why)
    → allowed cfg channel user owner_ids (configured || false, was_mentioned) ≡ ok (true, why)
unfolding allowed
allowed-relaxed cfg channel user owner_ids why configured claimed was_mentioned passed =
    elim (Result-cases (entry cfg channel)) [
      | inr (x, r) ↦ absurd (ground (arith, passed, r))
      | inl (e, r) ↦
          let j : judge e user owner_ids (configured || claimed, was_mentioned) ≡ ok (true, why) =
            ground (arith, passed, r) in
          let (on, mention, speak) =
            judge-passes e user owner_ids (configured || claimed, was_mentioned) why j in
          rw (r, allowed)
            (judge-mentioned e user owner_ids (configured || claimed, was_mentioned)
              (configured || false, was_mentioned) why mention
              (unmentioned-unclaimed e configured claimed was_mentioned mention) j)
    ]

-- Where the channel has mention tokens, a message that the allowlist lets pass with the claims in
-- its metadata would pass without them too: no claim of the caller relaxes the gate.
pub claims_never_relax :
    (cfg : Value) (m : ChannelMessage) (owner_ids : List String) (gate : Bool × Bool)
    (rows : List AuditRow) (why : Why)
    → HasTokens cfg m.channel
    → derive_gate cfg m ≡ ok (gate, rows)
    → allowed cfg m.channel m.channel_user_id owner_ids gate ≡ ok (true, why)
    → (honest : (Bool × Bool) × List AuditRow) × (derive_gate cfg (unclaimed m) ≡ ok honest)
      × (allowed cfg m.channel m.channel_user_id owner_ids honest.0 ≡ ok (true, why))
unfolding claims get_field derive_gate
claims_never_relax cfg m owner_ids gate rows why (both, tokens, a, c, on) derived passed =
    elim (Result-cases (setting both "is_public" (boolean false))) [
      | inr (x, b) ↦ absurd (raises x b)
      | inl (configured, b) ↦ elim (Result-cases (server_mention tokens m)) [
        | inr (x, d) ↦ absurd (unread configured x b d)
        | inl (w, d) ↦
            let same =
              ok-injective
                (sym (derive_gate-values cfg m both configured tokens w a b c d) ∙ derived) in
            let d' = server_mention-unclaimed tokens m on ∙ d in
            (
              _,
              derive_gate-values cfg (unclaimed m) both configured tokens w a b c d',
              allowed-relaxed cfg m.channel m.channel_user_id owner_ids why (truthy configured)
                  (claims m).0 w
                  (subst (λ g. allowed cfg m.channel m.channel_user_id owner_ids g ≡ ok (true, why))
                    (sym (ap (λ r. r.0) same)) passed),
            )
      ]
    ]
  where
    raises : (x : Exn) → setting both "is_public" (boolean false) ≡ raise x → ⊥
    raises x b =
        let r : derive_gate cfg m ≡ raise x = rw (a, derive_gate) (rw b refl) in
        absurd (ground (arith, r, derived))

    unread :
        (configured : Value) (x : Exn)
        → setting both "is_public" (boolean false) ≡ ok configured
        → server_mention tokens m ≡ raise x
        → ⊥
    unread configured x b d =
        let r : derive_gate cfg m ≡ raise x = rw (a, derive_gate) (rw b (rw c (rw d refl))) in
        absurd (ground (arith, r, derived))
