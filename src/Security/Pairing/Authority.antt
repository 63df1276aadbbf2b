-- ===== src/Security/Pairing/Authority.antt =====
-- Where the owner's authority comes from: no sequence of operations gives it to a sender without a
-- request for it, or an out-of-band pairing.
use glc_v.Security.Pairing.Laws.{confirm_fresh, confirm_stale, confirm_unknown}
use glc_v.Prelude.{
  ℕ, ◌+◌, String, ◌≡◌, ◌≢◌, inl, inr, Bool, false, ◌&&◌, some, List, [], ◌∷◌, arith, ltb,
  Bool-cases, Option-cases, any, ◌==◌, ℕ-Eq, String-Eq, pair_eq, ×-Eq, List-Eq, Time,
}
use glc_v.Prelude.Dict.{lookup, erase, lookup-erase, lookup-replace}
use glc_v.Text.{Text}
use glc_v.Security.Pairing.{
  Pairing, Pending, PairingStore, code_ttl, format_code, empty_store, issue_code, grant, key_of,
  confirm_code, revoke, force_pair_owner, classify, owner_paired,
}

-- The operations that change the store, with the clock readings and the random number they use.
pub data Operation : Type 0 where
  issue : ℕ → Time → String → String → String → String → Operation
  confirm : Text → Time → Time → Operation
  revoke_pair : String → String → Operation
  force_owner : String → String → String → Time → Operation

unfoldable pub apply : PairingStore → Operation → PairingStore
apply s (issue random now channel user handle level) =
    (issue_code s random now channel user handle level).1
apply s (confirm code now paired_at) = (confirm_code s code now paired_at).1
apply s (revoke_pair channel user) = (revoke s channel user).1
apply s (force_owner channel user handle now) = (force_pair_owner s channel user handle now).1

unfoldable pub apply_all : PairingStore → List Operation → PairingStore
apply_all s [] = s
apply_all s (op ∷ ops) = apply_all (apply s op) ops

-- Does the operation ask for the owner's level for this sender?
abbrev pub asks_owner : String → String → Operation → Bool
asks_owner channel user (issue random now c u handle level) =
    pair_eq (c, u) (channel, user) && level == "owner_paired"
asks_owner channel user (force_owner c u handle now) = pair_eq (c, u) (channel, user)
asks_owner channel user _ = false

module _ (channel user : String) where
  -- Neither a pairing nor a pending request makes the sender an owner.
  record HasNoClaim (s : PairingStore) : Type 0 where
    paired :
        (p : Pairing)
        → lookup (channel, user) s.pairings ≡ some p
        → (p.trust_level == "owner_paired") ≡ false
    pending :
        (code : Text) (row : Pending)
        → lookup code s.pending_codes ≡ some row
        → (pair_eq (key_of row) (channel, user) && row.requested_trust_level == "owner_paired")
          ≡ false

  issue-HasNoClaim :
      (s : PairingStore) (random : ℕ) (now : Time) (c u handle level : String)
      → asks_owner channel user (issue random now c u handle level) ≡ false
      → HasNoClaim s
      → HasNoClaim (issue_code s random now c u handle level).1
  unfolding issue_code
  issue-HasNoClaim s random now c u handle level unasked h = record {
    paired = h.paired;
    pending = λ code row e. ground (
      arith,
      h.pending code row,
      lookup-replace (format_code random) code
          (record {
            channel = c;
            channel_user_id = u;
            user_handle = handle;
            requested_trust_level = level;
            expires_at = now + code_ttl;
          })
          s.pending_codes,
    );
  }

  erase_pending :
      (s : PairingStore) (code : Text)
      → HasNoClaim s
      → HasNoClaim (record s { pending_codes = erase code s.pending_codes })
  erase_pending s code h = record {
    paired = h.paired;
    pending =
        λ code' row e. ground (arith, h.pending code' row, lookup-erase code code' s.pending_codes);
  }

  confirm-HasNoClaim :
      (s : PairingStore) (code : Text) (now paired_at : Time)
      → HasNoClaim s
      → HasNoClaim (confirm_code s code now paired_at).1
  confirm-HasNoClaim s code now paired_at h = elim (Option-cases (lookup code s.pending_codes)) [
    | inl unknown ↦ rw (confirm_unknown s code now paired_at unknown) h
    | inr (row, known) ↦ elim (Bool-cases (ltb row.expires_at now)) [
      | inl late ↦
          rw (confirm_stale s code now paired_at row known (ground arith)) (erase_pending s code h)
      | inr fresh ↦ rw (confirm_fresh s code now paired_at row known (ground arith)) (record {
        paired = λ p e. ground (
          arith,
          h.paired p,
          h.pending code row,
          lookup-replace (key_of row) (channel, user) (grant row paired_at) s.pairings,
        );
        pending = (erase_pending s code h).pending;
      })
    ]
  ]

  apply-HasNoClaim :
      (s : PairingStore) (op : Operation)
      → asks_owner channel user op ≡ false
      → HasNoClaim s
      → HasNoClaim (apply s op)
  unfolding apply
  apply-HasNoClaim s (issue random now c u handle level) unasked h =
      issue-HasNoClaim s random now c u handle level unasked h
  apply-HasNoClaim s (confirm code now paired_at) unasked h =
      confirm-HasNoClaim s code now paired_at h
  apply-HasNoClaim s (revoke_pair c u) unasked h =
      unfold revoke in
      record {
        paired = λ p e. ground (arith, h.paired p, lookup-erase (c, u) (channel, user) s.pairings);
        pending = h.pending;
      }
  apply-HasNoClaim s (force_owner c u handle now) unasked h =
      unfold force_pair_owner in
      record {
        paired = λ p e. ground (
          arith,
          h.paired p,
          lookup-replace (c, u) (channel, user)
              (record { user_handle = handle; trust_level = "owner_paired"; paired_at = now })
              s.pairings,
        );
        pending = h.pending;
      }

  apply_all-HasNoClaim :
      (s : PairingStore) (ops : List Operation)
      → any (asks_owner channel user) ops ≡ false
      → HasNoClaim s
      → HasNoClaim (apply_all s ops)
  unfolding apply_all
  apply_all-HasNoClaim s [] unasked h = h
  apply_all-HasNoClaim s (op ∷ ops) unasked h =
      apply_all-HasNoClaim (apply s op) ops (ground arith) (apply-HasNoClaim s op (ground arith) h)

  empty-HasNoClaim : HasNoClaim empty_store
  unfolding lookup
  empty-HasNoClaim = record { paired = λ p e. cc; pending = λ code row e. cc }

  -- From an empty store, whatever is issued, confirmed (with any code), revoked or forced: a sender
  -- for whom no operation asks for the owner's level is never classified as the owner.
  pub owner_only_if_asked :
      (ops : List Operation)
      → any (asks_owner channel user) ops ≡ false
      → classify (apply_all empty_store ops) channel user ≢ owner_paired
  unfolding classify
  owner_only_if_asked ops unasked =
      let h = apply_all-HasNoClaim empty_store ops unasked empty-HasNoClaim in
      elim (Option-cases (lookup (channel, user) (apply_all empty_store ops).pairings)) [
        | inl unpaired ↦ rw (unpaired, classify) (ground arith)
        | inr (p, found) ↦ rw (found, classify) (ground (arith, h.paired p found))
      ]
