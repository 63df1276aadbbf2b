-- ===== src/Security/Pairing/Laws.antt =====
-- What each operation of the store does to what `lookup` and `classify` show.
use glc_v.Security.RateLimits.{Key}
use glc_v.Prelude.{
  ℕ, ◌+◌, ◌≤◌, ◌<◌, String, ◌≡◌, refl, ap, ◌↔◌, Bool, true, false, Option, none, some, [], ◌∷◌, map,
  arith, ltb, keep, any, ◌==◌, ==-refl, ℕ-Eq, String-Eq, pair_eq, ×-Eq, List-Eq, Time,
}
use glc_v.Prelude.Dict.{
  Dict, lookup, erase, contains, lookup-erase, replace, lookup-replace, lookup-replace_self,
  lookup-erase_self, DistinctKeys,
}
use glc_v.Text.{Text}
use glc_v.Security.Pairing.{
  Pairing, Pending, PairingStore, code_ttl, format_code, issue_code, as_record, grant, key_of,
  confirm_code, lookup_pairing, is_owner_of, owners, revoke, classify, owner_paired, untrusted,
}

-- The store after a code that is known and in time.
abbrev pub granted : PairingStore → Text → Pending → Time → PairingStore
granted s code row paired_at = record {
  pairings = replace (key_of row) (grant row paired_at) s.pairings;
  pending_codes = erase code s.pending_codes;
}

granted_lookup :
    (t : PairingStore) (code : Text) (row : Pending) (p : Time)
    → lookup_pairing (granted t code row p) row.channel row.channel_user_id
      ≡ some (as_record (key_of row) (grant row p))
unfolding lookup_pairing
granted_lookup t code row p =
    rw (lookup-replace_self (key_of row) (grant row p) t.pairings, lookup_pairing)

module _ (s : PairingStore) (code : Text) (now paired_at : Time) where
  pub confirm_fresh :
      (row : Pending)
      → lookup code s.pending_codes ≡ some row
      → now ≤ row.expires_at
      → confirm_code s code now paired_at
        ≡ (some (as_record (key_of row) (grant row paired_at)), granted s code row paired_at)
  unfolding confirm_code
  confirm_fresh row e h =
      let test : ltb row.expires_at now ≡ false = ground arith in rw (e, confirm_code, test)

  pub confirm_stale :
      (row : Pending)
      → lookup code s.pending_codes ≡ some row
      → row.expires_at < now
      → confirm_code s code now paired_at
        ≡ (none, record s { pending_codes = erase code s.pending_codes })
  unfolding confirm_code
  confirm_stale row e h =
      let test : ltb row.expires_at now ≡ true = ground arith in rw (e, confirm_code, test)

  pub confirm_unknown :
      lookup code s.pending_codes ≡ none → confirm_code s code now paired_at ≡ (none, s)
  unfolding confirm_code
  confirm_unknown e = rw (e, confirm_code)

code_used_up :
    (t : PairingStore) (row : Pending) (code : Text) (p now later : Time)
    → (confirm_code (granted t code row p) code now later).0 ≡ none
code_used_up t row code p now later =
    ap (λ r. r.0)
      (confirm_unknown (granted t code row p) code now later
        (lookup-erase_self code t.pending_codes))

abbrev pub request : String → String → String → String → Time → Pending
request channel user handle level issued = record {
  channel = channel;
  channel_user_id = user;
  user_handle = handle;
  requested_trust_level = level;
  expires_at = issued + code_ttl;
}

module _ (s : PairingStore) (random : ℕ) (channel user handle level : String) (issued : Time) where
  pub issued-answer :
      (issue_code s random issued channel user handle level).0
      ≡ (format_code random, issued + code_ttl)
  unfolding issue_code
  issued-answer = refl

  pub issued-lookup :
      lookup
        (format_code random)
        (issue_code s random issued channel user handle level).1.pending_codes
      ≡ some (request channel user handle level issued)
  unfolding issue_code
  issued-lookup = simp (lookup-replace, ==-refl)

  -- Up to five minutes after its issue a code is accepted: the answer is the pairing of the sender that
  -- the code was issued for, with the handle and the level asked for then and the time of the
  -- pairing; `lookup` shows it, and the code cannot be used again.
  pub confirm_in_time :
      (now paired_at again later : Time)
      → now ≤ issued + code_ttl
      → let ((code, _), s₁) = issue_code s random issued channel user handle level in
        let (answer, s₂) = confirm_code s₁ code now paired_at in
        (answer
          ≡ some (record {
            channel = channel;
            channel_user_id = user;
            user_handle = handle;
            trust_level = level;
            paired_at = paired_at;
          }))
        × (lookup_pairing s₂ channel user ≡ answer)
        × ((confirm_code s₂ code again later).0 ≡ none)
  unfolding issue_code
  confirm_in_time now paired_at again later h =
      let s₁ = (issue_code s random issued channel user handle level).1 in
      let row = request channel user handle level issued in
      let accepted = confirm_fresh s₁ (format_code random) now paired_at row issued-lookup h in
      rw accepted (
        refl,
        granted_lookup s₁ (format_code random) row paired_at,
        code_used_up s₁ row (format_code random) paired_at again later,
      )

  -- Later than five minutes after its issue a code is refused and removed, and no pairing changes.
  pub confirm_too_late :
      (now paired_at : Time)
      → issued + code_ttl < now
      → let ((code, _), s₁) = issue_code s random issued channel user handle level in
        let (answer, s₂) = confirm_code s₁ code now paired_at in
        (answer ≡ none) × (s₂.pairings ≡ s.pairings) × (lookup code s₂.pending_codes ≡ none)
  unfolding issue_code
  confirm_too_late now paired_at h =
      let s₁ = (issue_code s random issued channel user handle level).1 in
      rw
        (confirm_stale s₁ (format_code random) now paired_at
          (request channel user handle level issued) issued-lookup h)
        (refl, refl, simp (lookup-erase, ==-refl))

key_ne : (a b c d : String) → ¬ ((a ≡ c) × (b ≡ d)) → (pair_eq (a, b) (c, d)) ≡ false
key_ne a b c d ne = ground (arith, String-Eq.eqb_iff a c, String-Eq.eqb_iff b d)

module _ (s : PairingStore) (channel user : String) where
  -- A revoked sender is untrusted from then on, the answer tells whether it was paired, and every
  -- other sender keeps its level.
  pub revoke_untrusts :
      let (was_paired, s') = revoke s channel user in
      (classify s' channel user ≡ untrusted)
      × ((was_paired ≡ true) ↔ ¬ (classify s channel user ≡ untrusted))
      × ((channel' user' : String)
          → ¬ ((channel ≡ channel') × (user ≡ user'))
          → classify s' channel' user' ≡ classify s channel' user')
  unfolding revoke classify contains
  revoke_untrusts = (
    rw (lookup-erase_self (channel, user) s.pairings, classify),
    ground arith,
    λ channel' user' ne.
        let other = lookup-erase (channel, user) (channel', user') s.pairings in
        let differs = key_ne channel user channel' user' ne in ground (arith, other, differs),
  )

abbrev listed : String → String → Dict Key Pairing → Bool
listed channel user d =
    any (λ r. r.channel_user_id == user)
      (keep (is_owner_of (some channel)) (map (λ e. as_record e.0 e.1) d))

abbrev is_owner_row : Option Pairing → Bool
is_owner_row none = false
is_owner_row (some p) = p.trust_level == "owner_paired"

listed-eq-lookup :
    (channel user : String) (d : Dict Key Pairing)
    → (channel == "") ≡ false
    → DistinctKeys d
    → listed channel user d ≡ is_owner_row (lookup (channel, user) d)
unfolding lookup
listed-eq-lookup channel user [] named u = refl
listed-eq-lookup channel user (((c, w), p) ∷ d) named u = ground (
  arith,
  listed-eq-lookup channel user d named u.1,
  String-Eq.eqb_iff c channel,
  String-Eq.eqb_iff w user,
)

-- For a channel whose name is not empty, the channel's list of owners and the classification agree: a
-- sender is on the list exactly when it is classified as the owner, as long as no (channel, user) pair
-- has two rows.
pub owners_iff_classified :
    (s : PairingStore) (channel user : String)
    → DistinctKeys s.pairings
    → (channel == "") ≡ false
    → (any (λ r. r.channel_user_id == user) (owners s (some channel)) ≡ true)
      ↔ (classify s channel user ≡ owner_paired)
unfolding owners classify
owners_iff_classified s channel user h named =
    ground (arith, listed-eq-lookup channel user s.pairings named h)
