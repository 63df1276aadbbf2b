-- ===== src/Security/Pairing/Tests.antt =====
-- The theorems on a small store.
use glc_v.Prelude.{
  String, ◌≡◌, refl, ◌≢◌, ◌↔◌, true, none, some, List, [], ◌∷◌, arith, any, ◌==◌, ℕ-Eq, String-Eq,
  ×-Eq, List-Eq,
}
use glc_v.Prelude.Dict.{lookup, erase, replace}
use glc_v.Glob.{codes}
use glc_v.Security.Pairing.{
  PairingStore, format_code, empty_store, issue_code, confirm_code, lookup_pairing, owners, revoke,
  classify, owner_paired, untrusted,
}
use glc_v.Security.Pairing.Laws.{
  confirm_in_time, confirm_too_late, revoke_untrusts, owners_iff_classified,
}
use glc_v.Security.Pairing.Authority.{
  Operation, apply, apply_all, owner_only_if_asked, issue, confirm, revoke_pair,
}

code_of_42 : format_code 42 ≡ codes "000042"
unfolding format_code
code_of_42 = refl

abbrev with_ann : PairingStore
with_ann = record empty_store {
  pairings =
      (
        ("slack", "ann"),
        record { user_handle = "Ann"; trust_level = "owner_paired"; paired_at = 7 },
      )
      ∷ [];
}

confirm_in_time_example :
    let ((code, _), s₁) = issue_code with_ann 42 10 "slack" "bob" "Bob" "user_paired" in
    let (answer, s₂) = confirm_code s₁ code 300000010 300000011 in
    (answer
      ≡ some (record {
        channel = "slack";
        channel_user_id = "bob";
        user_handle = "Bob";
        trust_level = "user_paired";
        paired_at = 300000011;
      }))
    × (lookup_pairing s₂ "slack" "bob" ≡ answer)
    × ((confirm_code s₂ code 300000012 300000013).0 ≡ none)
confirm_in_time_example =
    confirm_in_time with_ann 42 "slack" "bob" "Bob" "user_paired" 10 300000010 300000011 300000012
      300000013 (omega arith)

confirm_too_late_example :
    let ((code, _), s₁) = issue_code with_ann 42 10 "slack" "bob" "Bob" "user_paired" in
    let (answer, s₂) = confirm_code s₁ code 300000011 300000011 in
    (answer ≡ none) × (s₂.pairings ≡ with_ann.pairings) × (lookup code s₂.pending_codes ≡ none)
confirm_too_late_example =
    confirm_too_late with_ann 42 "slack" "bob" "Bob" "user_paired" 10 300000011 300000011
      (omega arith)

revoke_untrusts_example :
    let (was_paired, s') = revoke with_ann "slack" "ann" in
    (classify s' "slack" "ann" ≡ untrusted)
    × ((was_paired ≡ true) ↔ ¬ (classify with_ann "slack" "ann" ≡ untrusted))
    × ((channel' user' : String)
        → ¬ (("slack" ≡ channel') × ("ann" ≡ user'))
        → classify s' channel' user' ≡ classify with_ann channel' user')
revoke_untrusts_example = revoke_untrusts with_ann "slack" "ann"

owners_iff_classified_example :
    (any (λ r. r.channel_user_id == "ann") (owners with_ann (some "slack")) ≡ true)
    ↔ (classify with_ann "slack" "ann" ≡ owner_paired)
unfolding lookup
owners_iff_classified_example = owners_iff_classified with_ann "slack" "ann" (refl, tt) refl

abbrev history : List Operation
history =
    issue 42 10 "slack" "bob" "Bob" "user_paired"
    ∷ issue 43 10 "slack" "ann" "Ann" "owner_paired"
    ∷ confirm (codes "000042") 11 11
    ∷ confirm (codes "000043") 11 11
    ∷ revoke_pair "slack" "eve"
    ∷ []

ann_is_owner : classify (apply_all empty_store history) "slack" "ann" ≡ owner_paired
unfolding apply_all apply issue_code confirm_code revoke classify lookup replace erase
ann_is_owner = refl

owner_only_if_asked_example : classify (apply_all empty_store history) "slack" "bob" ≢ owner_paired
owner_only_if_asked_example = owner_only_if_asked "slack" "bob" history refl
