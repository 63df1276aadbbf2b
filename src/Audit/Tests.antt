-- ===== src/Audit/Tests.antt =====
-- Queries of a small audit log.
use mathlib.Core.List.{Perm}
use glc_v.Prelude.{
  ℕ, Time, raise, type_error, ◌≤◌, ◌≡◌, refl, ◌≢◌, Option, none, some, List, [], ◌∷◌, ◌++◌, map,
  length, keep, All, ℕ-Eq, String-Eq, ×-Eq, List-Eq,
}
use glc_v.Prelude.Int.{pos, negsuc}
use glc_v.Glob.{codes}
use glc_v.Text.{Text}
use glc_v.Prelude.Value.{null, text}
use glc_v.Audit.{Appended, LoggedRow, AuditLog, append, is_asked, query}
use glc_v.Audit.Newest.{NoneNewer, query-newest}

abbrev heard : Option Text → Appended
heard session = record {
  channel = codes "slack";
  channel_user_id = codes "ann";
  trust_level = codes "owner";
  event_type = codes "inbound_message";
  session_id = session;
  tool = none;
  policy_verdict = none;
}

abbrev empty_log : AuditLog
empty_log = record { rows = []; last_id = 0 }

abbrev log_it : Option Text → Time → AuditLog → ℕ × AuditLog
log_it session now log =
    append (λ v. raise type_error) (λ v. []) (heard session) (text "hello") null now log

-- Three rows of one session and one without a session; the second is the newest.
abbrev a_log : AuditLog
a_log =
    let one = (log_it (some (codes "s")) 10 empty_log).1 in
    let two = (log_it (some (codes "s")) 30 one).1 in
    let three = (log_it none 40 two).1 in (log_it (some (codes "s")) 20 three).1

newest_two : map (λ r. r.id) (query (pos 2) (some (codes "s")) none a_log) ≡ 2 ∷ 4 ∷ []
unfolding query append
newest_two = refl

no_limit : map (λ r. r.id) (query (negsuc 0) none (some (codes "slack")) a_log) ≡ 3 ∷ 2 ∷ 4 ∷ 1 ∷ []
unfolding query append
no_limit = refl

query-newest_example :
    let found = query (pos 2) (some (codes "s")) none a_log in
    (rest : List LoggedRow) × Perm
      (found ++ rest)
      (keep (is_asked (some (codes "s")) none) a_log.rows)
    × All (NoneNewer rest) found
    × (length found ≤ 2)
    × (rest ≢ [] → length found ≡ 2)
query-newest_example = query-newest 2 (some (codes "s")) none a_log
