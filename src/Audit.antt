-- ===== src/Audit.antt =====
-- glc/audit/store.py: the append-only audit log. Row ids are those that SQLite's AUTOINCREMENT gives; rows
-- of the same time, whose order SQLite leaves open, come in the order of the table. `json.dumps` and `repr`
-- are the host's.
pub mod Newest
mod Tests
use glc_v.Prelude.{
  ℕ, ◌+◌, String, Bool, true, false, ◌&&◌, ◌||◌, Option, none, some, List, [], ◌∷◌, ◌++◌, ltb,
  if◌then◌else◌, is_empty, keep, take, ◌==◌, ℕ-Eq, String-Eq, ×-Eq, List-Eq, Result, ◌>>=◌, ok,
  raise, Time,
}
use glc_v.Prelude.Int.{ℤ, pos, negsuc}
use glc_v.Prelude.Value.{Value, null, text}
use glc_v.Text.{Text}
use glc_v.Glob.{codes}

-- The arguments of `append` that are texts.
pub record Appended : Type 0 where
  pub channel : Text
  pub channel_user_id : Text
  pub trust_level : Text
  pub event_type : Text
  pub session_id : Option Text
  pub tool : Option Text
  pub policy_verdict : Option Text

pub record LoggedRow : Type 0 where
  pub id : ℕ
  pub ts : Time
  pub event : Appended
  pub params_json : Option Text
  pub result_json : Option Text

pub record AuditLog : Type 0 where
  pub rows : List LoggedRow
  pub last_id : ℕ

-- `json.dumps(v, default=str)` and `json.dumps({"_repr": repr(v)})`
module _ (dumps : Value → Result Text) (dumps_repr : Value → Text) where
  -- `_jsonify`
  unfoldable pub jsonify : Value → Option Text
  jsonify null = none
  jsonify (text s) = some (codes s)
  jsonify v = elim (dumps v) [ ok t ↦ some t | raise x ↦ some (dumps_repr v) ]

  abbrev new_row : Appended → Value → Value → Time → ℕ → LoggedRow
  new_row event params result now id = record {
    id = id;
    ts = now;
    event = event;
    params_json = jsonify params;
    result_json = jsonify result;
  }

  -- `append`, whose answer is `lastrowid`
  unfoldable pub append : Appended → Value → Value → Time → AuditLog → ℕ × AuditLog
  unfolding jsonify
  append event params result now log =
      let row = new_row event params result now (log.last_id + 1) in
      (row.id, record { rows = log.rows ++ row ∷ []; last_id = row.id })

-- `column=?` under a filter that is given and not empty; NULL equals nothing
abbrev pub passes : Option Text → Option Text → Bool
passes none column = true
passes (some wanted) none = is_empty wanted
passes (some wanted) (some t) = is_empty wanted || t == wanted

-- The WHERE clause of `query`.
unfoldable pub is_asked : Option Text → Option Text → LoggedRow → Bool
is_asked session channel r =
    passes session r.event.session_id && passes channel (some r.event.channel)

unfoldable pub place : LoggedRow → List LoggedRow → List LoggedRow
place r [] = r ∷ []
place r (x ∷ xs) = let rest = place r xs in if ltb r.ts x.ts then x ∷ rest else r ∷ x ∷ xs

-- `ORDER BY ts DESC`
unfoldable pub by_time : List LoggedRow → List LoggedRow
unfolding place
by_time [] = []
by_time (r ∷ rs) = place r (by_time rs)

-- `LIMIT ?`; a negative one is no limit
abbrev pub limited : ℤ → List LoggedRow → List LoggedRow
limited (pos n) rs = take n rs
limited (negsuc n) rs = rs

unfoldable pub query : ℤ → Option Text → Option Text → AuditLog → List LoggedRow
unfolding is_asked by_time
query limit session channel log = limited limit (by_time (keep (is_asked session channel) log.rows))
