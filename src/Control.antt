-- ===== src/Control.antt =====
-- glc/routes/control.py: the out-of-band control plane over the pairing store. The installation
-- token, the clock, the random number and the client's host are arguments; FastAPI's parsing of the
-- request is not modelled.
pub mod Laws
mod Tests
use glc_v.Prelude.{
  ℕ, String, Bool, not, ◌&&◌, ◌||◌, Option, none, some, List, if◌then◌else◌, ◌==◌, ℕ-Eq, String-Eq,
  ×-Eq, List-Eq, Result, ◌>>◌, http, ok, raise, Time,
}
use glc_v.Glob.{codes}
use glc_v.Text.{Text, strip, after_prefix}
use glc_v.Security.Pairing.{
  PairingRecord, PairingStore, code_ttl, issue_code, confirm_code, all_pairings, owner_paired,
  user_paired,
}

-- The Authorization header's token, if it is a bearer token.
unfoldable pub bearer : Option Text → Option Text
unfolding after_prefix strip
bearer none = none
bearer (some header) = elim (after_prefix (codes "Bearer ") header) [
  | none ↦ none
  | some rest ↦ some (strip rest)
]

-- `_require_token`, with the install token as `expected`
unfoldable pub require_token : Text → Option Text → Result (Unit {0})
unfolding bearer
require_token expected authorization = elim (bearer authorization) [
  | none ↦ raise (http 401)
  | some presented ↦ if presented == expected then ok tt else raise (http 403)
]

pub record PairRequest : Type 0 where
  pub channel : String
  pub channel_user_id : String
  pub user_handle : String
  pub trust_level : String

pub record PairResponse : Type 0 where
  pub code : Text
  pub expires_at : Time
  pub ttl_seconds : Time

-- A handler returns its response or raises, beside the store it leaves.
abbrev pub Handled : Type 0 → Type 0
Handled A = Result A × PairingStore

abbrev guarded : {A : Type 0} → Result (Unit {0}) → PairingStore → Handled A → Handled A
guarded (ok _) s rest = rest
guarded (raise e) s rest = (raise e, s)

-- POST /v1/control/pair
unfoldable pub pair :
    Text → PairingStore → PairRequest → Option Text → ℕ → Time → Handled PairResponse
pair expected s req authorization random now = guarded (require_token expected authorization) s (
    if req.trust_level == "user_paired" || req.trust_level == "owner_paired"
    then (let ((code, expires_at), s') =
          issue_code s random now req.channel req.channel_user_id req.user_handle req.trust_level in
        (ok (record { code = code; expires_at = expires_at; ttl_seconds = code_ttl }), s'))
    else (raise (http 400), s))

abbrev answer_confirm : Option PairingRecord × PairingStore → Handled PairingRecord
answer_confirm (none, s) = (raise (http 404), s)
answer_confirm (some rec, s) = (ok rec, s)

-- POST /v1/control/pair/confirm
unfoldable pub pair_confirm :
    Text → PairingStore → Text → Option Text → Time → Time → Handled PairingRecord
pair_confirm expected s code authorization now paired_at =
    guarded (require_token expected authorization) s
      (answer_confirm (confirm_code s code now paired_at))

-- The paired users that GET /v1/control/presence reports.
unfoldable pub presence : Text → PairingStore → Option Text → Handled (List PairingRecord)
presence expected s authorization =
    guarded (require_token expected authorization) s (ok (all_pairings s), s)

abbrev is_loopback : String → Bool
is_loopback host = host == "127.0.0.1" || host == "::1" || host == "localhost"

-- The guards of POST /v1/control/kill, up to the point where it schedules the signal.
unfoldable pub kill : Text → Bool → String → Option Text → Result (Unit {0})
kill expected allow_remote client_host authorization =
    require_token expected authorization
    >> (if not allow_remote && not (is_loopback client_host) then raise (http 403) else ok tt)
