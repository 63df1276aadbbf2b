-- ===== src/Security/Pairing.antt =====
-- glc/security/pairing.py and glc/security/trust_level.py: the pairing store.
-- The two tables are dictionaries by primary key, in row order. `time.time()` and
-- `secrets.randbelow` are arguments. SQLite itself, the schema statements and the singleton are not
-- modelled; a statement is atomic.
pub mod Codes
pub mod Laws
pub mod Authority
mod Tests
use glc_v.Prelude.{
  ℕ, ◌+◌, ◌*◌, ◌/◌, ◌%◌, String, Bool, ◌&&◌, ◌||◌, Option, none, some, List, [], ◌∷◌, map, ltb,
  if◌then◌else◌, keep, ◌==◌, ℕ-Eq, String-Eq, ×-Eq, List-Eq, Time, second,
}
use glc_v.Prelude.Dict.{Dict, lookup, erase, contains, replace}
use glc_v.Text.{Text}
use glc_v.Security.RateLimits.{Key}

-- `CODE_TTL_SECONDS`
abbrev pub code_ttl : Time
code_ttl = 5 * 60 * second

-- `f"{n:06d}"` for the numbers below a million that `randbelow` gives
unfoldable pub format_code : ℕ → Text
format_code n =
    (48 + n / 100000 % 10)
    ∷ (48 + n / 10000 % 10)
    ∷ (48 + n / 1000 % 10)
    ∷ (48 + n / 100 % 10)
    ∷ (48 + n / 10 % 10)
    ∷ (48 + n % 10)
    ∷ []

pub record PairingRecord : Type 0 where
  pub channel : String
  pub channel_user_id : String
  pub user_handle : String
  pub trust_level : String
  pub paired_at : Time

-- The columns of `pairings` behind its key.
pub record Pairing : Type 0 where
  pub user_handle : String
  pub trust_level : String
  pub paired_at : Time

-- A row of `pending_codes` behind its code.
pub record Pending : Type 0 where
  pub channel : String
  pub channel_user_id : String
  pub user_handle : String
  pub requested_trust_level : String
  pub expires_at : Time

pub record PairingStore : Type 0 where
  pub pairings : Dict Key Pairing
  pub pending_codes : Dict Text Pending

abbrev pub empty_store : PairingStore
empty_store = record { pairings = []; pending_codes = [] }

unfoldable pub issue_code :
    PairingStore → ℕ → Time → String → String → String → String → (Text × Time) × PairingStore
unfolding format_code
issue_code s random now channel channel_user_id user_handle requested =
    let code = format_code random in
    let row : Pending = record {
      channel = channel;
      channel_user_id = channel_user_id;
      user_handle = user_handle;
      requested_trust_level = requested;
      expires_at = now + code_ttl;
    } in
    ((code, now + code_ttl), record s { pending_codes = replace code row s.pending_codes })

abbrev pub as_record : Key → Pairing → PairingRecord
as_record (channel, user) p = record {
  channel = channel;
  channel_user_id = user;
  user_handle = p.user_handle;
  trust_level = p.trust_level;
  paired_at = p.paired_at;
}

abbrev pub grant : Pending → Time → Pairing
grant row paired_at = record {
  user_handle = row.user_handle;
  trust_level = row.requested_trust_level;
  paired_at = paired_at;
}

abbrev pub key_of : Pending → Key
key_of row = (row.channel, row.channel_user_id)

-- The two times are those of the expiry test and of `paired_at`.
unfoldable pub confirm_code :
    PairingStore → Text → Time → Time → Option PairingRecord × PairingStore
confirm_code s code now paired_at = elim (lookup code s.pending_codes) [
  | none ↦ (none, s)
  | some row ↦
      if ltb row.expires_at now
      then (none, record s { pending_codes = erase code s.pending_codes })
      else (
        some (as_record (key_of row) (grant row paired_at)),
        record {
          pairings = replace (key_of row) (grant row paired_at) s.pairings;
          pending_codes = erase code s.pending_codes;
        },
      )
]

unfoldable pub lookup_pairing : PairingStore → String → String → Option PairingRecord
lookup_pairing s channel channel_user_id = elim (lookup (channel, channel_user_id) s.pairings) [
  | none ↦ none
  | some p ↦ some (as_record (channel, channel_user_id) p)
]

unfoldable pub all_pairings : PairingStore → List PairingRecord
all_pairings s = map (λ e. as_record e.0 e.1) s.pairings

abbrev pub is_owner_of : Option String → PairingRecord → Bool
is_owner_of none r = r.trust_level == "owner_paired"
is_owner_of (some channel) r =
    r.trust_level == "owner_paired" && (channel == "" || r.channel == channel)

-- An empty channel is no filter.
unfoldable pub owners : PairingStore → Option String → List PairingRecord
unfolding all_pairings
owners s channel = keep (is_owner_of channel) (all_pairings s)

unfoldable pub revoke : PairingStore → String → String → Bool × PairingStore
revoke s channel channel_user_id = (
  contains (channel, channel_user_id) s.pairings,
  record s { pairings = erase (channel, channel_user_id) s.pairings },
)

unfoldable pub force_pair_owner :
    PairingStore → String → String → String → Time → PairingRecord × PairingStore
force_pair_owner s channel channel_user_id user_handle paired_at =
    let p : Pairing = record {
      user_handle = user_handle;
      trust_level = "owner_paired";
      paired_at = paired_at;
    } in
    (
      as_record (channel, channel_user_id) p,
      record s { pairings = replace (channel, channel_user_id) p s.pairings },
    )

pub data TrustLevel : Type 0 where
  owner_paired user_paired untrusted : TrustLevel

-- glc/security/trust_level.py
unfoldable pub classify : PairingStore → String → String → TrustLevel
unfolding lookup_pairing
classify s channel channel_user_id = elim (lookup_pairing s channel channel_user_id) [
  | none ↦ untrusted
  | some rec ↦ if rec.trust_level == "owner_paired" then owner_paired else user_paired
]
