-- ===== src/Routing/Status.antt =====
-- glc/routing/core.py: what the status page shows of the rate states.
use glc_v.Prelude.{
  ℕ, ◌+◌, ◌-◌, ◌*◌, String, Option, none, some, [], ◌∷◌, ltb, if◌then◌else◌, length, ◌==◌, ℕ-Eq,
  String-Eq, ×-Eq, List-Eq, Result, ◌>>=◌, key_error, ok, raise, Time, second,
}
use glc_v.Prelude.Dict.{Dict, lookup, insert}
use glc_v.Routing.Rings.{state_or_new}
use glc_v.Routing.{Limits, RateState, Provider, collect, sum_tokens}

pub record Snapshot : Type 0 where
  pub rpm_used : ℕ
  pub rpm_limit : ℕ
  pub rpd_used : ℕ
  pub rpd_limit : ℕ
  pub tpm_used : ℕ
  pub tpm_limit : ℕ
  pub tokens_today : ℕ
  pub tokens_per_day : Option ℕ
  pub cooldown_remaining : Time
  pub last_call : Time
  pub backoff_remaining : Time
  pub backoff_reason : String

-- `snapshot`: it collects first, and returns the collected state with the report
unfoldable pub snapshot : Limits → Time → RateState → Snapshot × RateState
unfolding collect sum_tokens
snapshot l now st =
    let st' = collect now st in
    (
      record {
        rpm_used = length st'.calls_minute;
        rpm_limit = l.rpm;
        rpd_used = st'.calls_today;
        rpd_limit = l.rpd;
        tpm_used = sum_tokens st'.tokens_minute;
        tpm_limit = l.tpm;
        tokens_today = st'.tokens_today;
        tokens_per_day = l.tokens_per_day;
        cooldown_remaining =
            if st'.last_call == 0 then 0 else st'.last_call + l.cooldown * second - now;
        last_call = st'.last_call;
        backoff_remaining = st'.unavailable_until - now;
        backoff_reason = if ltb now st'.unavailable_until then st'.unavailable_reason else "";
      },
      st',
    )

abbrev pub Status : Type 0
Status = Dict String (Snapshot × Provider)

-- `all_status`, over the providers
unfoldable pub all_status :
    Dict String Limits
    → Time
    → Dict String Provider
    → Dict String RateState
    → Result (Status × Dict String RateState)
unfolding snapshot lookup insert
all_status table now [] states = ok ([], states)
all_status table now ((name, p) ∷ ps) states = elim (lookup name table) [
  | none ↦ raise key_error
  | some l ↦
      let shown = snapshot l now (state_or_new (lookup name states) now) in
      all_status table now ps (insert name shown.1 states) >>= λ rest.
      ok ((name, (shown.0, p)) ∷ rest.0, rest.1)
]
