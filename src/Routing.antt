-- ===== src/Routing.antt =====
-- glc/routing/core.py: the tables of limits and names, the rate state of a provider. The clock
-- readings of one synchronous call are one argument `now`. The table of limits, which the provider
-- set-up extends, is an argument.
pub mod Expand
pub mod Names
pub mod Pick
pub mod Quota
pub mod Admitted
pub mod Rings
pub mod Status
mod Tests
use glc_v.Prelude.{
  ℕ, ◌+◌, ◌-◌, ◌*◌, ◌%◌, String, Bool, false, Option, none, some, List, [], ◌∷◌, ◌++◌, ltb, leb,
  if◌then◌else◌, length, ℕ-Eq, String-Eq, ×-Eq, List-Eq, Time, second,
}
use glc_v.Prelude.Dict.{Dict}

pub record Limits : Type 0 where
  pub rpm : ℕ
  pub rpd : ℕ
  pub tpm : ℕ
  pub cooldown : ℕ
  pub max_ctx : ℕ
  pub tokens_per_day : Option ℕ

abbrev limits : ℕ → ℕ → ℕ → ℕ → ℕ → Option ℕ → Limits
limits rpm rpd tpm cooldown max_ctx tokens_per_day = record {
  rpm = rpm;
  rpd = rpd;
  tpm = tpm;
  cooldown = cooldown;
  max_ctx = max_ctx;
  tokens_per_day = tokens_per_day;
}

abbrev pub default_limits : Dict String Limits
default_limits =
    ("ollama", limits 9999 9999999 99999999 0 32000 none)
    ∷ ("cerebras", limits 30 9999 60000 2 8000 (some 1000000))
    ∷ ("groq", limits 30 1000 6000 2 100000 none)
    ∷ ("nvidia", limits 40 9999 100000 2 100000 none)
    ∷ ("gemini", limits 15 1000 250000 4 1000000 none)
    ∷ ("openrouter", limits 20 50 99999999 3 100000 none)
    ∷ ("github", limits 10 50 99999999 6 8000 none)
    ∷ []

abbrev pub shortcuts : Dict String String
shortcuts =
    ("g", "gemini")
    ∷ ("gem", "gemini")
    ∷ ("gemini", "gemini")
    ∷ ("n", "nvidia")
    ∷ ("nv", "nvidia")
    ∷ ("nvidia", "nvidia")
    ∷ ("o", "ollama")
    ∷ ("oll", "ollama")
    ∷ ("ollama", "ollama")
    ∷ ("gr", "groq")
    ∷ ("groq", "groq")
    ∷ ("c", "cerebras")
    ∷ ("cer", "cerebras")
    ∷ ("cerebras", "cerebras")
    ∷ ("or", "openrouter")
    ∷ ("opr", "openrouter")
    ∷ ("openrouter", "openrouter")
    ∷ ("gh", "github")
    ∷ ("ghb", "github")
    ∷ ("github", "github")
    ∷ []

pub record RateState : Type 0 where
  pub calls_minute : List Time
  pub tokens_minute : List (Time × ℕ)
  pub calls_today : ℕ
  pub tokens_today : ℕ
  pub day_start : Time
  pub last_call : Time
  pub unavailable_until : Time
  pub unavailable_reason : String

abbrev pub day_of : Time → Time
day_of now = now - now % (86400 * second)

abbrev pub new_state : Time → RateState
new_state now = record {
  calls_minute = [];
  tokens_minute = [];
  calls_today = 0;
  tokens_today = 0;
  day_start = day_of now;
  last_call = 0;
  unavailable_until = 0;
  unavailable_reason = "";
}

-- `while q and q[0] < now - 60: q.popleft()`, on the queue's times
unfoldable pub drop_calls : Time → List Time → List Time
drop_calls now [] = []
drop_calls now (t ∷ ts) =
    let rest = drop_calls now ts in if ltb (t + 60 * second) now then rest else t ∷ ts

unfoldable pub drop_tokens : Time → List (Time × ℕ) → List (Time × ℕ)
drop_tokens now [] = []
drop_tokens now ((t, n) ∷ ts) =
    let rest = drop_tokens now ts in if ltb (t + 60 * second) now then rest else (t, n) ∷ ts

-- The first step of `gc`: a new day resets the day's counters.
unfoldable pub roll_day : Time → RateState → RateState
roll_day now st =
    if leb (st.day_start + 86400 * second) now
    then record st { calls_today = 0; tokens_today = 0; day_start = day_of now }
    else st

-- `gc`
unfoldable pub collect : Time → RateState → RateState
unfolding drop_calls drop_tokens roll_day
collect now st = record (roll_day now st) {
  calls_minute = drop_calls now st.calls_minute;
  tokens_minute = drop_tokens now st.tokens_minute;
}

unfoldable pub sum_tokens : List (Time × ℕ) → ℕ
sum_tokens [] = 0
sum_tokens ((t, n) ∷ ts) = n + sum_tokens ts

-- Why a provider is passed over, with the numbers of the message.
pub data Refusal : Type 0 where
  backoff : String → Time → Refusal
  cooling_down : Time → Refusal
  rpm_limit rpd_limit tpm_limit daily_token_cap : Refusal
  no_capability : String → Refusal
  prompt_too_long : ℕ → ℕ → Refusal

abbrev over_daily_cap : Option ℕ → ℕ → Bool
over_daily_cap none used = false
over_daily_cap (some cap) used = ltb cap used

-- The tests of `can_use` on a collected state; none where the provider can be used.
unfoldable pub refusal : Limits → ℕ → Time → RateState → Option Refusal
unfolding sum_tokens
refusal l est now st =
    if ltb now st.unavailable_until
    then some (backoff st.unavailable_reason (st.unavailable_until - now))
    else if ltb now (st.last_call + l.cooldown * second)
    then some (cooling_down (st.last_call + l.cooldown * second - now))
    else if leb l.rpm (length st.calls_minute)
    then some rpm_limit
    else if leb l.rpd st.calls_today
    then some rpd_limit
    else if ltb l.tpm (sum_tokens st.tokens_minute + est)
    then some tpm_limit
    else if over_daily_cap l.tokens_per_day (st.tokens_today + est)
    then some daily_token_cap
    else none

unfoldable pub can_use : Limits → ℕ → Time → RateState → Option Refusal × RateState
unfolding refusal collect
can_use l est now st = (refusal l est now (collect now st), collect now st)

-- `record`
unfoldable pub record_call : ℕ → Time → RateState → RateState
record_call tokens now st = record st {
  calls_minute = st.calls_minute ++ now ∷ [];
  tokens_minute = st.tokens_minute ++ (now, tokens) ∷ [];
  calls_today = st.calls_today + 1;
  tokens_today = st.tokens_today + tokens;
  last_call = now;
}

unfoldable pub mark_unavailable : Time → String → Time → RateState → RateState
mark_unavailable seconds reason now st = record st {
  unavailable_until = now + seconds;
  unavailable_reason = reason;
}

pub record Provider : Type 0 where
  pub model : String
  pub capabilities : Dict String Bool

pub record Router : Type 0 where
  pub providers : Dict String Provider
  pub order : List String
  pub state : Dict String RateState
