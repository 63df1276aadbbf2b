-- ===== src/Security/RateLimits.antt =====
-- glc/security/rate_limits.py: sliding windows of 60 seconds for each (channel, user).
-- The clock `time.time()` is an argument of each call, in whole microseconds, so `now - 60` is a
-- truncated subtraction: `t < now - 60` and `t + 60 < now` agree on it.
pub mod Config
pub mod Expiry
pub mod Spec
pub mod Refinement
pub mod Guarantees
pub mod Sweep
mod Tests
use glc_v.Prelude.{
  ◌-◌, ◌*◌, String, Bool, true, false, ◌&&◌, Option, none, some, List, [], ◌∷◌, ◌++◌, ltb,
  if◌then◌else◌, length, is_empty, ℕ-Eq, String-Eq, ×-Eq, List-Eq, Time, second,
}
use glc_v.Prelude.Int.{ℤ, leb_ℤ, pos}
use glc_v.Prelude.Dict.{Dict, lookup, insert}

-- The window that a cap is about: `now - 60`.
abbrev pub minute_before : Time → Time
minute_before now = now - 60 * second

pub record Window : Type 0 where
  pub messages : List Time
  pub tool_calls : List Time

abbrev pub empty_window : Window
empty_window = record { messages = []; tool_calls = [] }

-- `kind`, which the callers pass as one of two strings
pub data Kind : Type 0 where
  messages_kind tool_calls_kind : Kind

-- `while dq and dq[0] < horizon: dq.popleft()`
unfoldable pub gc : List Time → Time → List Time
gc [] horizon = []
gc (t ∷ ts) horizon = let rest = gc ts horizon in if ltb t horizon then rest else t ∷ ts

pub record Limits : Type 0 where
  pub messages_per_minute : ℤ
  pub tool_calls_per_minute : ℤ

abbrev pub Key : Type 0
Key = String × String

pub record RateLimiter : Type 0 where
  pub default_mpm : ℤ
  pub default_tpm : ℤ
  pub per_channel : Dict String Limits
  pub windows : Dict Key Window
  pub last_sweep : Time

abbrev pub new_limiter : ℤ → ℤ → RateLimiter
new_limiter mpm tpm = record {
  default_mpm = mpm;
  default_tpm = tpm;
  per_channel = [];
  windows = [];
  last_sweep = 0;
}

unfoldable pub limits_for : RateLimiter → String → Limits
limits_for s channel = elim (lookup channel s.per_channel) [
  | some cfg ↦ cfg
  | none ↦ record { messages_per_minute = s.default_mpm; tool_calls_per_minute = s.default_tpm }
]

-- One round of the loop of `_sweep_locked`, with the deletion that follows for a dead window.
pub sweep_windows : Time → Dict Key Window → Dict Key Window
sweep_windows horizon [] = []
sweep_windows horizon ((k, w) ∷ d) =
    let ms = gc w.messages horizon in
    let ts = gc w.tool_calls horizon in
    let rest = sweep_windows horizon d in
    if is_empty ms && is_empty ts
    then rest
    else (k, record { messages = ms; tool_calls = ts }) ∷ rest

unfoldable pub sweep_locked : RateLimiter → Time → RateLimiter
sweep_locked s now =
    if ltb (now - s.last_sweep) (60 * second)
    then s
    else record s { last_sweep = now; windows = sweep_windows (minute_before now) s.windows }

abbrev pub queue : Kind → Window → List Time
queue messages_kind w = w.messages
queue tool_calls_kind w = w.tool_calls

abbrev pub set_queue : Kind → List Time → Window → Window
set_queue messages_kind q w = record w { messages = q }
set_queue tool_calls_kind q w = record w { tool_calls = q }

abbrev pub cap_of : Kind → Limits → ℤ
cap_of messages_kind l = l.messages_per_minute
cap_of tool_calls_kind l = l.tool_calls_per_minute

-- `self._state.setdefault(key, _Window())`, as the window that it returns
abbrev pub window_or_new : Option Window → Window
window_or_new none = empty_window
window_or_new (some w) = w

-- The parts of the message of a refusal.
pub data Reason : Type 0 where
  within_limit : Reason
  limit_exceeded : Kind → ℤ → String → String → Reason

unfoldable pub check : RateLimiter → String → String → Kind → Time → (Bool × Reason) × RateLimiter
check s channel user_id kind now =
    let cap = cap_of kind (limits_for s channel) in
    let swept = sweep_locked s now in
    let win = window_or_new (lookup (channel, user_id) swept.windows) in
    let dq = gc (queue kind win) (minute_before now) in
    let store : List Time → RateLimiter = λ q. record swept {
      windows = insert (channel, user_id) (set_queue kind q win) swept.windows;
    } in
    if leb_ℤ cap (pos (length dq))
    then ((false, limit_exceeded kind cap channel user_id), store dq)
    else ((true, within_limit), store (dq ++ now ∷ []))

unfoldable pub check_message : RateLimiter → String → String → Time → (Bool × Reason) × RateLimiter
check_message s channel user_id now = check s channel user_id messages_kind now

pub check_tool_call : RateLimiter → String → String → Time → (Bool × Reason) × RateLimiter
check_tool_call s channel user_id now = check s channel user_id tool_calls_kind now
