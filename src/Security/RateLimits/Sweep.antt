-- ===== src/Security/RateLimits/Sweep.antt =====
-- `_sweep_locked`: what a sweep drops, and that it is invisible to every later check.
use glc_v.Security.RateLimits.Expiry.{IsAscending, gc-recent}
use glc_v.Prelude.{
  ◌-◌, ◌*◌, ◌≤◌, ◌≡◌, refl, ◌≢◌, ◌↔◌, ◌⊎◌, true, false, none, List, [], ◌∷◌, arith, ltb, is_empty,
  All, ◌==◌, ℕ-Eq, String-Eq, ×-Eq, List-Eq, Time, second,
}
use glc_v.Prelude.Dict.{Dict, lookup, DistinctKeys}
use glc_v.Security.RateLimits.{
  Window, RateLimiter, minute_before, Kind, gc, Key, sweep_windows, sweep_locked, queue,
  window_or_new, messages_kind, tool_calls_kind,
}

abbrev pub queue_at : Key → Kind → Dict Key Window → List Time
queue_at k kind d = queue kind (window_or_new (lookup k d))

sweep-lookup-none :
    (k : Key) (h : Time) (d : Dict Key Window)
    → lookup k d ≡ none
    → lookup k (sweep_windows h d) ≡ none
unfolding lookup sweep_windows
sweep-lookup-none k h [] e = refl
sweep-lookup-none k h ((j, w) ∷ d) e = ground (arith, sweep-lookup-none k h d)

pub sweep-DistinctKeys :
    (h : Time) (d : Dict Key Window) → DistinctKeys d → DistinctKeys (sweep_windows h d)
unfolding sweep_windows
sweep-DistinctKeys h [] u = tt
sweep-DistinctKeys h ((k, w) ∷ d) u =
    ground (arith, sweep-DistinctKeys h d u.1, sweep-lookup-none k h d u.0)

gc-empty : (h : Time) → gc [] h ≡ []
unfolding gc
gc-empty h = refl

is_empty_eq : (l : List Time) → is_empty l ≡ true → l ≡ []
is_empty_eq [] e = refl
is_empty_eq (x ∷ l) e = ground arith

pub key_eq_iff : (j k : Key) → ((j == k) ≡ true) ↔ (j ≡ k)
key_eq_iff = ×-Eq.eqb_iff

-- A swept queue is the queue after `_gc`, also where the window has been dropped.
pub queue-sweep :
    (k : Key) (kind : Kind) (h : Time) (d : Dict Key Window)
    → DistinctKeys d
    → queue_at k kind (sweep_windows h d) ≡ gc (queue_at k kind d) h
unfolding lookup sweep_windows
queue-sweep k messages_kind h [] u = ground (arith, gc-empty h)
queue-sweep k tool_calls_kind h [] u = ground (arith, gc-empty h)
queue-sweep k messages_kind h ((j, w) ∷ d) u = ground (
  arith,
  key_eq_iff j k,
  sweep-lookup-none k h d,
  queue-sweep k messages_kind h d u.1,
  gc-empty h,
  is_empty_eq (gc w.messages h),
  is_empty_eq (gc w.tool_calls h),
)
queue-sweep k tool_calls_kind h ((j, w) ∷ d) u = ground (
  arith,
  key_eq_iff j k,
  sweep-lookup-none k h d,
  queue-sweep k tool_calls_kind h d u.1,
  gc-empty h,
  is_empty_eq (gc w.messages h),
  is_empty_eq (gc w.tool_calls h),
)

-- A window with something recent in it.
abbrev pub IsLive : Time → Window → Type 0
IsLive h w =
    All (λ t. h ≤ t) w.messages
    × All (λ t. h ≤ t) w.tool_calls
    × ((w.messages ≢ []) ⊎ (w.tool_calls ≢ []))

abbrev pub IsOrdered : Window → Type 0
IsOrdered w = IsAscending w.messages × IsAscending w.tool_calls

is_empty_ne : (l : List Time) → is_empty l ≡ false → l ≢ []
is_empty_ne [] e = ground arith
is_empty_ne (x ∷ l) e = ground arith

sweep_windows-IsLive :
    (h : Time) (d : Dict Key Window)
    → All (λ p. IsOrdered p.1) d
    → All (λ p. IsLive h p.1) (sweep_windows h d)
unfolding sweep_windows
sweep_windows-IsLive h [] o = tt
sweep_windows-IsLive h ((k, w) ∷ d) o = ground (
  arith,
  gc-recent w.messages h o.0.0,
  gc-recent w.tool_calls h o.0.1,
  is_empty_ne (gc w.messages h),
  is_empty_ne (gc w.tool_calls h),
  sweep_windows-IsLive h d o.1,
)

-- A sweep that is due, over windows with ascending queues, keeps exactly windows that hold an event
-- of the last minute, and nothing older in them: what no longer counts is not retained.
pub sweep-IsLive :
    (s : RateLimiter) (now : Time)
    → 60 * second ≤ now - s.last_sweep
    → All (λ p. IsOrdered p.1) s.windows
    → All (λ p. IsLive (minute_before now) p.1) (sweep_locked s now).windows
unfolding sweep_locked
sweep-IsLive s now due o =
    let test : ltb (now - s.last_sweep) (60 * second) ≡ false = ground arith in
    rw test (sweep_windows-IsLive (minute_before now) s.windows o)
