-- ===== src/Security/RateLimits/Guarantees.antt =====
-- What the rate limiter guarantees to the gateway.
use mathlib.Core.Path.{ap₂}
use mathlib.Core.List.{append-nil, append_assoc}
use glc_v.Prelude.{
  ℕ, ◌+◌, ◌≤◌, String, ◌≡◌, refl, sym, ◌∙◌, Bool, true, false, ◌&&◌, List, [], ◌∷◌, ◌++◌, arith,
  leb, if◌then◌else◌, length, keep, ℕ-Eq, String-Eq, ×-Eq, List-Eq, Time,
}
use glc_v.Prelude.Int.{pos_part}
use glc_v.Security.RateLimits.{Limits, RateLimiter, minute_before, Kind, Key, limits_for, cap_of}
use glc_v.Security.RateLimits.Expiry.{recent}
use glc_v.Security.RateLimits.Sweep.{key_eq_iff}
use glc_v.Security.RateLimits.Spec.{
  Event, kind_eq_iff, times, admits, remember, spec_run, admitted, IsChronological,
}
use glc_v.Security.RateLimits.Refinement.{
  Represents, step, run, times-snoc, check-admits, step-Represents, fresh-Represents,
}

-- The events that the limiter lets pass.
pub accepted : RateLimiter → List Event → List Event
accepted s [] = []
accepted s (e ∷ es) =
    let (v, s') = step s e in let rest = accepted s' es in if v then e ∷ rest else rest

-- The number of times within the minute that ends at `t`.
abbrev pub within_minute : Time → List Time → ℕ
within_minute t ts = length (keep (λ u. leb (minute_before t) u && leb u t) ts)

within-le-recent :
    (t h : Time) (ts : List Time) → h ≤ minute_before t → within_minute t ts ≤ recent h ts
within-le-recent t h [] le = omega arith
within-le-recent t h (u ∷ ts) le = ground (arith, within-le-recent t h ts le)

within-snoc :
    (t u : Time) (ts : List Time)
    → within_minute t (ts ++ u ∷ [])
      ≡ within_minute t ts + (if leb (minute_before t) u && leb u t then 1 else 0)
within-snoc t u [] = ground arith
within-snoc t u (x ∷ ts) = ground (arith, within-snoc t u ts)

module _ (limits : String → Limits) where
  run-eq-spec_run :
      {now : Time} {s : RateLimiter} {log : List Event} (es : List Event)
      → IsChronological now es
      → Represents limits now s log
      → run s es ≡ spec_run limits log es
  unfolding run spec_run
  run-eq-spec_run [] c r = refl
  run-eq-spec_run {now = now} {s = s} {log = log} (e ∷ es) c r =
      ap₂ ◌∷◌ (check-admits limits e c.0 r)
        (run-eq-spec_run {now = e.at} es c.1 (step-Represents limits e c.0 r))

  remember_if :
      {now : Time} {s : RateLimiter} {log : List Event} (e : Event) (rest : List Event)
      → now ≤ e.at
      → Represents limits now s log
      → log ++ (if (step s e).0 then e ∷ rest else rest) ≡ remember limits log e ++ rest
  unfolding remember
  remember_if {log = log} e rest le r =
      rw (check-admits limits e le r) (split (admits limits log e))
    where
      split :
          (b : Bool)
          → log ++ (if b then e ∷ rest else rest) ≡ (if b then log ++ e ∷ [] else log) ++ rest
      split true = sym (append_assoc log (e ∷ []) rest)
      split false = refl

  accepted-eq-admitted :
      {now : Time} {s : RateLimiter} {log : List Event} (es : List Event)
      → IsChronological now es
      → Represents limits now s log
      → log ++ accepted s es ≡ admitted limits log es
  unfolding accepted admitted
  accepted-eq-admitted {log = log} [] c r = append-nil log
  accepted-eq-admitted {now = now} {s = s} {log = log} (e ∷ es) c r =
      remember_if e (accepted (step s e).1 es) c.0 r
      ∙ accepted-eq-admitted {now = e.at} es c.1 (step-Represents limits e c.0 r)

  -- No minute holds more events of one sender and kind than the cap.
  abbrev IsPaced : List Event → Type 0
  IsPaced log =
      (k : Key) (kind : Kind) (t : Time)
      → within_minute t (times k kind log) ≤ pos_part (cap_of kind (limits k.0))

  remember-IsPaced :
      {now : Time} {s : RateLimiter} {log : List Event} (e : Event)
      → now ≤ e.at
      → Represents limits now s log
      → IsPaced log
      → IsPaced (remember limits log e)
  unfolding remember admits
  remember-IsPaced {log = log} e le r paced k kind t = ground (
    arith,
    paced k kind t,
    key_eq_iff (e.channel, e.user_id) k,
    kind_eq_iff e.kind kind,
    times-snoc k kind log e,
    within-snoc t e.at (times k kind log),
    within-le-recent t (minute_before e.at) (times k kind log),
  )

  admitted-IsPaced :
      {now : Time} {s : RateLimiter} {log : List Event} (es : List Event)
      → IsChronological now es
      → Represents limits now s log
      → IsPaced log
      → IsPaced (admitted limits log es)
  unfolding admitted
  admitted-IsPaced [] c r paced = paced
  admitted-IsPaced {now = now} {s = s} {log = log} (e ∷ es) c r paced =
      admitted-IsPaced {now = e.at} es c.1 (step-Represents limits e c.0 r)
        (remember-IsPaced e c.0 r paced)

  none-IsPaced : IsPaced []
  unfolding times
  none-IsPaced k kind t = omega arith

module _ (s : RateLimiter) (none_yet : s.windows ≡ []) (es : List Event)
    (c : IsChronological 0 es) where
  -- From a limiter with no windows yet, calls at times that do not run backwards get exactly the
  -- verdicts of the specification, which keeps every admitted event and never sweeps.
  pub verdicts-eq-spec : run s es ≡ spec_run (limits_for s) [] es
  verdicts-eq-spec =
      run-eq-spec_run (limits_for s) es c (fresh-Represents (limits_for s) s (λ _. refl) none_yet)

  -- From a limiter with no windows yet, for calls at times that do not run backwards: within any
  -- minute (both ends included) at most the channel's cap of events of one kind are let through
  -- for one sender, and none if the cap is negative.
  pub accepted_within_cap :
      (channel user_id : String) (kind : Kind) (t : Time)
      → within_minute t (times (channel, user_id) kind (accepted s es))
        ≤ pos_part (cap_of kind (limits_for s channel))
  accepted_within_cap channel user_id kind t =
      let r = fresh-Represents (limits_for s) s (λ _. refl) none_yet in
      rw (accepted-eq-admitted (limits_for s) es c r) (
        admitted-IsPaced (limits_for s) es c r (none-IsPaced (limits_for s)) (channel, user_id) kind
          t)
