-- ===== src/Security/RateLimits/Tests.antt =====
-- The theorems on concrete calls.
use glc_v.Prelude.{
  ℕ, ◌*◌, ◌≤◌, String, ◌≡◌, refl, true, false, List, [], ◌∷◌, arith, ℕ-Eq, String-Eq, ×-Eq, List-Eq,
  second,
}
use glc_v.Prelude.Int.{pos}
use glc_v.Prelude.Dict.{lookup, insert}
use glc_v.Security.RateLimits.{
  RateLimiter, gc, new_limiter, limits_for, sweep_windows, sweep_locked, check, messages_kind,
}
use glc_v.Security.RateLimits.Spec.{Event, times, spec_run}
use glc_v.Security.RateLimits.Refinement.{step, run}
use glc_v.Security.RateLimits.Guarantees.{
  accepted, within_minute, verdicts-eq-spec, accepted_within_cap,
}

abbrev two_a_minute : RateLimiter
two_a_minute = new_limiter (pos 2) (pos 1)

abbrev message : String → ℕ → Event
message user t = record { channel = "slack"; user_id = user; kind = messages_kind; at = t * second }

abbrev burst : List Event
burst =
    message "ann" 100
    ∷ message "ann" 101
    ∷ message "ann" 102
    ∷ message "bob" 103
    ∷ message "ann" 160
    ∷ message "ann" 161
    ∷ message "ann" 162
    ∷ []

-- The fourth message of "ann" comes exactly 60 s after the first, which still counts.
run-burst : run two_a_minute burst ≡ true ∷ true ∷ false ∷ true ∷ false ∷ true ∷ true ∷ []
unfolding run step check sweep_locked sweep_windows gc limits_for lookup insert
run-burst = refl

verdicts-eq-spec_example : run two_a_minute burst ≡ spec_run (limits_for two_a_minute) [] burst
verdicts-eq-spec_example = verdicts-eq-spec two_a_minute refl burst (omega arith)

accepted_within_cap_example :
    within_minute
      (161 * second)
      (times ("slack", "ann") messages_kind (accepted two_a_minute burst))
    ≤ 2
unfolding limits_for lookup
accepted_within_cap_example =
    accepted_within_cap two_a_minute refl burst (omega arith) "slack" "ann" messages_kind
      (161 * second)

abbrev crowded : RateLimiter
crowded = record two_a_minute {
  windows =
      (("slack", "ann"), record { messages = 1 * second ∷ 95 * second ∷ []; tool_calls = [] })
      ∷ (("slack", "bob"), record { messages = 2 * second ∷ []; tool_calls = [] })
      ∷ [];
}
