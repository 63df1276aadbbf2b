-- ===== src/Security/RateLimits/Spec.antt =====
-- What a limiter promises, with no queue, no sweep and no clean-up: it remembers every admitted
-- event, and admits one more while fewer than the cap lie in the last minute.
use glc_v.Prelude.{
  ◌≤◌, String, ◌≡◌, refl, ◌↔◌, Bool, true, false, ◌&&◌, List, [], ◌∷◌, ◌++◌, arith, if◌then◌else◌,
  All, ◌==◌, ℕ-Eq, String-Eq, ×-Eq, List-Eq, Time,
}
use glc_v.Prelude.Int.{leb_ℤ, pos}
use glc_v.Security.RateLimits.Expiry.{recent}
use glc_v.Security.RateLimits.{
  Limits, minute_before, Kind, Key, cap_of, messages_kind, tool_calls_kind,
}

pub record Event : Type 0 where
  pub channel : String
  pub user_id : String
  pub kind : Kind
  pub at : Time

abbrev pub kind_eq : Kind → Kind → Bool
kind_eq messages_kind messages_kind = true
kind_eq tool_calls_kind tool_calls_kind = true
kind_eq _ _ = false

pub kind_eq_iff : (a b : Kind) → (kind_eq a b ≡ true) ↔ (a ≡ b)
kind_eq_iff messages_kind messages_kind = ground arith
kind_eq_iff messages_kind tool_calls_kind = ground arith
kind_eq_iff tool_calls_kind messages_kind = ground arith
kind_eq_iff tool_calls_kind tool_calls_kind = ground arith

abbrev pub is_about : Key → Kind → Event → Bool
is_about k kind e = (e.channel, e.user_id) == k && kind_eq e.kind kind

-- The times of the events of one sender and one kind, oldest first.
unfoldable pub times : Key → Kind → List Event → List Time
times k kind [] = []
times k kind (e ∷ es) =
    let rest = times k kind es in if is_about k kind e then e.at ∷ rest else rest

pub times-append :
    (k : Key) (kind : Kind) (es fs : List Event)
    → times k kind (es ++ fs) ≡ times k kind es ++ times k kind fs
unfolding times
times-append k kind [] fs = refl
times-append k kind (e ∷ es) fs = ground (arith, times-append k kind es fs)

pub times-All :
    (P : Time → Type 0) (k : Key) (kind : Kind) (es : List Event)
    → All (λ e. P e.at) es
    → All P (times k kind es)
unfolding times
times-All P k kind [] h = tt
times-All P k kind (e ∷ es) h = ground (arith, times-All P k kind es h.1)

module _ (limits : String → Limits) where
  unfoldable pub admits : List Event → Event → Bool
  admits log e =
      let cap = cap_of e.kind (limits e.channel) in
      if leb_ℤ cap (pos (recent (minute_before e.at) (times (e.channel, e.user_id) e.kind log)))
      then false
      else true

  unfoldable pub remember : List Event → Event → List Event
  remember log e = if admits log e then log ++ e ∷ [] else log

  -- The verdicts on a sequence of events.
  unfoldable pub spec_run : List Event → List Event → List Bool
  spec_run log [] = []
  spec_run log (e ∷ es) = admits log e ∷ spec_run (remember log e) es

  -- What has been admitted in the end.
  unfoldable pub admitted : List Event → List Event → List Event
  admitted log [] = log
  admitted log (e ∷ es) = admitted (remember log e) es

-- Times that never run backwards, from `t` on.
abbrev pub IsChronological : Time → List Event → Type 0
IsChronological t [] = Unit
IsChronological t (e ∷ es) = (t ≤ e.at) × IsChronological e.at es
