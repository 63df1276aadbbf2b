-- ===== src/Security/RateLimits/Refinement.antt =====
-- The limiter with its queues, expiry and sweeps gives the verdicts of `Spec`, for any sequence of
-- calls at times that do not run backwards.
use glc_v.Prelude.{
  ◌-◌, ◌*◌, ◌≤◌, String, ◌≡◌, refl, sym, ◌∙◌, inl, inr, Bool, true, false, ◌&&◌, List, [], ◌∷◌,
  ◌++◌, arith, ltb, if◌then◌else◌, Bool-cases, All, All-append, ◌==◌, ℕ-Eq, String-Eq, ×-Eq,
  List-Eq, Time, second,
}
use glc_v.Prelude.Dict.{Dict, lookup, insert, lookup-insert, DistinctKeys, insert-DistinctKeys}
use glc_v.Security.RateLimits.{
  Window, Limits, RateLimiter, minute_before, Kind, gc, Key, limits_for, sweep_locked, set_queue,
  window_or_new, check, messages_kind, tool_calls_kind,
}
use glc_v.Security.RateLimits.Expiry.{
  gc-gc, gc-append_congr, IsAscending, length-gc, append-IsAscending,
}
use glc_v.Security.RateLimits.Sweep.{queue_at, sweep-DistinctKeys, key_eq_iff, queue-sweep}
use glc_v.Security.RateLimits.Spec.{
  Event, kind_eq, kind_eq_iff, is_about, times, times-All, admits, remember, admitted,
}

-- One call of the limiter for each event.
unfoldable pub step : RateLimiter → Event → Bool × RateLimiter
step s e = let (r, s') = check s e.channel e.user_id e.kind e.at in (r.0, s')

unfoldable pub run : RateLimiter → List Event → List Bool
run s [] = []
run s (e ∷ es) = let (v, s') = step s e in v ∷ run s' es

-- What a write of one queue shows at every key and kind.
queue-write :
    (key k : Key) (kind kind' : Kind) (q : List Time) (d : Dict Key Window)
    → queue_at k kind' (insert key (set_queue kind q (window_or_new (lookup key d))) d)
      ≡ (if key == k && kind_eq kind kind' then q else queue_at k kind' d)
queue-write key k messages_kind messages_kind q d =
    simp lookup-insert (ground (arith, key_eq_iff key k))
queue-write key k messages_kind tool_calls_kind q d =
    simp lookup-insert (ground (arith, key_eq_iff key k))
queue-write key k tool_calls_kind messages_kind q d =
    simp lookup-insert (ground (arith, key_eq_iff key k))
queue-write key k tool_calls_kind tool_calls_kind q d =
    simp lookup-insert (ground (arith, key_eq_iff key k))

pub times-snoc :
    (k : Key) (kind : Kind) (log : List Event) (e : Event)
    → times k kind (log ++ e ∷ [])
      ≡ (if is_about k kind e then times k kind log ++ e.at ∷ [] else times k kind log)
unfolding times
times-snoc k kind [] e = ground arith
times-snoc k kind (x ∷ log) e = ground (arith, times-snoc k kind log e)

empty_queue :
    (k : Key) (kind : Kind) (h : Time) → gc (queue_at k kind []) h ≡ gc (times k kind []) h
unfolding times lookup
empty_queue k messages_kind h = refl
empty_queue k tool_calls_kind h = refl

module _ (limits : String → Limits) where
  -- The queues of `s` and the remembered events agree on everything that can still count.
  pub record Represents (now : Time) (s : RateLimiter) (log : List Event) : Type 0 where
    pub config : (c : String) → limits_for s c ≡ limits c
    pub distinct : DistinctKeys s.windows
    pub queues :
        (k : Key) (kind : Kind) (h : Time)
        → minute_before now ≤ h
        → gc (queue_at k kind s.windows) h ≡ gc (times k kind log) h
    pub ordered : (k : Key) (kind : Kind) → IsAscending (times k kind log)
    pub past : All (λ e. e.at ≤ now) log

  past_later :
      (m n : Time) (log : List Event) → m ≤ n → All (λ e. e.at ≤ m) log → All (λ e. e.at ≤ n) log
  past_later m n [] le h = tt
  past_later m n (e ∷ es) le h = (omega arith, past_later m n es le h.1)

  sweep-Represents :
      {now : Time} {s : RateLimiter} {log : List Event} (later : Time)
      → now ≤ later
      → Represents now s log
      → Represents later (sweep_locked s later) log
  unfolding sweep_locked limits_for
  sweep-Represents {now} {s} {log} later le r =
      elim (Bool-cases (ltb (later - s.last_sweep) (60 * second))) [
        | inl early ↦ rw early (record {
          config = r.config;
          distinct = r.distinct;
          queues = λ k kind h p. r.queues k kind h (omega arith);
          ordered = r.ordered;
          past = past_later now later log le r.past;
        })
        | inr due ↦ rw due (record {
          config = r.config;
          distinct = sweep-DistinctKeys (minute_before later) s.windows r.distinct;
          queues = λ k kind h p.
              rw (queue-sweep k kind (minute_before later) s.windows r.distinct) (
                gc-gc (queue_at k kind s.windows) (minute_before later) h p
                ∙ r.queues k kind h (omega arith));
          ordered = r.ordered;
          past = past_later now later log le r.past;
        })
      ]

  pub check-admits :
      {now : Time} {s : RateLimiter} {log : List Event} (e : Event)
      → now ≤ e.at
      → Represents now s log
      → (step s e).0 ≡ admits limits log e
  unfolding step check admits
  check-admits {now} {s} {log} e le r =
      let swept = sweep-Represents e.at le r in
      ground (
        arith,
        r.config e.channel,
        swept.queues (e.channel, e.user_id) e.kind (minute_before e.at) (omega arith),
        length-gc (times (e.channel, e.user_id) e.kind log) (minute_before e.at)
            (swept.ordered (e.channel, e.user_id) e.kind),
      )

  -- The window that a call works on, after the sweep and the expiry.
  fresh_queue : RateLimiter → Event → List Time
  fresh_queue s e =
      gc (queue_at (e.channel, e.user_id) e.kind (sweep_locked s e.at).windows) (minute_before e.at)

  store_queue : RateLimiter → Event → List Time → RateLimiter
  store_queue s e q =
      let swept = sweep_locked s e.at in
      let key : Key = (e.channel, e.user_id) in
      record swept {
        windows =
            insert key (set_queue e.kind q (window_or_new (lookup key swept.windows)))
              swept.windows;
      }

  step_state :
      (s : RateLimiter) (e : Event)
      → (step s e).1
        ≡ store_queue s e (if (step s e).0 then fresh_queue s e ++ e.at ∷ [] else fresh_queue s e)
  unfolding step check store_queue fresh_queue
  step_state s e = ground arith

  store-Represents :
      (s : RateLimiter) (log log' : List Event) (e : Event) (q : List Time)
      → Represents e.at (sweep_locked s e.at) log
      → ((k : Key) (kind : Kind) (h : Time)
          → minute_before e.at ≤ h
          → gc
              (if (e.channel, e.user_id) == k && kind_eq e.kind kind
                then q
                else queue_at k kind (sweep_locked s e.at).windows)
              h
            ≡ gc (times k kind log') h)
      → ((k : Key) (kind : Kind) → IsAscending (times k kind log'))
      → All (λ x. x.at ≤ e.at) log'
      → Represents e.at (store_queue s e q) log'
  unfolding store_queue limits_for
  store-Represents s log log' e q r agree ordered past = record {
    config = r.config;
    distinct = insert-DistinctKeys _ _ (sweep_locked s e.at).windows r.distinct;
    queues = λ k kind h p. rw queue-write (agree k kind h p);
    ordered = ordered;
    past = past;
  }

  refuse-Represents :
      {now : Time} {s : RateLimiter} {log : List Event} (e : Event)
      → now ≤ e.at
      → Represents now s log
      → Represents e.at (store_queue s e (fresh_queue s e)) log
  unfolding fresh_queue
  refuse-Represents {now} {s} {log} e le r =
      let swept = sweep-Represents e.at le r in
      store-Represents s log log e _ swept
        (λ k kind h p. ground (
          arith,
          key_eq_iff (e.channel, e.user_id) k,
          kind_eq_iff e.kind kind,
          gc-gc (queue_at k kind (sweep_locked s e.at).windows) (minute_before e.at) h p,
          swept.queues k kind h p,
        ))
        swept.ordered swept.past

  accept-Represents :
      {now : Time} {s : RateLimiter} {log : List Event} (e : Event)
      → now ≤ e.at
      → Represents now s log
      → Represents e.at (store_queue s e (fresh_queue s e ++ e.at ∷ [])) (log ++ e ∷ [])
  unfolding fresh_queue
  accept-Represents {now} {s} {log} e le r =
      let swept = sweep-Represents e.at le r in
      store-Represents s log (log ++ e ∷ []) e _ swept
        (λ k kind h p. ground (
          arith,
          key_eq_iff (e.channel, e.user_id) k,
          kind_eq_iff e.kind kind,
          gc-gc (queue_at k kind (sweep_locked s e.at).windows) (minute_before e.at) h p,
          swept.queues k kind h p,
          times-snoc k kind log e,
          gc-append_congr (gc (queue_at k kind (sweep_locked s e.at).windows) (minute_before e.at))
              (times k kind log) e.at h,
        ))
        (λ k kind. ground (
          arith,
          times-snoc k kind log e,
          swept.ordered k kind,
          append-IsAscending (times k kind log) e.at (swept.ordered k kind)
              (times-All (λ t. t ≤ e.at) k kind log swept.past),
        ))
        (All-append (λ x. x.at ≤ e.at) log (e ∷ []) swept.past (omega arith, tt))

  -- A call leads to a state that represents the remembered events.
  pub step-Represents :
      {now : Time} {s : RateLimiter} {log : List Event} (e : Event)
      → now ≤ e.at
      → Represents now s log
      → Represents e.at (step s e).1 (remember limits log e)
  unfolding remember
  step-Represents {now} {s} {log} e le r = elim (Bool-cases (step s e).0) [
    | inl admitted ↦
        let spec : admits limits log e ≡ true = sym (check-admits e le r) ∙ admitted in
        rw (step_state, admitted, spec) (accept-Represents e le r)
    | inr refused ↦
        let spec : admits limits log e ≡ false = sym (check-admits e le r) ∙ refused in
        rw (step_state, refused, spec) (refuse-Represents e le r)
  ]

  pub fresh-Represents :
      (s : RateLimiter)
      → ((c : String) → limits_for s c ≡ limits c)
      → s.windows ≡ []
      → Represents 0 s []
  unfolding times lookup
  fresh-Represents s config none_yet = record {
    config = config;
    distinct = rw none_yet tt;
    queues = λ k kind h p. rw none_yet (empty_queue k kind h);
    ordered = λ k kind. tt;
    past = tt;
  }
