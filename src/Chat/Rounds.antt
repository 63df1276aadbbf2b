-- ===== src/Chat/Rounds.antt =====
-- The cascade ends: how often a request can escalate.
use glc_v.Prelude.{
  ℕ, zero, suc, ◌+◌, ◌≤◌, ◌<◌, ◌≡◌, refl, sym, ap, subst, inl, inr, Bool, true, false, not, ◌&&◌,
  ◌||◌, Option, none, some, List, [], arith, Bool-cases, length, is_empty, ℕ-Eq, String-Eq, ×-Eq,
  List-Eq, Result, Result-cases, ok, raise,
}
use glc_v.Prelude.Dict.{Dict}
use glc_v.Text.{Text}
use glc_v.Tiers.{RoutingPolicy, or_text, given}
use glc_v.Tiers.Ladder.{role_spec}
use glc_v.Prelude.Floats.{Floats}
use glc_v.Tiers.Order.{Prices, is_some}
use glc_v.Tiers.Cascade.{
  Answer, Assessment, Verdict, assess, should_escalate, disabled, role_forbids, exhausted,
  at_the_top, nothing_fired, escalate_to,
}
use glc_v.Chat.{
  World, Request, Dispatch, Outcome, Reply, Turn, raised, passes_schema, act, follow_verdict,
  weigh_answer, take_answer, handle, turn_with, picked, turn, go_on, ring, give_up, go_up, rounds,
  answered, streaming, provider_error, exception, http_error, served, streamed, error, stop, leave,
  climb, next,
}

-- An escalation is allowed only below the limit.
should_escalate-below :
    {N : Type 0} (f : Floats N) (lower : Text → Text) (p : RoutingPolicy N) (role : Option Text)
    (tier : Text) (a : Assessment N) (so_far : ℕ) (up : Text) (why : List Text)
    → should_escalate f lower p role tier a so_far ≡ ok (escalate_to up why)
    → so_far < p.escalation.max_escalations
unfolding should_escalate
should_escalate-below f lower p role tier a so_far up why e =
    elim (Result-cases (role_spec p role)) [
      | inr (x, r) ↦ absurd (ground (arith, e, r))
      | inl (spec, r) ↦ ground (arith, e, r)
    ]

abbrev pub most_escalations : {N : Type 0} → Option (RoutingPolicy N) → ℕ
most_escalations none = 0
most_escalations (some p) = p.escalation.max_escalations

-- An answer that is served took no more escalations than are configured.
abbrev pub IsWithin : {N : Type 0} → Option (RoutingPolicy N) → Reply → Type 0
IsWithin pol (served name tier k) = k ≤ most_escalations pol
IsWithin pol (streamed name) = Unit
IsWithin pol (error code) = Unit

module _ {S N : Type 0} (w : World S) (f : Floats N) (prices : Prices N) (is_digit : ℕ → Bool)
    (lower : Text → Text) (available : Dict Text (Option Text)) (limits : Dict Text ℕ)
    (pol : Option (RoutingPolicy N)) (req : Request N) where
  -- What a turn at `e` escalations does to their number.
  abbrev Counts : ℕ → Turn S → Type 0
  Counts e (stop r) = IsWithin pol r
  Counts e (leave d) = Unit
  Counts e (next d) = d.escalations ≡ e
  Counts e (climb d) = (d.escalations ≡ e + 1) × (e < most_escalations pol)

  raised-Counts :
      (e : ℕ) (name : Text) (d : Dispatch S)
      → d.escalations ≡ e
      → Counts e (raised w f prices is_digit lower available limits pol req name d)
  raised-Counts e name d same = elim (Bool-cases req.explicit_override) [
    | inl y ↦ rw y tt
    | inr n ↦ rw n same
  ]

  act-Counts :
      (p : RoutingPolicy N) (name : Text) (d : Dispatch S) (v : Verdict)
      → d.escalations ≤ most_escalations pol
      → ((up : Text) (why : List Text)
          → v ≡ escalate_to up why
          → d.escalations < most_escalations pol)
      → Counts d.escalations (act w f prices is_digit lower available limits pol req p name d v)
  act-Counts p name d (escalate_to up why) le below =
      elim (Bool-cases (not req.no_escalation && is_some (given d.tier))) [
        | inl y ↦ rw y (refl, below up why refl)
        | inr n ↦ rw n le
      ]
  act-Counts p name d disabled le below = le
  act-Counts p name d role_forbids le below = le
  act-Counts p name d exhausted le below = le
  act-Counts p name d at_the_top le below = le
  act-Counts p name d (nothing_fired low) le below = le

  follow_verdict-Counts :
      (p : RoutingPolicy N) (name : Text) (d : Dispatch S) (r : Result Verdict)
      → d.escalations ≤ most_escalations pol
      → ((up : Text) (why : List Text)
          → r ≡ ok (escalate_to up why)
          → d.escalations < most_escalations pol)
      → Counts d.escalations
          (follow_verdict w f prices is_digit lower available limits pol req p name d r)
  follow_verdict-Counts p name d (raise x) le below = raised-Counts d.escalations name d refl
  follow_verdict-Counts p name d (ok v) le below =
      act-Counts p name d v le (λ up why e. below up why (ap ok e))

  weigh_answer-Counts :
      (found : Option (RoutingPolicy N)) (name : Text) (d : Dispatch S) (a : Answer)
      → pol ≡ found
      → d.escalations ≤ most_escalations pol
      → Counts d.escalations
          (weigh_answer w f prices is_digit lower available limits pol req found name d a)
  unfolding weigh_answer
  weigh_answer-Counts none name d a same le = le
  weigh_answer-Counts (some p) name d a same le =
      follow_verdict-Counts p name d
        (should_escalate f lower p req.auto_route (or_text d.tier [])
          (assess f lower p.escalation false (some a)) d.escalations)
        le
        (λ up why e.
          subst (λ q. d.escalations < most_escalations q) (sym same)
            (should_escalate-below f lower p req.auto_route (or_text d.tier [])
              (assess f lower p.escalation false (some a)) d.escalations up why e))

  take_answer-Counts :
      (name : Text) (d : Dispatch S) (a : Answer) (r : Result Bool)
      → d.escalations ≤ most_escalations pol
      → Counts d.escalations
          (take_answer w f prices is_digit lower available limits pol req name d a r)
  take_answer-Counts name d a (raise x) le = raised-Counts d.escalations name d refl
  take_answer-Counts name d a (ok false) le = tt
  take_answer-Counts name d a (ok true) le =
      weigh_answer-Counts pol name (record d { world = w.record_answer name d.world }) a refl le

  handle-Counts :
      (name : Text) (d : Dispatch S) (o : Outcome)
      → d.escalations ≤ most_escalations pol
      → Counts d.escalations (handle w f prices is_digit lower available limits pol req name d o)
  unfolding handle
  handle-Counts name d (answered a) le =
      take_answer-Counts name d a
        (passes_schema w f prices is_digit lower available limits pol req pol d a) le
  handle-Counts name d streaming le = tt
  handle-Counts name d exception le = raised-Counts d.escalations name d refl
  handle-Counts name d (http_error code) le = tt
  handle-Counts name d (provider_error retryable) le =
      elim (Bool-cases (req.explicit_override || not retryable)) [
        | inl y ↦ rw y tt
        | inr n ↦ rw n refl
      ]

  turn_with-Counts :
      (name : Text) (d : Dispatch S)
      → d.escalations ≤ most_escalations pol
      → Counts d.escalations (turn_with w f prices is_digit lower available limits pol req name d)
  unfolding turn_with
  turn_with-Counts name d le =
      let (admitted, s) = w.admit name d.world in
      let (o, t) = w.call name d.tier s in
      elim (Bool-cases admitted) [
        | inl y ↦ rw (y, turn_with) (handle-Counts name (record d { world = t }) o le)
        | inr n ↦ rw (n, turn_with) refl
      ]

  picked-Counts :
      (d : Dispatch S) (o : Option Text)
      → d.escalations ≤ most_escalations pol
      → Counts d.escalations (picked w f prices is_digit lower available limits pol req d o)
  picked-Counts d none le = tt
  picked-Counts d (some name) le = turn_with-Counts name d le

  go_on-Counts :
      (e : ℕ) (again : Dispatch S → Turn S) (t : Turn S)
      → Counts e t
      → ((d : Dispatch S) → d.escalations ≡ e → Counts e (again d))
      → Counts e (go_on w f prices is_digit lower available limits pol req again t)
  go_on-Counts e again (stop r) h k = h
  go_on-Counts e again (leave d) h k = h
  go_on-Counts e again (climb d) h k = h
  go_on-Counts e again (next d) h k = k d h

  ring-Counts :
      (n : ℕ) (d : Dispatch S)
      → d.escalations ≤ most_escalations pol
      → Counts d.escalations (ring w f prices is_digit lower available limits pol req n d)
  unfolding ring turn
  ring-Counts zero d le = tt
  ring-Counts (suc n) d le =
      let (o, s) = w.pick d.candidates d.world in
      go_on-Counts d.escalations (ring w f prices is_digit lower available limits pol req n)
        (turn w f prices is_digit lower available limits pol req d)
        (picked-Counts (record d { world = s }) o le)
        (λ d' same.
          subst (λ e. Counts e (ring w f prices is_digit lower available limits pol req n d')) same
            (ring-Counts n d' (subst (λ e. e ≤ most_escalations pol) (sym same) le)))

  give_up-IsWithin :
      (d : Dispatch S) → IsWithin pol (give_up w f prices is_digit lower available limits pol req d)
  give_up-IsWithin d = elim (Bool-cases (d.refused && not d.failed)) [
    | inl y ↦ rw y tt
    | inr n ↦ rw n tt
  ]

  abbrev Ends : Option Reply → Type 0
  Ends o = (r : Reply) × (o ≡ some r) × IsWithin pol r

  go_up-Ends :
      (e : ℕ) (again : Dispatch S → Option Reply) (t : Turn S)
      → Counts e t
      → ((d : Dispatch S) → d.escalations ≡ e + 1 → e < most_escalations pol → Ends (again d))
      → Ends (go_up w f prices is_digit lower available limits pol req again t)
  go_up-Ends e again (stop r) h k = (r, refl, h)
  go_up-Ends e again (leave d) h k =
      (give_up w f prices is_digit lower available limits pol req d, refl, give_up-IsWithin d)
  go_up-Ends e again (next d) h k =
      (give_up w f prices is_digit lower available limits pol req d, refl, give_up-IsWithin d)
  go_up-Ends e again (climb d) (up, below) k = elim (Bool-cases (is_empty d.candidates)) [
    | inl y ↦ (
      give_up w f prices is_digit lower available limits pol req d,
      rw y refl,
      give_up-IsWithin d,
    )
    | inr n ↦ rw n (k d up below)
  ]

  rounds-Ends :
      (n : ℕ) (d : Dispatch S)
      → d.escalations ≤ most_escalations pol
      → most_escalations pol < n + d.escalations
      → Ends (rounds w f prices is_digit lower available limits pol req n d)
  unfolding rounds
  rounds-Ends zero d le fuel = absurd (omega (arith, le, fuel))
  rounds-Ends (suc n) d le fuel =
      go_up-Ends d.escalations (rounds w f prices is_digit lower available limits pol req n)
        (ring w f prices is_digit lower available limits pol req (length d.candidates + 1) d)
        (ring-Counts (length d.candidates + 1) d le)
        (λ d' up below. rounds-Ends n d' (omega (arith, up, below)) (omega (arith, up, fuel)))

  -- The cascade ends whatever the router, the budget, the providers and their answers do: from a start
  -- without escalations the outer loop runs at most once more than the configured number of
  -- escalations, and an answer that is served took no more of them.
  pub rounds_end :
      (d : Dispatch S)
      → d.escalations ≡ 0
      → (r : Reply) × (rounds w f prices is_digit lower available limits pol req
            (most_escalations pol + 1)
            d
          ≡ some r)
        × IsWithin pol r
  rounds_end d start =
      rounds-Ends (most_escalations pol + 1) d (omega (arith, start)) (omega (arith, start))
