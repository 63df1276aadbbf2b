-- ===== src/Routing/Admitted.antt =====
-- The calls that `can_use` of glc/routing/core.py lets through in a minute.
use glc_v.Prelude.{
  ℕ, suc, ◌+◌, ◌*◌, ◌≤◌, ◌<◌, ◌≡◌, refl, ap, ◌∙◌, inl, inr, ◌&&◌, none, some, List, [], ◌∷◌, ◌++◌,
  arith, leb, if◌then◌else◌, Bool-cases, Option-cases, length, length-append, ℕ-Eq, String-Eq, ×-Eq,
  List-Eq, Time, second,
}
use glc_v.Routing.{Limits, RateState, new_state, drop_calls, collect, Refusal, can_use, record_call}
use glc_v.Routing.Quota.{use_once, Use, unrefused-rpm, use_once_allowed, use_once_refused}

-- The times of the uses that are let through, each recorded before the next.
unfoldable pub admitted : Limits → List Use → RateState → List Time
unfolding can_use
admitted l [] st = []
admitted l ((est, tokens, now) ∷ uses) st =
    let rest = admitted l uses (use_once l est tokens now st) in
    elim ((can_use l est now st).0) [ none ↦ now ∷ rest | some why ↦ rest ]

-- How many of the times are in the minute that starts at `w`, both ends included.
unfoldable pub in_minute : Time → List Time → ℕ
in_minute w [] = 0
in_minute w (t ∷ ts) =
    let rest = in_minute w ts in if leb w t && leb t (w + 60 * second) then suc rest else rest

-- The uses are at times that do not run backwards, from `from`.
abbrev pub Ascends : Time → List Use → Type 0
Ascends from [] = Unit
Ascends from ((est, tokens, now) ∷ uses) = (from ≤ now) × Ascends now uses

in_minute-le : (w : Time) (ts : List Time) → in_minute w ts ≤ length ts
unfolding in_minute
in_minute-le w [] = omega arith
in_minute-le w (t ∷ ts) = ground (arith, in_minute-le w ts)

in_minute-snoc :
    (w : Time) (ts : List Time) (t : Time)
    → in_minute w (ts ++ t ∷ []) ≡ in_minute w ts + in_minute w (t ∷ [])
unfolding in_minute
in_minute-snoc w [] t = ground arith
in_minute-snoc w (s ∷ ts) t = ground (arith, in_minute-snoc w ts t)

in_minute-drop_calls :
    (w now : Time) (ts : List Time)
    → now ≤ w + 60 * second
    → in_minute w (drop_calls now ts) ≡ in_minute w ts
unfolding in_minute drop_calls
in_minute-drop_calls w now [] h = refl
in_minute-drop_calls w now (t ∷ ts) h = ground (arith, in_minute-drop_calls w now ts h)

admitted_later :
    (l : Limits) (w from : Time) (uses : List Use) (st : RateState)
    → w + 60 * second < from
    → Ascends from uses
    → in_minute w (admitted l uses st) ≡ 0
unfolding in_minute admitted
admitted_later l w from [] st h a = refl
admitted_later l w from ((est, tokens, now) ∷ uses) st h (b, a) =
    ground
      (arith, admitted_later l w now uses (use_once l est tokens now st) (omega (arith, h, b)) a)

in_minute-cons :
    (w t : Time) (ts : List Time) → in_minute w (t ∷ ts) ≡ in_minute w (t ∷ []) + in_minute w ts
unfolding in_minute
in_minute-cons w t ts = ground arith

in_minute-recorded :
    (w now tokens : ℕ) (st : RateState)
    → now ≤ w + 60 * second
    → in_minute w (record_call tokens now (collect now st)).calls_minute
      ≡ in_minute w st.calls_minute + in_minute w (now ∷ [])
unfolding record_call collect
in_minute-recorded w now tokens st h =
    in_minute-snoc w (drop_calls now st.calls_minute) now
    ∙ ap (λ n. n + in_minute w (now ∷ [])) (in_minute-drop_calls w now st.calls_minute h)

in_minute-collected :
    (w now : Time) (st : RateState)
    → now ≤ w + 60 * second
    → in_minute w (collect now st).calls_minute ≡ in_minute w st.calls_minute
unfolding collect
in_minute-collected w now st h = in_minute-drop_calls w now st.calls_minute h

recorded-le :
    (l : Limits) (w est tokens now : ℕ) (st : RateState)
    → (can_use l est now st).0 ≡ none
    → in_minute w (record_call tokens now (collect now st)).calls_minute ≤ l.rpm
unfolding can_use record_call
recorded-le l w est tokens now st e =
    let free = (unrefused-rpm l est now (collect now st) e).0 in
    let all = in_minute-le w ((collect now st).calls_minute ++ now ∷ []) in
    let longer = length-append (collect now st).calls_minute (now ∷ []) in
    omega (arith, free, all, longer)

admitted_allowed :
    (l : Limits) (est tokens now : ℕ) (uses : List Use) (st : RateState)
    → (can_use l est now st).0 ≡ none
    → admitted l ((est, tokens, now) ∷ uses) st
      ≡ now ∷ admitted l uses (record_call tokens now (collect now st))
unfolding admitted
admitted_allowed l est tokens now uses st e =
    rw (e, admitted) (ap (λ s. now ∷ admitted l uses s) (use_once_allowed l est tokens now st e))

admitted_refused :
    (l : Limits) (est tokens now : ℕ) (uses : List Use) (st : RateState) (why : Refusal)
    → (can_use l est now st).0 ≡ some why
    → admitted l ((est, tokens, now) ∷ uses) st ≡ admitted l uses (collect now st)
unfolding admitted
admitted_refused l est tokens now uses st why e =
    rw (e, admitted) (ap (admitted l uses) (use_once_refused l est tokens now st why e))

module _ (l : Limits) (w : Time) where
  -- What the state holds of the minute, with what is still let through in it.
  abbrev Total : RateState → List Use → Type 0
  Total st uses = in_minute w st.calls_minute + in_minute w (admitted l uses st) ≤ l.rpm

  admitted_from :
      (from : Time) (uses : List Use) (st : RateState)
      → Ascends from uses
      → in_minute w st.calls_minute ≤ l.rpm
      → Total st uses
  unfolding admitted in_minute
  admitted_from from [] st a h = omega (arith, h)
  admitted_from from ((est, tokens, now) ∷ uses) st (b, a) h =
      elim (Bool-cases (leb now (w + 60 * second))) [
        | inr late ↦
            let none_left =
              admitted_later l w now ((est, tokens, now) ∷ uses) st (ground (arith, late))
                (omega arith, a) in
            omega (arith, h, none_left)
        | inl soon ↦
            let by : now ≤ w + 60 * second = ground (arith, soon) in
            elim (Option-cases ((can_use l est now st).0)) [
              | inl e ↦
                  let st₁ = record_call tokens now (collect now st) in
                  let rest = admitted_from now uses st₁ a (recorded-le l w est tokens now st e) in
                  rw (admitted_allowed l est tokens now uses st e) (
                    omega (
                      arith,
                      rest,
                      in_minute-recorded w now tokens st by,
                      in_minute-cons w now (admitted l uses st₁),
                    ))
              | inr (why, e) ↦
                  let same = in_minute-collected w now st by in
                  let rest = admitted_from now uses (collect now st) a (omega (arith, h, same)) in
                  rw (admitted_refused l est tokens now uses st why e) (omega (arith, rest, same))
            ]
      ]

-- From a fresh state, for uses at times that do not run backwards, each recorded where `can_use` lets it
-- through: in any minute, both ends included, at most `rpm` uses are let through.
pub admitted_within_rpm :
    (l : Limits) (start : Time) (uses : List Use) (w : Time)
    → Ascends start uses
    → in_minute w (admitted l uses (new_state start)) ≤ l.rpm
unfolding in_minute
admitted_within_rpm l start uses w a =
    omega (arith, admitted_from l w start uses (new_state start) a (omega arith))
