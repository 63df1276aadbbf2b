-- ===== src/Chat/Backoff.antt =====
-- glc/routes/chat.py: how long a provider is benched after a failed call (`_backoff_for`), and the handler
-- that benches it in the router of glc/routing/core.py. Times are microseconds; `float` of a configured
-- number of seconds, with what it raises, is the host's, and a negative one is left out.
use Prim.Native.String.{◌++◌ as join}
use glc_v.Prelude.{
  ℕ, ◌+◌, ◌*◌, ◌≤◌, String, ◌≡◌, refl, ap, ◌∙◌, ◌≢◌, ◌⊎◌, inl, inr, Bool, true, false, ◌&&◌, ◌||◌,
  Option, none, some, List, [], ◌∷◌, ◌++◌, arith, ltb, leb, if◌then◌else◌, Bool-cases, All, ◌==◌,
  ℕ-Eq, String-Eq, ×-Eq, List-Eq, Result, ◌>>=◌, type_error, value_error, ok, raise, Time, second,
}
use glc_v.Prelude.Value.{Value, Fields, get_field, end}
use glc_v.Text.{Text}
use glc_v.Glob.{codes}
use glc_v.Policy.Text.{is_part}
use glc_v.Routing.{Limits, RateState, mark_unavailable}
use glc_v.Routing.Quota.{Use, verdicts, IsBefore, mark_unavailable-verdicts}

pub data BackoffKind : Type 0 where
  queue rpm rpd rate_limited upstream_5xx timeout auth : BackoffKind

-- `BACKOFF_DEFAULTS`, in seconds
abbrev pub backoff_default : BackoffKind → ℕ
backoff_default queue = 15
backoff_default rpm = 60
backoff_default rpd = 3600
backoff_default rate_limited = 30
backoff_default upstream_5xx = 20
backoff_default timeout = 600
backoff_default auth = 600

abbrev pub kind_name : BackoffKind → String
kind_name queue = "queue"
kind_name rpm = "rpm"
kind_name rpd = "rpd"
kind_name rate_limited = "rate_limited"
kind_name upstream_5xx = "upstream_5xx"
kind_name timeout = "timeout"
kind_name auth = "auth"

-- An exception: the name of its class, its text, and its `status`.
pub record Failure : Type 0 where
  pub class_name : Text
  pub message : Text
  pub status : Option ℕ

pub record BackoffHost : Type 0 where
  pub lower : Text → Text
  pub seconds_of : Value → Result Time
  pub show : ℕ → String

-- `except (TypeError, ValueError)`
abbrev or_default : Time → Result Time → Result Time
or_default default (raise type_error) = ok default
or_default default (raise value_error) = ok default
or_default default r = r

-- `_backoff_seconds`, where `cfg` is the policy's `backoff` block, or empty
unfoldable pub backoff_seconds : BackoffHost → Fields → BackoffKind → Result Time
unfolding get_field
backoff_seconds host cfg kind = elim (get_field (kind_name kind) cfg) [
  | none ↦ ok (backoff_default kind * second)
  | some v ↦ or_default (backoff_default kind * second) (host.seconds_of v)
]

abbrev pub mentions : String → Text → Bool
mentions part msg = is_part (codes part) msg

-- The class of a 429 by its text.
unfoldable pub limit_kind : Text → BackoffKind
unfolding is_part
limit_kind msg =
    if mentions "queue" msg
    then queue
    else if mentions "quota" msg || mentions "rpm" msg || mentions "per minute" msg
    then rpm
    else if mentions "rpd" msg || mentions "per day" msg || mentions "daily" msg
    then rpd
    else rate_limited

abbrev pub has_status : ℕ → Option ℕ → Bool
has_status n none = false
has_status n (some s) = s == n

abbrev pub is_5xx : Option ℕ → Bool
is_5xx none = false
is_5xx (some s) = leb 500 s && ltb s 600

-- The class of a failure, none for one that benches nobody.
unfoldable pub kind_of : Text → Option ℕ → Bool → Option BackoffKind
unfolding limit_kind
kind_of msg status has_model_override =
    if has_status 429 status
    then some (limit_kind msg)
    else if is_5xx status
    then some upstream_5xx
    else if has_status 408 status || mentions "timeout" msg || mentions "timedout" msg
    then some timeout
    else if has_status 401 status || has_status 403 status
    then (if has_model_override then none else some auth)
    else none

abbrev or_zero : Option ℕ → ℕ
or_zero none = 0
or_zero (some n) = n

abbrev pub reason_of : BackoffHost → Option ℕ → BackoffKind → String
reason_of host status queue = "server queue full"
reason_of host status rpm = "RPM quota burned"
reason_of host status rpd = "RPD quota burned"
reason_of host status rate_limited = "rate limited"
reason_of host status upstream_5xx = join "upstream " (host.show (or_zero status))
reason_of host status timeout = "timeout"
reason_of host status auth = "auth error"

-- `f"{type(err).__name__} {err}".lower()`
abbrev pub haystack : BackoffHost → Failure → Text
haystack host err = host.lower (err.class_name ++ b' ' ∷ err.message)

abbrev pub timed : BackoffHost → Fields → Option ℕ → Option BackoffKind → Result (Time × String)
timed host cfg status none = ok (0, "")
timed host cfg status (some kind) =
    backoff_seconds host cfg kind >>= λ secs. ok (secs, reason_of host status kind)

unfoldable pub backoff_for : BackoffHost → Fields → Failure → Bool → Result (Time × String)
unfolding kind_of backoff_seconds
backoff_for host cfg err has_model_override =
    timed host cfg err.status (kind_of (haystack host err) err.status has_model_override)

-- `if secs > 0: mark_unavailable`
abbrev pub benched : Time → RateState → Time × String → RateState
benched now st (secs, reason) = if secs == 0 then st else mark_unavailable secs reason now st

-- The bench of the handlers of a failed call.
unfoldable pub bench : BackoffHost → Fields → Failure → Bool → Time → RateState → Result RateState
unfolding backoff_for mark_unavailable
bench host cfg err has_model_override now st =
    backoff_for host cfg err has_model_override >>= λ b. ok (benched now st b)

abbrev pub is_late : BackoffHost → Failure → Bool
is_late host err =
    has_status 408 err.status
    || mentions "timeout" (haystack host err)
    || mentions "timedout" (haystack host err)

-- The failures that a provider is always benched for.
abbrev pub IsOverload : BackoffHost → Failure → Type 0
IsOverload host err =
    (has_status 429 err.status ≡ true)
    ⊎ ((is_5xx err.status ≡ true)
        ⊎ ((has_status 408 err.status
              || mentions "timeout" (haystack host err)
              || mentions "timedout" (haystack host err))
            ≡ true))

overload-kind :
    (host : BackoffHost) (err : Failure) (has_model_override : Bool)
    → IsOverload host err
    → (kind : BackoffKind) × (kind_of (haystack host err) err.status has_model_override ≡ some kind)
unfolding kind_of
overload-kind host err has_model_override h = elim (Bool-cases (has_status 429 err.status)) [
  | inl a ↦ (limit_kind (haystack host err), rw a refl)
  | inr a ↦ elim (Bool-cases (is_5xx err.status)) [
    | inl b ↦ (upstream_5xx, rw a (rw b refl))
    | inr b ↦ elim (Bool-cases (is_late host err)) [
      | inl c ↦ (timeout, rw a (rw b (rw c refl)))
      | inr c ↦ absurd (ground (arith, h, a, b, c))
    ]
  ]
]

default_bound : (kind : BackoffKind) → 15 * second ≤ backoff_default kind * second
default_bound queue = omega arith
default_bound rpm = omega arith
default_bound rpd = omega arith
default_bound rate_limited = omega arith
default_bound upstream_5xx = omega arith
default_bound timeout = omega arith
default_bound auth = omega arith

IsBefore-mono :
    (m n : Time) (uses : List Use) → m ≤ n → All (IsBefore m) uses → All (IsBefore n) uses
IsBefore-mono m n [] le h = tt
IsBefore-mono m n ((est, tokens, now) ∷ uses) le h =
    (omega (arith, le, h.0), IsBefore-mono m n uses le h.1)

bench-default :
    (host : BackoffHost) (err : Failure) (has_model_override : Bool) (at : Time) (st : RateState)
    (kind : BackoffKind)
    → kind_of (haystack host err) err.status has_model_override ≡ some kind
    → bench host end err has_model_override at st
      ≡ ok (mark_unavailable (backoff_default kind * second) (reason_of host err.status kind) at st)
unfolding bench backoff_for backoff_seconds get_field
bench-default host err has_model_override at st kind k =
    let some_time : (backoff_default kind * second == 0) ≡ false =
      let h = default_bound kind in ground (arith, h) in
    ap (λ o. timed host end err.status o >>= λ b. ok (benched at st b)) k ∙ rw some_time refl

-- Without a `backoff` block: after a call that failed with a 429, a 5xx or a timeout, whatever model the
-- caller asked for, the provider is refused at every attempt of the next fifteen seconds, however many
-- there are.
pub bench-verdicts :
    (host : BackoffHost) (err : Failure) (has_model_override : Bool) (at : Time) (st : RateState)
    → IsOverload host err
    → (st' : RateState) × (bench host end err has_model_override at st ≡ ok st')
      × ((l : Limits) (uses : List Use)
          → All (IsBefore (at + 15 * second)) uses
          → All (λ v. v ≢ none) (verdicts l uses st'))
bench-verdicts host err has_model_override at st h =
    let (kind, k) = overload-kind host err has_model_override h in
    let secs = backoff_default kind * second in
    (
      mark_unavailable secs (reason_of host err.status kind) at st,
      bench-default host err has_model_override at st kind k,
      λ l uses soon. mark_unavailable-verdicts l secs (reason_of host err.status kind) at st uses (
          IsBefore-mono (at + 15 * second) (at + secs) uses
            (let b = default_bound kind in omega (arith, b)) soon),
    )
