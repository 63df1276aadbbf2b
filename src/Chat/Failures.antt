-- ===== src/Chat/Failures.antt =====
-- A failed call and a request with an image, at a small router.
use glc_v.Prelude.{
  ◌+◌, ◌*◌, String, ◌≡◌, refl, ◌≢◌, inr, true, false, none, some, List, [], ◌∷◌, All, ℕ-Eq,
  String-Eq, ×-Eq, List-Eq, type_error, ok, raise, second,
}
use glc_v.Prelude.Dict.{Dict, lookup}
use glc_v.Prelude.Value.{Fields, text, array, object, end, field, nil, cons}
use glc_v.Glob.{codes}
use glc_v.Policy.Text.{is_part}
use glc_v.Routing.{Limits, RateState, Provider, new_state}
use glc_v.Routing.Quota.{Use, verdicts, IsBefore}
use glc_v.Routing.Rings.{Picked, pick}
use glc_v.Chat.Backoff.{Failure, BackoffHost, backoff_for, bench, is_late, bench-verdicts}
use glc_v.Chat.Demands.{Needs, est_tokens, any_image, required_caps, no_system}
use glc_v.Chat.Fits.{images_of, Fit, Has, pick-Fit}

abbrev small_host : BackoffHost
small_host = record { lower = λ t. t; seconds_of = λ v. raise type_error; show = λ n. "503" }

-- An httpx ReadTimeout, whose text is empty.
abbrev read_timeout : Failure
read_timeout = record { class_name = codes "readtimeout"; message = []; status = none }

benched_for_ten_minutes : backoff_for small_host end read_timeout false ≡ ok (600000000, "timeout")
unfolding backoff_for
benched_for_ten_minutes = refl

late : is_late small_host read_timeout ≡ true
unfolding is_part
late = refl

bench-verdicts_example :
    (st' : RateState) × (bench small_host end read_timeout false 5 (new_state 0) ≡ ok st')
    × ((l : Limits) (uses : List Use)
        → All (IsBefore (5 + 15 * second)) uses
        → All (λ v. v ≢ none) (verdicts l uses st'))
bench-verdicts_example =
    bench-verdicts small_host read_timeout false 5 (new_state 0) (inr (inr late))

abbrev picture : Fields
picture =
    field "type" (text "image_url")
      (field "image_url" (object (field "url" (text "data:image/png;base64,AAAA") end)) end)

abbrev with_picture : Needs
with_picture = record {
  tools = [];
  reasoning = none;
  response_format = none;
  messages =
      field "role" (text "user") (field "content" (array (cons (object picture) nil)) end) ∷ [];
}

abbrev eyes : Limits
eyes = record { rpm = 5; rpd = 50; tpm = 9000; cooldown = 0; max_ctx = 4000; tokens_per_day = none }

abbrev two_providers : Dict String Provider
two_providers =
    ("blind", record { model = "m"; capabilities = ("vision", false) ∷ [] })
    ∷ ("seeing", record { model = "m"; capabilities = ("vision", true) ∷ [] })
    ∷ []

abbrev two_limits : Dict String Limits
two_limits = ("blind", eyes) ∷ ("seeing", eyes) ∷ []

abbrev after : Picked
after = elim (pick two_limits two_providers 1300 ("vision" ∷ []) 5 ("blind" ∷ "seeing" ∷ []) []) [
  | ok p ↦ p
  | raise e ↦ ((none, []), [])
]

estimated : est_tokens (λ v. []) with_picture.messages no_system 1000 ≡ ok 1300
unfolding est_tokens
estimated = refl

is_picked :
    pick two_limits two_providers 1300 (required_caps with_picture) 5 ("blind" ∷ "seeing" ∷ []) []
    ≡ ok after
unfolding pick required_caps
is_picked = refl

sees : after.0.0 ≡ some "seeing"
unfolding pick
sees = refl

pick-Fit_example :
    (l : Limits) × (q : Provider) × (lookup "seeing" two_limits ≡ some l)
    × (lookup "seeing" two_providers ≡ some q)
    × Has q.capabilities (required_caps with_picture)
    × (any_image with_picture.messages ≡ true → lookup "vision" q.capabilities ≡ some true)
    × Fit (λ v. []) l.max_ctx 1000 (images_of with_picture.messages)
pick-Fit_example =
    pick-Fit (λ v. []) with_picture no_system 1000 1300 two_limits two_providers 5
      ("blind" ∷ "seeing" ∷ []) [] after "seeing" estimated is_picked sees
