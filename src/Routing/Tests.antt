-- ===== src/Routing/Tests.antt =====
-- Runs of the failover ring over two providers and a pool of keys.
use glc_v.Routing.Admitted.{admitted, in_minute, admitted_within_rpm}
use glc_v.Prelude.{
  ◌+◌, ◌*◌, ◌≤◌, String, ◌≡◌, refl, true, none, some, List, [], ◌∷◌, arith, ℕ-Eq, String-Eq, ×-Eq,
  List-Eq, ok, Time, second,
}
use glc_v.Prelude.Dict.{Dict, lookup, insert}
use glc_v.Routing.Names.{candidates}
use glc_v.Routing.Rings.{first_missing, pick}
use glc_v.Routing.{
  Limits, Provider, Router, default_limits, new_state, can_use, record_call, rpm_limit,
  no_capability,
}
use glc_v.Routing.Quota.{use_once, Use, verdicts}

abbrev with_tools : Provider
with_tools = record { model = "m"; capabilities = ("tools", true) ∷ [] }

abbrev plain : Provider
plain = record { model = "m"; capabilities = [] }

abbrev some_providers : Dict String Provider
some_providers =
    ("groq", plain) ∷ ("nvidia", with_tools) ∷ ("gemini_1", plain) ∷ ("gemini_2", plain) ∷ []

abbrev a_router : Router
a_router = record {
  providers = some_providers;
  order = "groq" ∷ "nvidia" ∷ "gemini" ∷ [];
  state = [];
}

expands_the_pool : candidates (λ s. s) a_router (some "gem") ≡ "gemini_1" ∷ "gemini_2" ∷ []
unfolding candidates lookup
expands_the_pool = refl

abbrev at_noon : Time
at_noon = 43200 * second

chosen_with_tools :
    pick default_limits some_providers 100 ("tools" ∷ []) at_noon ("groq" ∷ "nvidia" ∷ []) []
    ≡ ok ((some "nvidia", ("groq", no_capability "tools") ∷ []), ("nvidia", new_state at_noon) ∷ [])
unfolding pick lookup can_use insert first_missing
chosen_with_tools = refl

abbrev tight : Limits
tight = record { rpm = 1; rpd = 2; tpm = 1000; cooldown = 1; max_ctx = 100; tokens_per_day = none }

abbrev three_uses : List Use
three_uses = (1, 10, at_noon) ∷ (1, 10, at_noon + 5 * second) ∷ (1, 10, at_noon + 61 * second) ∷ []

second_use_is_refused : verdicts tight three_uses (new_state 0) ≡ none ∷ some rpm_limit ∷ none ∷ []
unfolding verdicts can_use use_once record_call
second_use_is_refused = refl

admitted_within_rpm_example :
    in_minute at_noon (admitted tight three_uses (new_state 0)) ≤ tight.rpm
admitted_within_rpm_example =
    admitted_within_rpm tight 0 three_uses at_noon (omega arith, (omega arith, (omega arith, tt)))
