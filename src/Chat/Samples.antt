-- ===== src/Chat/Samples.antt =====
-- Schemas and prompts.
use glc_v.Prelude.{
  ℕ, ◌+◌, ◌/◌, ◌<◌, ◌≡◌, refl, ◌↔◌, true, some, [], ◌∷◌, ℕ-Eq, String-Eq, ×-Eq, List-Eq, http, ok,
  raise,
}
use glc_v.Prelude.Value.{Value, text, array, object, end, field, nil, cons}
use glc_v.Text.{Text}
use glc_v.Glob.{codes}
use glc_v.Chat.Schema.{assert_schema_sane}
use glc_v.Chat.Sanity.{height, nodes, refers_back, judged, assert_schema_sane-judged}
use glc_v.Chat.Classify.{RouterWorld, estimate_tokens, large, huge, classify_tier}
use glc_v.Chat.Sizes.{classify_tier-huge}

abbrev string_schema : Value
string_schema = object (field "type" (text "string") end)

abbrev root_ref : Value
root_ref = object (field "$ref" (text " # ") end)

abbrev good_schema : Value
good_schema = object (
    field "anyOf"
      (array (cons string_schema (cons (object (field "$ref" (text "#/anyOf/0") end)) nil))) end)

good_accepted : assert_schema_sane good_schema ≡ ok 6
unfolding assert_schema_sane
good_accepted = refl

root_refused : assert_schema_sane (array (cons root_ref nil)) ≡ raise (http 400)
unfolding assert_schema_sane
root_refused = refl

-- A reference to itself by a longer pointer is accepted.
abbrev looping : Value
looping = object (field "not" (object (field "$ref" (text "#/not") end)) end)

looping_accepted : assert_schema_sane looping ≡ ok 3
unfolding assert_schema_sane
looping_accepted = refl

assert_schema_sane-judged_example :
    assert_schema_sane good_schema
    ≡ judged (height good_schema) (nodes good_schema) (refers_back good_schema)
assert_schema_sane-judged_example = assert_schema_sane-judged good_schema

-- Every provider says HUGE; the state counts the calls.
abbrev boaster : RouterWorld ℕ
boaster = record {
  usable = λ name s. (true, s);
  ask = λ name s. (some huge, s + 1);
  log_error = λ name s. s;
  log_tier = λ name tier s. s;
}

abbrev classified : Text
classified =
    (classify_tier boaster (λ s. s) (λ n. n + n / 2) (codes "groq" ∷ []) (codes "hi you") 0).0.tier

capped : classified ≡ large
unfolding classify_tier
capped = refl

classify_tier-huge_example :
    (classified ≡ huge) ↔ (8000 < estimate_tokens (λ n. n + n / 2) (codes "hi you"))
classify_tier-huge_example =
    classify_tier-huge boaster (λ s. s) (λ n. n + n / 2) (codes "groq" ∷ []) (codes "hi you") 0
