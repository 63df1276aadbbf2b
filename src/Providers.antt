-- ===== src/Providers.antt =====
-- glc/providers.py: the OpenAI-compatible providers. The body of a request is a record of its keys, a key
-- that may be missing an option; `messages` and `tools` are those of the request, translated.
pub mod Healing
pub mod Schema
mod Tests
use glc_v.Prelude.{
  ℕ, String, Bool, true, false, ◌&&◌, ◌||◌, not, Option, none, some, List, [], ◌∷◌, any,
  if◌then◌else◌, ◌==◌, ℕ-Eq, String-Eq, ×-Eq, List-Eq,
}
use glc_v.Prelude.Value.{Value, Fields, boolean, object, end, field}
use glc_v.Text.{Text}
use glc_v.Glob.{codes}
use glc_v.Policy.Text.{is_part}

abbrev pub reasoning_model_hints : List String
reasoning_model_hints =
    "gpt-oss" ∷ "qwen3-think" ∷ "deepseek-r1" ∷ "deepseek-r2" ∷ "qwen3" ∷ "o1" ∷ "o3" ∷ "o4"
    ∷ "gpt-5" ∷ "glm" ∷ "nemotron" ∷ "deepseek-v3.2" ∷ "deepseek-v4" ∷ []

abbrev pub thinking_by_default_hints : List String
thinking_by_default_hints =
    "gpt-oss" ∷ "glm" ∷ "nemotron" ∷ "qwen3" ∷ "deepseek-r1" ∷ "deepseek-r2" ∷ "deepseek-v3.2"
    ∷ "deepseek-v4" ∷ []

-- `hint in m` for some hint, where `m` is in lower case
unfoldable pub hinted : List String → Text → Bool
unfolding is_part
hinted hints m = any (λ h. is_part (codes h) m) hints

-- The `response_format` of a body: a JSON object, or a schema under its name, strict or not.
pub data Format : Type 0 where
  json_object : Format
  json_schema : Value → Value → Bool → Format

pub record Body : Type 0 where
  pub model : Text
  pub messages : List Value
  pub max_tokens : ℕ
  pub temperature : Value
  pub tools : Option Value
  pub tool_choice : Option Value
  pub response_format : Option Format
  pub reasoning_effort : Option Text
  pub chat_template_kwargs : Option Value

abbrev pub is_there {ℓ} : {A : Type ℓ} → Option A → Bool
is_there none = false
is_there (some a) = true

-- `any(key in body for key in REASONING_BODY_KEYS)`
unfoldable pub reasons : Body → Bool
reasons b = is_there b.reasoning_effort || is_there b.chat_template_kwargs

abbrev pub no_thinking : Value
no_thinking = object (field "thinking" (boolean false) end)

-- `_apply_reasoning` on a body without reasoning keys, over the host's `str.lower`: the body and whether
-- something was put on it
unfoldable pub apply_reasoning : (Text → Text) → Option Text → Body → Body × Bool
unfolding hinted
apply_reasoning lower none b = (b, false)
apply_reasoning lower (some []) b = (b, false)
apply_reasoning lower (some (c ∷ cs)) b =
    if (c ∷ cs) == codes "off"
    then (if hinted thinking_by_default_hints (lower b.model)
        then (
          record b {
            reasoning_effort = some (codes "none");
            chat_template_kwargs = some no_thinking;
          },
          true,
        )
        else (b, false))
    else if hinted reasoning_model_hints (lower b.model)
    then (record b { reasoning_effort = some (c ∷ cs) }, true)
    else (b, false)
