-- ===== src/Providers/Tests.antt =====
-- Exchanges with a server that refuses one reasoning key after the other.
use glc_v.Prelude.{
  ◌≤◌, String, ◌≡◌, refl, inl, inr, Bool, true, false, Option, none, some, [], arith, if◌then◌else◌,
  Option-cases, length, ◌==◌, ℕ-Eq, String-Eq, ×-Eq, List-Eq, Result, ok,
}
use glc_v.Prelude.Int.{pos}
use glc_v.Prelude.Value.{int}
use glc_v.Text.{Text}
use glc_v.Glob.{codes}
use glc_v.Policy.Text.{is_part}
use glc_v.Providers.{Body, is_there, reasons}
use glc_v.Providers.Healing.{Reply, Server, names, accepted, exchange}
use glc_v.Providers.Healing.Honest.{IsHonest, exchange-told}
use glc_v.Providers.Healing.Ends.{IsHealing, exchange-served}

abbrev complaint : String → Result Reply
complaint s = ok (record { status = 400; text = codes s })

abbrev says : String → Option Text → Bool
says s none = false
says s (some t) = t == codes s

-- It refuses the template first and then the effort "none".
abbrev stubborn : Server
stubborn n b =
    if is_there b.chat_template_kwargs
    then complaint "chat_template_kwargs is not supported"
    else if says "none" b.reasoning_effort
    then complaint "reasoning_effort must be one of low, medium, high"
    else ok (record { status = 200; text = [] })

-- It refuses every reasoning key.
abbrev plain_only : Server
plain_only n b =
    if is_there b.chat_template_kwargs
    then complaint "unknown field chat_template_kwargs"
    else if is_there b.reasoning_effort
    then complaint "unknown field reasoning_effort"
    else ok (record { status = 200; text = [] })

abbrev a_body : Body
a_body = record {
  model = codes "gpt-oss-120b";
  messages = [];
  max_tokens = 512;
  temperature = int (pos 0);
  tools = none;
  tool_choice = none;
  response_format = none;
  reasoning_effort = none;
  chat_template_kwargs = none;
}

abbrev off : Option Text
off = some (codes "off")

least_effort : (exchange (λ t. t) stubborn off a_body).body.reasoning_effort ≡ some (codes "low")
unfolding exchange
least_effort = refl

three_requests : length (exchange (λ t. t) stubborn off a_body).sent ≡ 3
unfolding exchange
three_requests = refl

template_named : names "chat_template_kwargs" (codes "unknown field chat_template_kwargs") ≡ true
unfolding is_part
template_named = refl

effort_named : names "reasoning_effort" (codes "unknown field reasoning_effort") ≡ true
unfolding is_part
effort_named = refl

plain_only-IsHealing : IsHealing plain_only
plain_only-IsHealing n b = elim (Option-cases b.chat_template_kwargs) [
  | inr (v, k) ↦ (
    record { status = 400; text = codes "unknown field chat_template_kwargs" },
    ground (arith, k),
    inr (ground (arith, k, template_named)),
  )
  | inl k ↦ elim (Option-cases b.reasoning_effort) [
    | inr (t, e) ↦ (
      record { status = 400; text = codes "unknown field reasoning_effort" },
      ground (arith, k, e),
      inr (ground (arith, k, e, effort_named)),
    )
    | inl e ↦ (record { status = 200; text = [] }, ground (arith, k, e), inl refl)
  ]
]

plain : reasons a_body ≡ false
unfolding reasons
plain = refl

exchange-told_example :
    let x = exchange (λ t. t) stubborn off a_body in
    (length x.sent ≤ 6) × ((r : Reply) → x.reply ≡ ok r → IsHonest stubborn x)
exchange-told_example = exchange-told stubborn (λ t. t) off a_body plain

exchange-served_example :
    (r : Reply) × (accepted (exchange (λ t. t) plain_only off a_body).reply ≡ ok r)
    × (r.status ≡ 200)
exchange-served_example = exchange-served plain_only plain_only-IsHealing (λ t. t) off a_body plain
