-- ===== src/Providers/Healing.antt =====
-- glc/providers.py: the requests of `OpenAICompatProvider.chat`, from the first to the answer that it
-- reads. A server refuses a body, and the body is changed to its complaint. The server is an argument
-- that takes the number of the request.
pub mod Honest
pub mod Ends
use Prim.Native.String.{◌++◌ as join}
use glc_v.Prelude.{
  ℕ, zero, suc, String, Bool, true, false, ◌&&◌, ◌||◌, not, Option, none, some, List, [], ◌∷◌, ◌++◌,
  keep, length, if◌then◌else◌, ◌==◌, ℕ-Eq, String-Eq, ×-Eq, List-Eq, Result, ok, raise, type_error,
  provider_error, ◌>>=◌,
}
use glc_v.Prelude.Value.{Value, get_value, set_field, truthy, value_eq, text, object, end, field}
use glc_v.Text.{Text}
use glc_v.Glob.{codes}
use glc_v.Policy.Text.{is_part}
use glc_v.Providers.{Body, json_object, json_schema, Format, is_there, reasons, apply_reasoning}

-- A response; its body is parsed behind the exchange.
pub record Reply : Type 0 where
  pub status : ℕ
  pub text : Text

-- A post may raise an exception of the transport.
abbrev pub Server : Type 0
Server = ℕ → Body → Result Reply

-- The body at hand, whether it still carries the reasoning dial, the last reply, and the bodies that were
-- sent.
pub record Exchange : Type 0 where
  pub body : Body
  pub applied : Bool
  pub reply : Result Reply
  pub sent : List Body

abbrev pub post : Server → Body → Bool → List Body → Exchange
post server b applied sent = record {
  body = b;
  applied = applied;
  reply = server (length sent) b;
  sent = sent ++ b ∷ [];
}

abbrev pub names : String → Text → Bool
names key txt = is_part (codes key) txt

abbrev pub levels : List String
levels = "low" ∷ "medium" ∷ "high" ∷ []

-- `REASONING_LEVELS` in the complaint
unfoldable pub allowed_levels : Text → List String
unfolding is_part
allowed_levels txt = keep (λ level. names level txt) levels

abbrev pub without : Bool → Bool → Body → Body
without effort kwargs b = record b {
  reasoning_effort = (if effort then none else b.reasoning_effort);
  chat_template_kwargs = (if kwargs then none else b.chat_template_kwargs);
}

-- The keys of the body that the complaint names are dropped; none if there is no such key.
unfoldable pub drop_named : Text → Body → Option Body
unfolding is_part
drop_named txt b =
    let effort = is_there b.reasoning_effort && names "reasoning_effort" txt in
    let kwargs = is_there b.chat_template_kwargs && names "chat_template_kwargs" txt in
    if effort || kwargs then some (without effort kwargs b) else none

abbrev pub lowered : Text → Body → List String → Option Body
lowered txt b [] = drop_named txt b
lowered txt b (level ∷ _) = some (record b { reasoning_effort = some (codes level) })

abbrev pub says_none : Option Text → Bool
says_none none = false
says_none (some t) = t == codes "none"

-- One change of the body to the complaint; none if nothing is left to change.
unfoldable pub adjust : Text → Body → Option Body
unfolding allowed_levels drop_named
adjust txt b =
    if says_none b.reasoning_effort && names "reasoning_effort" txt
    then lowered txt b (allowed_levels txt)
    else drop_named txt b

-- `while r.status_code != 200 and reasoning_applied and budget > 0`
unfoldable pub heal : Server → ℕ → Exchange → Exchange
unfolding adjust reasons
heal server zero x = x
heal server (suc budget) x = elim x.reply [
  | raise e ↦ x
  | ok r ↦ if r.status == 200 || not x.applied then x else elim (adjust r.text x.body) [
    | none ↦ x
    | some b ↦ heal server budget (post server b (reasons b) x.sent)
  ]
]

-- Without a strict schema, if the body has one.
abbrev pub unstrict : Body → Option Body
unstrict b = elim b.response_format [
  | some (json_schema name schema strict) ↦ some (record b { response_format = some json_object })
  | _ ↦ none
]

abbrev pub resend : Server → Exchange → Option Body → Exchange
resend server x none = x
resend server x (some b) = post server b x.applied x.sent

unfoldable pub relax_format : Server → Exchange → Exchange
relax_format server x = elim x.reply [
  | raise e ↦ x
  | ok r ↦ if r.status == 200 then x else resend server x (unstrict x.body)
]

abbrev pub hint : String
hint = "Return your reply as a single JSON object."

-- `(content or "") + "\n\n" + hint`
abbrev pub hinted_content : Value → Result Value
hinted_content v =
    if truthy v
    then elim v [ text s ↦ ok (text (join s (join "\n\n" hint))) | _ ↦ raise type_error ]
    else ok (text (join "\n\n" hint))

abbrev pub hint_message : Value
hint_message = object (field "role" (text "system") (field "content" (text hint) end))

-- The hint in the system message, or as one in front of the others.
unfoldable pub add_hint : List Value → Result (List Value)
unfolding get_value truthy set_field value_eq
add_hint (object fs ∷ ms) =
    if value_eq (get_value "role" fs) (text "system")
    then (hinted_content (get_value "content" fs) >>= λ v.
        ok (object (set_field "content" v fs) ∷ ms))
    else ok (hint_message ∷ object fs ∷ ms)
add_hint ms = ok (hint_message ∷ ms)

abbrev pub wants_object : Option Format → Bool
wants_object (some json_object) = true
wants_object _ = false

abbrev pub send_hinted : Server → Exchange → Result (List Value) → Exchange
send_hinted server x (raise e) = record x { reply = raise e }
send_hinted server x (ok ms) = post server (record x.body { messages = ms }) x.applied x.sent

unfoldable pub hint_json : (Text → Text) → Server → Exchange → Exchange
unfolding is_part add_hint
hint_json lower server x = elim x.reply [
  | raise e ↦ x
  | ok r ↦
      if r.status == 400 && names "json" (lower r.text) && wants_object x.body.response_format
      then send_hinted server x (add_hint x.body.messages)
      else x
]

-- `retryable=(r.status_code not in (400, 401))`
abbrev pub accepted : Result Reply → Result Reply
accepted (raise e) = raise e
accepted (ok r) =
    if r.status == 200
    then ok r
    else raise (provider_error (some r.status) (not (r.status == 400 || r.status == 401)))

abbrev pub heal_budget : ℕ
heal_budget = 3

-- The requests of `chat` for a body without reasoning keys.
unfoldable pub exchange : (Text → Text) → Server → Option Text → Body → Exchange
unfolding apply_reasoning heal relax_format hint_json
exchange lower server reasoning b =
    let dialled = apply_reasoning lower reasoning b in
    hint_json lower server
      (relax_format server (heal server heal_budget (post server dialled.0 dialled.1 [])))
