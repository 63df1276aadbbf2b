-- ===== src/Policy/Matchers.antt =====
-- The matchers of glc/policy/engine.py. A matcher that gets a value of the wrong type raises
-- TypeError.
use glc_v.Prelude.{
  ℕ, String, Bool, true, false, ◌||◌, none, some, List, [], ◌∷◌, if◌then◌else◌, ◌==◌, ℕ-Eq,
  String-Eq, ×-Eq, List-Eq, Result, ◌>>=◌, type_error, ok, raise,
}
use glc_v.Prelude.Value.{
  Value, Items, Fields, get_field, value_eq, contains_value, truthy, value_get, null, text, array,
  object, nil, cons, end, field,
}
use glc_v.Glob.{codes, Token, translate, match_tokens, star, star_segment, char}
use glc_v.Policy.Text.{Host, is_part, strip_suffix, normalize_path}

-- `re.escape(pattern)` with `**` replaced by `.*` and then `*` by `[^/]*`, as tokens.
unfoldable pub double_star_tokens : List ℕ → List Token
double_star_tokens [] = []
double_star_tokens (a ∷ []) = (if a == b'*' then star_segment else char a) ∷ []
double_star_tokens (a ∷ b ∷ cs) =
    let both = double_star_tokens cs in
    let one = double_star_tokens (b ∷ cs) in
    if a == b'*' then (if b == b'*' then star ∷ both else star_segment ∷ one) else char a ∷ one

-- The part of `_matches_glob` behind its type tests.
unfoldable pub glob_text : Host → List ℕ → List ℕ → Bool
unfolding normalize_path is_part double_star_tokens match_tokens translate
glob_text host value pattern =
    let v = normalize_path host value in
    let p = normalize_path host pattern in
    if is_part (codes "**") p
    then match_tokens (double_star_tokens p) v
    else match_tokens (translate 0 p) v

unfoldable pub matches_glob : Host → Value → Value → Result Bool
unfolding glob_text
matches_glob host (text value) (text pattern) = ok (glob_text host (codes value) (codes pattern))
matches_glob host _ _ = raise type_error

unfoldable pub matches_regex : Host → Value → Value → Result Bool
matches_regex host (text value) (text pattern) = host.re_search (codes pattern) (codes value)
matches_regex host _ _ = raise type_error

-- `str(p)`
abbrev text_of : Host → Value → List ℕ
text_of host (text s) = codes s
text_of host v = host.str_of v

-- `any(str(p).casefold() in haystack for p in patterns)`
unfoldable pub any_part : Host → Items → List ℕ → Bool
unfolding is_part
any_part host nil haystack = false
any_part host (cons p ps) haystack =
    is_part (host.casefold (text_of host p)) haystack || any_part host ps haystack

unfoldable pub command_matches : Host → Value → Items → Result Bool
unfolding any_part
command_matches host (text command) patterns =
    ok (any_part host patterns (host.casefold (codes command)))
command_matches host _ patterns = raise type_error

abbrev has_key : String → Fields → Bool
has_key k fs = elim (get_field k fs) [ none ↦ false | some _ ↦ true ]

-- `value in container`: a list compares, a text looks for a part, a dict for a key.
unfoldable pub member : Value → Value → Result Bool
unfolding contains_value is_part get_field
member value (array xs) = ok (contains_value value xs)
member (text part) (text s) = ok (is_part (codes part) (codes s))
member (text k) (object fs) = ok (has_key k fs)
member (array _) (object fs) = raise type_error
member (object _) (object fs) = raise type_error
member _ (object fs) = ok false
member _ _ = raise type_error

-- `expected if isinstance(expected, list) else [expected]`
abbrev as_patterns : Value → Items
as_patterns (array xs) = xs
as_patterns v = cons v nil

-- The last branches of the loop's body: a list is membership, anything else equality.
unfoldable pub equals_or_in : Value → Value → Result Bool
unfolding contains_value value_eq
equals_or_in value (array xs) = ok (contains_value value xs)
equals_or_in value expected = ok (value_eq value expected)

unfoldable pub matches_plain : Host → String → Value → Value → Result Bool
unfolding command_matches value_get equals_or_in
matches_plain host key expected params =
    if key == "command_matches"
    then (do
      command ← value_get params (text "") "command"
      command_matches host command (as_patterns expected))
    else if key == "recipient_type"
    then (do v ← value_get params null "recipient_type"; ok (value_eq v expected))
    else do v ← value_get params null key; equals_or_in v expected

-- One round of the loop of `_matches_condition`: does this key hold?
unfoldable pub matches_key : Host → String → Value → Value → Result Bool
unfolding strip_suffix matches_glob matches_regex member value_get matches_plain
matches_key host key expected params = elim (strip_suffix "_glob" key) [
  | some target ↦ do v ← value_get params null target; matches_glob host v expected
  | none ↦ elim (strip_suffix "_regex" key) [
    | some target ↦ do v ← value_get params null target; matches_regex host v expected
    | none ↦ elim (strip_suffix "_in" key) [
      | some target ↦ do
        v ← value_get params null target
        member v (if truthy expected then expected else array nil)
      | none ↦ matches_plain host key expected params
    ]
  ]
]

unfoldable pub matches_condition : Host → Fields → Value → Result Bool
unfolding matches_key
matches_condition host end params = ok true
matches_condition host (field key expected rest) params =
    let others = matches_condition host rest params in
    do holds ← matches_key host key expected params; if holds then others else ok false
