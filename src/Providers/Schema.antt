-- ===== src/Providers/Schema.antt =====
-- glc/providers.py: `_gemini_clean_schema`, which writes the definitions of a JSON schema in the place of
-- their references and drops the keys that Gemini refuses. `walk` runs on fuel; Python's own limit on
-- recursion is left out.
pub mod Follow
pub mod Keys
pub mod Clean
mod Tests
use Prim.Native.Char.{code}
use glc_v.Prelude.{
  ℕ, zero, suc, String, Bool, true, false, ◌&&◌, ◌||◌, not, Option, none, some, List, [], ◌∷◌, any,
  if◌then◌else◌, ◌==◌, ℕ-Eq, String-Eq, ×-Eq, List-Eq, Result, ok, raise, attribute_error,
  recursion_error, ◌>>=◌,
}
use glc_v.Prelude.Value.{
  Value, Fields, Items, get_field, get_value, set_field, count_fields, truthy, text, array, object,
  end, field, nil, cons,
}

-- `text.removeprefix(prefix)` if `text.startswith(prefix)`
unfoldable pub strip_prefix : String → String → Option String
strip_prefix String.[] s = some s
strip_prefix (String.◌∷◌ c p) String.[] = none
strip_prefix (String.◌∷◌ c p) (String.◌∷◌ d s) =
    let rest = strip_prefix p s in if code c == code d then rest else none

-- The name in a `$ref`, none for another pointer.
unfoldable pub ref_name : Value → Result (Option String)
unfolding strip_prefix
ref_name (text s) = elim (strip_prefix "#/$defs/" s) [
  | some name ↦ ok (some name)
  | none ↦ ok (strip_prefix "#/definitions/" s)
]
ref_name _ = raise attribute_error

-- `name in seen`
unfoldable pub was_seen : String → List String → Bool
was_seen name seen = any (λ s. s == name) seen

abbrev pub unless_seen : List String → String → Option Value → Option (String × Value)
unless_seen seen name none = none
unless_seen seen name (some d) = if name == "" || was_seen name seen then none else some (name, d)

-- The definition that a reference leads to.
unfoldable pub followed : Fields → List String → Option String → Option (String × Value)
unfolding was_seen get_field
followed defs seen none = none
followed defs seen (some name) = unless_seen seen name (get_field name defs)

-- `{**a, **b}`
unfoldable pub update : Fields → Fields → Fields
unfolding set_field
update fs end = fs
update fs (field k v gs) = update (set_field k v fs) gs

abbrev pub with_extras : Value → Fields → Value
with_extras (object gs) extras = object (update gs extras)
with_extras v extras = v

abbrev pub as_object : Result Fields → Result Value
as_object r = r >>= λ gs. ok (object gs)

-- A dict, where `follow` walks a definition and `rest` is the dict without its `$ref`.
abbrev pub inlined :
    Fields
    → List String
    → (List String → Value → Result Value)
    → Fields
    → Result Fields
    → Result Value
inlined defs seen follow fs rest = elim (get_field "$ref" fs) [
  | none ↦ as_object rest
  | some target ↦ ref_name target >>= λ name. elim (followed defs seen name) [
    | none ↦ as_object rest
    | some (n, d) ↦
        follow (n ∷ seen) d >>= λ resolved. rest >>= λ extras. ok (with_extras resolved extras)
  ]
]

abbrev pub keep_field : String → Result Value → Result Fields → Result Fields
keep_field k v rest = if k == "$ref" then rest else (v >>= λ w. rest >>= λ gs. ok (field k w gs))

abbrev pub keep_item : Result Value → Result Items → Result Items
keep_item v rest = v >>= λ w. rest >>= λ xs. ok (cons w xs)

-- `walk` of `_gemini_inline_refs`, where `follow` walks a definition
unfoldable mutual
  unfolding followed ref_name update get_field

  pub walk_with : Fields → (List String → Value → Result Value) → List String → Value → Result Value
  walk_with defs follow seen (object fs) =
      inlined defs seen follow fs (walk_fields defs follow seen fs)
  walk_with defs follow seen (array xs) = walk_items defs follow seen xs >>= λ ys. ok (array ys)
  walk_with defs follow seen v = ok v

  pub walk_fields :
      Fields → (List String → Value → Result Value) → List String → Fields → Result Fields
  walk_fields defs follow seen end = ok end
  walk_fields defs follow seen (field k v fs) =
      keep_field k (walk_with defs follow seen v) (walk_fields defs follow seen fs)

  pub walk_items :
      Fields → (List String → Value → Result Value) → List String → Items → Result Items
  walk_items defs follow seen nil = ok nil
  walk_items defs follow seen (cons v xs) =
      keep_item (walk_with defs follow seen v) (walk_items defs follow seen xs)

-- `walk`, on fuel for the definitions that lie inside each other
unfoldable pub walk : ℕ → Fields → List String → Value → Result Value
unfolding walk_with
walk zero defs seen v = walk_with defs (λ seen' d. raise recursion_error) seen v
walk (suc fuel) defs seen v = walk_with defs (walk fuel defs) seen v

-- `schema.get("$defs") or schema.get("definitions") or {}`
abbrev pub defs_value : Fields → Value
defs_value fs =
    if truthy (get_value "$defs" fs)
    then get_value "$defs" fs
    else if truthy (get_value "definitions" fs)
    then get_value "definitions" fs
    else object end

-- `dict(v)`, the host's for what is no dict
abbrev pub dict_of : (Value → Result Fields) → Value → Result Fields
dict_of to_dict (object fs) = ok fs
dict_of to_dict v = to_dict v

-- `_gemini_inline_refs`
unfoldable pub inline_refs : (Value → Result Fields) → Value → Result Value
unfolding walk get_value truthy count_fields
inline_refs to_dict (object fs) =
    dict_of to_dict (defs_value fs) >>= λ defs. walk (count_fields defs) defs [] (object fs)
inline_refs to_dict v = ok v

abbrev pub dropped_keys : List String
dropped_keys =
    "additionalProperties" ∷ "$schema" ∷ "title" ∷ "definitions" ∷ "$defs" ∷ "examples" ∷ "default"
    ∷ []

abbrev pub is_dropped : String → Bool
is_dropped k = any (λ d. d == k) dropped_keys

unfoldable mutual
  pub strip_keys : Value → Value
  strip_keys (object fs) = object (strip_fields fs)
  strip_keys (array xs) = array (strip_items xs)
  strip_keys v = v

  pub strip_fields : Fields → Fields
  strip_fields end = end
  strip_fields (field k v fs) =
      if is_dropped k then strip_fields fs else field k (strip_keys v) (strip_fields fs)

  pub strip_items : Items → Items
  strip_items nil = nil
  strip_items (cons v xs) = cons (strip_keys v) (strip_items xs)

abbrev pub if_object : Value → Value
if_object (object fs) = strip_keys (object fs)
if_object v = v

-- `_gemini_clean_schema`
unfoldable pub clean_schema : (Value → Result Fields) → Value → Result Value
unfolding inline_refs strip_keys
clean_schema to_dict (object fs) = inline_refs to_dict (object fs) >>= λ v. ok (if_object v)
clean_schema to_dict v = ok v
