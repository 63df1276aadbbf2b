-- ===== src/Providers/Schema/Tests.antt =====
-- Schemas with definitions that refer to each other.
use glc_v.Prelude.{
  String, ◌≡◌, refl, true, false, ℕ-Eq, String-Eq, ×-Eq, List-Eq, Result, type_error, ok, raise,
}
use glc_v.Prelude.Value.{
  Value, Fields, get_value, truthy, text, array, object, end, field, nil, cons,
}
use glc_v.Providers.Schema.{defs_value, clean_schema}
use glc_v.Providers.Schema.Keys.{Lacks, IsText, RefsAreTexts, FieldsAreSound, is_banned}
use glc_v.Providers.Schema.Clean.{clean_schema-Lacks}

abbrev no_dict : Value → Result Fields
no_dict v = raise type_error

abbrev ref_to : String → Value
ref_to s = object (field "$ref" (text s) end)

-- `a` holds a `b`, and `b` an `a`.
abbrev two_defs : Fields
two_defs =
    field "a" (object (field "b" (ref_to "#/$defs/b") end))
      (field "b" (object (field "a" (ref_to "#/$defs/a") (field "title" (text "B") end))) end)

abbrev looped : Fields
looped = field "$ref" (text "#/$defs/a") (field "$defs" (object two_defs) end)

-- The second `a` is cut off.
unrolled_once :
    clean_schema no_dict (object looped)
    ≡ ok (object (field "b" (object (field "a" (object end) end)) end))
unfolding clean_schema
unrolled_once = refl

abbrev text_type : Value
text_type = object (field "type" (text "string") end)

-- A property that is called title is dropped like the keyword, and stays required.
property_lost :
    clean_schema no_dict (
      object (
        field "properties"
          (object (field "title" text_type (field "body" text_type end)))
          (field "required" (array (cons (text "title") nil)) end)))
    ≡ ok (
        object (
          field "properties"
            (object (field "body" text_type end))
            (field "required" (array (cons (text "title") nil)) end)))
unfolding clean_schema
property_lost = refl

a_ref : (s : String) → RefsAreTexts (ref_to s)
unfolding RefsAreTexts
a_ref s = ((λ h. (s, refl)), tt, tt)

other_key : (v : Value) → false ≡ true → IsText v
other_key v h = cc

two_defs-FieldsAreSound : FieldsAreSound two_defs
unfolding RefsAreTexts
two_defs-FieldsAreSound =
    let a : FieldsAreSound (field "b" (ref_to "#/$defs/b") end) =
      (other_key _, a_ref "#/$defs/b", tt) in
    let b : FieldsAreSound (field "a" (ref_to "#/$defs/a") (field "title" (text "B") end)) =
      (other_key _, a_ref "#/$defs/a", (other_key _, tt, tt)) in
    (other_key _, a, (other_key _, b, tt))

looped-RefsAreTexts : RefsAreTexts (object looped)
unfolding RefsAreTexts
looped-RefsAreTexts = ((λ h. ("#/$defs/a", refl)), tt, (other_key _, two_defs-FieldsAreSound, tt))

looped-defs : defs_value looped ≡ object two_defs
unfolding get_value truthy
looped-defs = refl

clean_schema-Lacks_example :
    (w : Value) × (clean_schema no_dict (object looped) ≡ ok w)
    × ((gs : Fields) → w ≡ object gs → Lacks is_banned (object gs))
clean_schema-Lacks_example =
    clean_schema-Lacks no_dict looped two_defs looped-RefsAreTexts looped-defs
