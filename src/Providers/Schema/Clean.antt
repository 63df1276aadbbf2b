-- ===== src/Providers/Schema/Clean.antt =====
-- That the walk of a schema ends, and what is left of its keys.
use glc_v.Prelude.{
  ℕ, zero, suc, ◌≤◌, String, ◌≡◌, refl, subst, inl, inr, Option, some, List, [], ◌∷◌, arith,
  Bool-cases, Option-cases, ◌==◌, ℕ-Eq, String-Eq, ×-Eq, List-Eq, Result, recursion_error, ok,
  raise,
}
use glc_v.Prelude.Value.{
  Value, Fields, Items, get_field, get_value, count_fields, truthy, null, boolean, int, text, array,
  object, end, field, nil, cons,
}
use glc_v.Providers.Schema.{
  strip_prefix, ref_name, followed, with_extras, inlined, walk_with, walk_fields, walk_items, walk,
  defs_value, inline_refs, if_object, clean_schema,
}
use glc_v.Providers.Schema.Keys.{
  Lacks, LacksFields, LacksItems, IsText, RefsAreTexts, FieldsAreSound, ItemsAreSound, is_ref,
  is_banned, with_extras-Lacks, strip_keys_lem, get_field-RefsAreTexts, get_value-RefsAreTexts,
  get_field-IsText,
}
use glc_v.Providers.Schema.Follow.{unseen, unseen-le, followed-new}

-- A walk that returns a value without references.
abbrev Walked : Result Value → Type 0
Walked r = (w : Value) × (r ≡ ok w) × Lacks is_ref w

ref_name_total : (v : Value) → IsText v → (name : Option String) × (ref_name v ≡ ok name)
unfolding ref_name
ref_name_total v (s, e) = elim (Option-cases (strip_prefix "#/$defs/" s)) [
  | inl f ↦ (strip_prefix "#/definitions/" s, ground (arith, e, f))
  | inr (name, f) ↦ (some name, ground (arith, e, f))
]

module _ (defs : Fields) (follow : List String → Value → Result Value) (seen : List String)
    (follows : (ref : Option String) (n : String) (d : Value)
      → followed defs seen ref ≡ some (n, d)
      → Walked (follow (n ∷ seen) d)) where
  inlined-Walked :
      (fs : Fields) (rest : Result Fields) (gs : Fields)
      → FieldsAreSound fs
      → rest ≡ ok gs
      → LacksFields is_ref gs
      → Walked (inlined defs seen follow fs rest)
  unfolding Lacks
  inlined-Walked fs rest gs h q l = elim (Option-cases (get_field "$ref" fs)) [
    | inl f ↦ (object gs, ground (arith, f, q), l)
    | inr (target, f) ↦
        let (name, named) = ref_name_total target (get_field-IsText fs target h f) in
        elim (Option-cases (followed defs seen name)) [
          | inl g ↦ (object gs, ground (arith, f, q, named, g), l)
          | inr ((n, d), g) ↦
              let (w, walked, m) = follows name n d g in
              (
                with_extras w gs,
                ground (arith, f, q, named, g, walked),
                with_extras-Lacks is_ref w gs m l,
              )
        ]
  ]

  mutual
    unfolding walk_with Lacks RefsAreTexts

    walk_with-Walked : (v : Value) → RefsAreTexts v → Walked (walk_with defs follow seen v)
    walk_with-Walked (object fs) h =
        let (gs, q, l) = walk_fields-Lacks fs h in
        inlined-Walked fs (walk_fields defs follow seen fs) gs h q l
    walk_with-Walked (array xs) h =
        let (ys, q, l) = walk_items-Lacks xs h in (array ys, rw q refl, l)
    walk_with-Walked null h = (null, refl, tt)
    walk_with-Walked (boolean b) h = (boolean b, refl, tt)
    walk_with-Walked (int n) h = (int n, refl, tt)
    walk_with-Walked (text s) h = (text s, refl, tt)

    walk_fields-Lacks :
        (fs : Fields)
        → FieldsAreSound fs
        → (gs : Fields) × (walk_fields defs follow seen fs ≡ ok gs) × LacksFields is_ref gs
    walk_fields-Lacks end h = (end, refl, tt)
    walk_fields-Lacks (field k v fs) h =
        let (w, q, m) = walk_with-Walked v h.1 in
        let (gs, r, l) = walk_fields-Lacks fs h.2 in
        elim (Bool-cases (k == "$ref")) [
          | inl gone ↦ (gs, rw gone r, l)
          | inr kept ↦ (field k w gs, rw kept (rw q (rw r refl)), (kept, m, l))
        ]

    walk_items-Lacks :
        (xs : Items)
        → ItemsAreSound xs
        → (ys : Items) × (walk_items defs follow seen xs ≡ ok ys) × LacksItems is_ref ys
    walk_items-Lacks nil h = (nil, refl, tt)
    walk_items-Lacks (cons v xs) h =
        let (w, q, m) = walk_with-Walked v h.0 in
        let (ys, r, l) = walk_items-Lacks xs h.1 in (cons w ys, rw q (rw r refl), (m, l))

module _ (defs : Fields) (sound : FieldsAreSound defs) where
  walk-Walked :
      (fuel : ℕ) (seen : List String) (v : Value)
      → unseen defs seen ≤ fuel
      → RefsAreTexts v
      → Walked (walk fuel defs seen v)
  unfolding walk
  walk-Walked zero seen v few h =
      walk_with-Walked defs (λ seen' d. raise recursion_error) seen
        (λ ref n d e.
          let (f, less) = followed-new defs seen ref n d e in absurd (omega (arith, few, less)))
        v h
  walk-Walked (suc fuel) seen v few h =
      walk_with-Walked defs (walk fuel defs) seen
        (λ ref n d e.
          let (f, less) = followed-new defs seen ref n d e in
          walk-Walked fuel (n ∷ seen) d (omega (arith, few, less))
            (get_field-RefsAreTexts n defs d sound f))
        v h

defs_value-RefsAreTexts : (fs : Fields) → FieldsAreSound fs → RefsAreTexts (defs_value fs)
unfolding RefsAreTexts
defs_value-RefsAreTexts fs h = elim (Bool-cases (truthy (get_value "$defs" fs))) [
  | inl a ↦ rw a (get_value-RefsAreTexts "$defs" fs h)
  | inr a ↦ elim (Bool-cases (truthy (get_value "definitions" fs))) [
    | inl b ↦ rw a (rw b (get_value-RefsAreTexts "definitions" fs h))
    | inr b ↦ rw a (rw b tt)
  ]
]

if_object-Lacks :
    (v : Value) (gs : Fields)
    → Lacks is_ref v
    → if_object v ≡ object gs
    → Lacks is_banned (object gs)
if_object-Lacks (object fs) gs l e = subst (Lacks is_banned) e (strip_keys_lem (object fs) l)
if_object-Lacks null gs l e = cc
if_object-Lacks (boolean b) gs l e = cc
if_object-Lacks (int n) gs l e = cc
if_object-Lacks (text s) gs l e = cc
if_object-Lacks (array xs) gs l e = cc

-- For a schema in which every `$ref` is a text and the definitions are a dict: cleaning ends and returns a
-- schema, however the definitions refer to each other, the fuel being as many steps as there are
-- definitions; and where the schema is a dict, no `$ref` and no dropped key is left at any depth.
pub clean_schema-Lacks :
    (to_dict : Value → Result Fields) (fs defs : Fields)
    → RefsAreTexts (object fs)
    → defs_value fs ≡ object defs
    → (w : Value) × (clean_schema to_dict (object fs) ≡ ok w)
      × ((gs : Fields) → w ≡ object gs → Lacks is_banned (object gs))
unfolding clean_schema inline_refs RefsAreTexts
clean_schema-Lacks to_dict fs defs h e =
    let sound : FieldsAreSound defs = subst RefsAreTexts e (defs_value-RefsAreTexts fs h) in
    let (w, q, l) = walk-Walked defs sound (count_fields defs) [] (object fs) (unseen-le defs) h in
    (if_object w, ground (arith, e, q), λ gs d. if_object-Lacks w gs l d)
