-- ===== src/Providers/Schema/Keys.antt =====
-- The keys that a value has at any depth, through the operations of the schema walk.
use glc_v.Prelude.{
  String, ◌≡◌, refl, sym, ◌∙◌, subst, inl, inr, Bool, true, false, ◌||◌, none, some, arith,
  Bool-cases, Option-cases, some-injective, ◌==◌, ℕ-Eq, String-Eq, ×-Eq, List-Eq,
}
use glc_v.Prelude.Value.{
  Value, Fields, Items, get_field, get_value, set_field, null, boolean, int, text, array, object,
  end, field, nil, cons,
}
use glc_v.Providers.Schema.{update, with_extras, is_dropped, strip_keys, strip_fields, strip_items}

-- No key of the value passes the test, at any depth.
unfoldable mutual
  pub Lacks : (String → Bool) → Value → Type 0
  Lacks p (object fs) = LacksFields p fs
  Lacks p (array xs) = LacksItems p xs
  Lacks p _ = Unit

  pub LacksFields : (String → Bool) → Fields → Type 0
  LacksFields p end = Unit
  LacksFields p (field k v fs) = (p k ≡ false) × Lacks p v × LacksFields p fs

  pub LacksItems : (String → Bool) → Items → Type 0
  LacksItems p nil = Unit
  LacksItems p (cons v xs) = Lacks p v × LacksItems p xs

abbrev pub IsText : Value → Type 0
IsText v = (s : String) × (v ≡ text s)

-- Every `$ref` is a text, at any depth.
unfoldable mutual
  pub RefsAreTexts : Value → Type 0
  RefsAreTexts (object fs) = FieldsAreSound fs
  RefsAreTexts (array xs) = ItemsAreSound xs
  RefsAreTexts _ = Unit

  pub FieldsAreSound : Fields → Type 0
  FieldsAreSound end = Unit
  FieldsAreSound (field k v fs) =
      (k == "$ref" ≡ true → IsText v) × RefsAreTexts v × FieldsAreSound fs

  pub ItemsAreSound : Items → Type 0
  ItemsAreSound nil = Unit
  ItemsAreSound (cons v xs) = RefsAreTexts v × ItemsAreSound xs

abbrev pub is_ref : String → Bool
is_ref k = k == "$ref"

abbrev pub is_banned : String → Bool
is_banned k = is_ref k || is_dropped k

module _ (p : String → Bool) where
  set_field-Lacks :
      (k : String) (v : Value) (fs : Fields)
      → p k ≡ false
      → Lacks p v
      → LacksFields p fs
      → LacksFields p (set_field k v fs)
  unfolding Lacks set_field
  set_field-Lacks k v end f h l = (f, h, tt)
  set_field-Lacks k v (field j w fs) f h l = elim (Bool-cases (j == k)) [
    | inl same ↦ rw same (l.0, h, l.2)
    | inr other ↦ rw other (l.0, l.1, set_field-Lacks k v fs f h l.2)
  ]

  pub update-Lacks :
      (fs gs : Fields) → LacksFields p fs → LacksFields p gs → LacksFields p (update fs gs)
  unfolding Lacks update
  update-Lacks fs end l m = l
  update-Lacks fs (field k v gs) l m =
      update-Lacks (set_field k v fs) gs (set_field-Lacks k v fs m.0 m.1 l) m.2

  pub with_extras-Lacks :
      (v : Value) (gs : Fields) → Lacks p v → LacksFields p gs → Lacks p (with_extras v gs)
  unfolding Lacks
  with_extras-Lacks (object fs) gs l m = update-Lacks fs gs l m
  with_extras-Lacks null gs l m = l
  with_extras-Lacks (boolean b) gs l m = l
  with_extras-Lacks (int n) gs l m = l
  with_extras-Lacks (text s) gs l m = l
  with_extras-Lacks (array xs) gs l m = l

mutual
  unfolding Lacks strip_keys

  strip_keys-Lacks : (v : Value) → Lacks is_ref v → Lacks is_banned (strip_keys v)
  strip_keys-Lacks (object fs) l = strip_fields-Lacks fs l
  strip_keys-Lacks (array xs) l = strip_items-Lacks xs l
  strip_keys-Lacks null l = tt
  strip_keys-Lacks (boolean b) l = tt
  strip_keys-Lacks (int n) l = tt
  strip_keys-Lacks (text s) l = tt

  strip_fields-Lacks :
      (fs : Fields) → LacksFields is_ref fs → LacksFields is_banned (strip_fields fs)
  strip_fields-Lacks end l = tt
  strip_fields-Lacks (field k v fs) l = elim (Bool-cases (is_dropped k)) [
    | inl gone ↦ rw gone (strip_fields-Lacks fs l.2)
    | inr kept ↦ rw kept (rw (l.0, kept) refl, strip_keys-Lacks v l.1, strip_fields-Lacks fs l.2)
  ]

  strip_items-Lacks : (xs : Items) → LacksItems is_ref xs → LacksItems is_banned (strip_items xs)
  strip_items-Lacks nil l = tt
  strip_items-Lacks (cons v xs) l = (strip_keys-Lacks v l.0, strip_items-Lacks xs l.1)

pub strip_keys_lem : (v : Value) → Lacks is_ref v → Lacks is_banned (strip_keys v)
strip_keys_lem v l = strip_keys-Lacks v l

-- What a field holds.
pub get_field-RefsAreTexts :
    (k : String) (fs : Fields) (v : Value)
    → FieldsAreSound fs
    → get_field k fs ≡ some v
    → RefsAreTexts v
unfolding RefsAreTexts get_field
get_field-RefsAreTexts k end v h e = absurd (ground (arith, e))
get_field-RefsAreTexts k (field j w fs) v h e = elim (Bool-cases (j == k)) [
  | inl same ↦ subst RefsAreTexts (some-injective (sym (ground (arith, same)) ∙ e)) h.1
  | inr other ↦ get_field-RefsAreTexts k fs v h.2 (sym (ground (arith, other)) ∙ e)
]

value_none : (k : String) (fs : Fields) → get_field k fs ≡ none → get_value k fs ≡ null
unfolding get_value
value_none k fs f = ground (arith, f)

value_some : (k : String) (fs : Fields) (v : Value) → get_field k fs ≡ some v → get_value k fs ≡ v
unfolding get_value
value_some k fs v f = ground (arith, f)

pub get_value-RefsAreTexts :
    (k : String) (fs : Fields) → FieldsAreSound fs → RefsAreTexts (get_value k fs)
unfolding RefsAreTexts get_value
get_value-RefsAreTexts k fs h = elim (Option-cases (get_field k fs)) [
  | inl f ↦ subst RefsAreTexts (sym (value_none k fs f)) tt
  | inr (v, f) ↦ subst RefsAreTexts (sym (value_some k fs v f)) (get_field-RefsAreTexts k fs v h f)
]

pub get_field-IsText :
    (fs : Fields) (v : Value) → FieldsAreSound fs → get_field "$ref" fs ≡ some v → IsText v
unfolding RefsAreTexts get_field
get_field-IsText end v h e = absurd (ground (arith, e))
get_field-IsText (field j w fs) v h e = elim (Bool-cases (j == "$ref")) [
  | inl same ↦ subst IsText (some-injective (sym (ground (arith, same)) ∙ e)) (h.0 same)
  | inr other ↦ get_field-IsText fs v h.2 (sym (ground (arith, other)) ∙ e)
]
