-- ===== src/Chat/Sanity.antt =====
-- Which schemas are accepted, in terms of their height, their size and their references.
use glc_v.Prelude.{
  ℕ, ◌+◌, ◌≤◌, max, ◌≡◌, refl, sym, ap, ◌∙◌, inl, inr, Bool, true, false, not, ◌&&◌, ◌||◌, arith,
  ltb, leb, if◌then◌else◌, Bool-cases, ℕ-Eq, String-Eq, ×-Eq, List-Eq, Result, ◌>>=◌, http, ok,
  raise,
}
use glc_v.Prelude.Value.{
  Value, Fields, Items, get_value, null, boolean, int, text, array, object, end, field, nil, cons,
}
use glc_v.Chat.Schema.{
  max_schema_depth, max_schema_nodes, refers_to_root, check_schema, check_fields, check_items,
  assert_schema_sane,
}

-- How deep the value goes, and how many values it holds.
unfoldable mutual
  pub height : Value → ℕ
  height (object fs) = height_fields fs
  height (array xs) = height_items xs
  height _ = 0

  pub height_fields : Fields → ℕ
  height_fields end = 0
  height_fields (field k v fs) = max (1 + height v) (height_fields fs)

  pub height_items : Items → ℕ
  height_items nil = 0
  height_items (cons v xs) = max (1 + height v) (height_items xs)

unfoldable mutual
  pub nodes : Value → ℕ
  nodes (object fs) = 1 + nodes_fields fs
  nodes (array xs) = 1 + nodes_items xs
  nodes _ = 1

  pub nodes_fields : Fields → ℕ
  nodes_fields end = 0
  nodes_fields (field k v fs) = nodes v + nodes_fields fs

  pub nodes_items : Items → ℕ
  nodes_items nil = 0
  nodes_items (cons v xs) = nodes v + nodes_items xs

-- Somewhere in the value a `$ref` names the whole document.
unfoldable mutual
  unfolding refers_to_root get_value

  pub refers_back : Value → Bool
  refers_back (object fs) = refers_to_root (get_value "$ref" fs) || refers_back_fields fs
  refers_back (array xs) = refers_back_items xs
  refers_back _ = false

  pub refers_back_fields : Fields → Bool
  refers_back_fields end = false
  refers_back_fields (field k v fs) = refers_back v || refers_back_fields fs

  pub refers_back_items : Items → Bool
  refers_back_items nil = false
  refers_back_items (cons v xs) = refers_back v || refers_back_items xs

-- The verdict for so much depth, size and reference.
abbrev pub judged : ℕ → ℕ → Bool → Result ℕ
judged depth size back =
    if leb depth max_schema_depth && leb size max_schema_nodes && not back
    then ok size
    else raise (http 400)

judged_back : (depth size : ℕ) → judged depth size true ≡ raise (http 400)
judged_back depth size = ground arith

judged_many :
    (depth size : ℕ) (back : Bool)
    → leb size max_schema_nodes ≡ false
    → judged depth size back ≡ raise (http 400)
judged_many depth size back many = elim (Bool-cases (leb depth max_schema_depth)) [
  | inl y ↦ rw y (rw many refl)
  | inr n ↦ rw n refl
]

judged_over :
    (depth seen h n : ℕ) (back : Bool)
    → (ltb max_schema_depth depth || ltb max_schema_nodes (seen + 1)) ≡ true
    → judged (depth + h) (seen + (1 + n)) back ≡ raise (http 400)
judged_over depth seen h n back y = ground (arith, y)

judged_first :
    (depth seen h n i m : ℕ) (back more : Bool)
    → (leb (depth + 1 + h) max_schema_depth && leb (seen + n) max_schema_nodes && not back) ≡ false
    → judged (depth + max (1 + h) i) (seen + (n + m)) (back || more) ≡ raise (http 400)
judged_first depth seen h n i m true more z = judged_back (depth + max (1 + h) i) (seen + (n + m))
judged_first depth seen h n i m false more z =
    elim (Bool-cases (leb (depth + 1 + h) max_schema_depth)) [
      | inl low ↦
          let many : leb (seen + (n + m)) max_schema_nodes ≡ false = ground (arith, z, low) in
          judged_many (depth + max (1 + h) i) (seen + (n + m)) more many
      | inr deep ↦
          let deeper : leb (depth + max (1 + h) i) max_schema_depth ≡ false =
            ground (arith, deep) in
          rw deeper refl
    ]

judged_deeper :
    (depth size h i : ℕ) (more : Bool)
    → depth + 1 + h ≤ max_schema_depth
    → judged (depth + i) size more ≡ judged (depth + max (1 + h) i) size more
judged_deeper depth size h i more low =
    let same : leb (depth + i) max_schema_depth ≡ leb (depth + max (1 + h) i) max_schema_depth =
      ground (arith, low) in
    rw same refl

-- A value in front of others, and the others.
judged_bind :
    (depth seen h n i m : ℕ) (back more : Bool) (rest : ℕ → Result ℕ)
    → (seen + n ≤ max_schema_nodes → rest (seen + n) ≡ judged (depth + i) (seen + n + m) more)
    → (judged (depth + 1 + h) (seen + n) back >>= rest)
      ≡ judged (depth + max (1 + h) i) (seen + (n + m)) (back || more)
judged_bind depth seen h n i m back more rest ih =
    elim (Bool-cases
      (leb (depth + 1 + h) max_schema_depth && leb (seen + n) max_schema_nodes && not back)) [
        | inl y ↦
            let size : seen + n + m ≡ seen + (n + m) = omega arith in
            let few : seen + n ≤ max_schema_nodes = ground (arith, y) in
            let low : depth + 1 + h ≤ max_schema_depth = ground (arith, y) in
            let clear : back ≡ false = ground (arith, y) in
            rw y (
              ih few
              ∙ ap (λ s. judged (depth + i) s more) size
              ∙ judged_deeper depth (seen + (n + m)) h i more low
              ∙ ap (λ b. judged (depth + max (1 + h) i) (seen + (n + m)) (b || more)) (sym clear))
        | inr z ↦ rw z (sym (judged_first depth seen h n i m back more z))
      ]

-- A value that is checked before the values in it.
judged_guard :
    (depth seen h n : ℕ) (own inner : Bool) (rest : Result ℕ)
    → (depth ≤ max_schema_depth
        → seen + 1 ≤ max_schema_nodes
        → rest ≡ judged (depth + h) (seen + 1 + n) inner)
    → (if ltb max_schema_depth depth || ltb max_schema_nodes (seen + 1)
        then raise (http 400)
        else if own
        then raise (http 400)
        else rest)
      ≡ judged (depth + h) (seen + (1 + n)) (own || inner)
judged_guard depth seen h n true inner rest ih =
    elim (Bool-cases (ltb max_schema_depth depth || ltb max_schema_nodes (seen + 1))) [
      | inl y ↦ rw y (sym (judged_back (depth + h) (seen + (1 + n))))
      | inr z ↦ rw z (sym (judged_back (depth + h) (seen + (1 + n))))
    ]
judged_guard depth seen h n false inner rest ih =
    elim (Bool-cases (ltb max_schema_depth depth || ltb max_schema_nodes (seen + 1))) [
      | inl y ↦ rw y (sym (judged_over depth seen h n inner y))
      | inr z ↦
          let size : seen + 1 + n ≡ seen + (1 + n) = omega arith in
          rw z
            (ih (ground (arith, z)) (ground (arith, z)) ∙ ap (λ s. judged (depth + h) s inner) size)
    ]

mutual
  unfolding check_schema height nodes refers_back

  check_schema-judged :
      (depth seen : ℕ) (v : Value)
      → check_schema depth seen v ≡ judged (depth + height v) (seen + nodes v) (refers_back v)
  check_schema-judged depth seen null = ground arith
  check_schema-judged depth seen (boolean b) = ground arith
  check_schema-judged depth seen (int n) = ground arith
  check_schema-judged depth seen (text s) = ground arith
  check_schema-judged depth seen (object fs) =
      judged_guard depth seen (height_fields fs) (nodes_fields fs)
        (refers_to_root (get_value "$ref" fs)) (refers_back_fields fs)
        (check_fields depth (seen + 1) fs) (check_fields-judged depth (seen + 1) fs)
  check_schema-judged depth seen (array xs) =
      judged_guard depth seen (height_items xs) (nodes_items xs) false (refers_back_items xs)
        (check_items depth (seen + 1) xs) (check_items-judged depth (seen + 1) xs)

  check_fields-judged :
      (depth seen : ℕ) (fs : Fields)
      → depth ≤ max_schema_depth
      → seen ≤ max_schema_nodes
      → check_fields depth seen fs
        ≡ judged (depth + height_fields fs) (seen + nodes_fields fs) (refers_back_fields fs)
  check_fields-judged depth seen end le few = ground (arith, le, few)
  check_fields-judged depth seen (field k v fs) le few =
      ap (λ r. r >>= λ more. check_fields depth more fs) (check_schema-judged (depth + 1) seen v)
      ∙ judged_bind depth seen (height v) (nodes v) (height_fields fs) (nodes_fields fs)
          (refers_back v) (refers_back_fields fs) (λ more. check_fields depth more fs)
          (check_fields-judged depth (seen + nodes v) fs le)

  check_items-judged :
      (depth seen : ℕ) (xs : Items)
      → depth ≤ max_schema_depth
      → seen ≤ max_schema_nodes
      → check_items depth seen xs
        ≡ judged (depth + height_items xs) (seen + nodes_items xs) (refers_back_items xs)
  check_items-judged depth seen nil le few = ground (arith, le, few)
  check_items-judged depth seen (cons v xs) le few =
      ap (λ r. r >>= λ more. check_items depth more xs) (check_schema-judged (depth + 1) seen v)
      ∙ judged_bind depth seen (height v) (nodes v) (height_items xs) (nodes_items xs)
          (refers_back v) (refers_back_items xs) (λ more. check_items depth more xs)
          (check_items-judged depth (seen + nodes v) xs le)

-- A schema is accepted exactly if it is at most forty levels deep, holds at most five thousand values, and
-- names the whole document by no `$ref` "#" or "#/"; it is refused with a 400 otherwise, and the counter
-- ends at the number of its values.
pub assert_schema_sane-judged :
    (v : Value) → assert_schema_sane v ≡ judged (height v) (nodes v) (refers_back v)
unfolding assert_schema_sane
assert_schema_sane-judged v =
    let depth : 0 + height v ≡ height v = omega arith in
    let size : 0 + nodes v ≡ nodes v = omega arith in
    check_schema-judged 0 0 v
    ∙ ap (λ d. judged d (0 + nodes v) (refers_back v)) depth
    ∙ ap (λ s. judged (height v) s (refers_back v)) size
