-- ===== src/Chat/Schema.antt =====
-- glc/routes/chat.py: `assert_schema_sane`, the check of a JSON schema that a caller supplies. Numbers
-- that are no integers, which are leaves, are left out.
use glc_v.Prelude.{
  ℕ, ◌+◌, Bool, false, ◌||◌, ltb, if◌then◌else◌, ◌==◌, ℕ-Eq, String-Eq, ×-Eq, List-Eq, Result,
  ◌>>=◌, http, ok, raise,
}
use glc_v.Prelude.Value.{
  Value, Fields, Items, get_value, text, array, object, end, field, nil, cons,
}
use glc_v.Text.{strip}
use glc_v.Glob.{codes}

abbrev pub max_schema_depth : ℕ
max_schema_depth = 40

abbrev pub max_schema_nodes : ℕ
max_schema_nodes = 5000

-- `ref.strip() in ("#", "#/")` for a `$ref` that is a text
unfoldable pub refers_to_root : Value → Bool
unfolding strip
refers_to_root (text s) = strip (codes s) == codes "#" || strip (codes s) == codes "#/"
refers_to_root _ = false

abbrev insane : Result ℕ
insane = raise (http 400)

-- `assert_schema_sane` at a depth, with the counter before it; the result is the counter behind it. The
-- depth of the fields and items is that of the value that holds them.
unfoldable mutual
  unfolding refers_to_root get_value

  pub check_schema : ℕ → ℕ → Value → Result ℕ
  check_schema depth seen (object fs) =
      let rest = check_fields depth (seen + 1) fs in
      if ltb max_schema_depth depth || ltb max_schema_nodes (seen + 1)
      then insane
      else if refers_to_root (get_value "$ref" fs)
      then insane
      else rest
  check_schema depth seen (array xs) =
      let rest = check_items depth (seen + 1) xs in
      if ltb max_schema_depth depth || ltb max_schema_nodes (seen + 1) then insane else rest
  check_schema depth seen v =
      if ltb max_schema_depth depth || ltb max_schema_nodes (seen + 1)
      then insane
      else ok (seen + 1)

  pub check_fields : ℕ → ℕ → Fields → Result ℕ
  check_fields depth seen end = ok seen
  check_fields depth seen (field k v fs) =
      check_schema (depth + 1) seen v >>= λ more. check_fields depth more fs

  pub check_items : ℕ → ℕ → Items → Result ℕ
  check_items depth seen nil = ok seen
  check_items depth seen (cons v xs) =
      check_schema (depth + 1) seen v >>= λ more. check_items depth more xs

-- `assert_schema_sane(schema)`
unfoldable pub assert_schema_sane : Value → Result ℕ
unfolding check_schema
assert_schema_sane v = check_schema 0 0 v
