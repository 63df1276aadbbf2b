-- ===== src/Prelude/Value.antt =====
-- The values of parsed JSON and YAML documents. Floating-point numbers are left out.
use Prim.Native.Nat.{ℕ, suc}
use Prim.Native.String.{String}
use mathlib.Core.Bool.{Bool, true, false, not, ◌&&◌, ◌||◌}
use mathlib.Core.Option.{Option, none, some}
use glc_v.Prelude.Tests.{nat_eq, if◌then◌else◌}
use glc_v.Prelude.Equality.{◌==◌, ℕ-Eq, String-Eq, ×-Eq, List-Eq}
use glc_v.Prelude.Exceptions.{Result, attribute_error, ok, raise}
use glc_v.Prelude.Int.{ℤ, pos, negsuc}

mutual
  pub data Value : Type 0 where
    null : Value
    boolean : Bool → Value
    int : ℤ → Value
    text : String → Value
    array : Items → Value
    object : Fields → Value

  pub data Fields : Type 0 where
    end : Fields
    field : String → Value → Fields → Fields

  pub data Items : Type 0 where
    nil : Items
    cons : Value → Items → Items

unfoldable pub get_field : String → Fields → Option Value
get_field k end = none
get_field k (field j v fs) = if j == k then some v else get_field k fs

-- `d.get(k)`, which is None for a missing key
unfoldable pub get_value : String → Fields → Value
unfolding get_field
get_value k fs = elim (get_field k fs) [ none ↦ null | some v ↦ v ]

unfoldable pub count_fields : Fields → ℕ
count_fields end = 0
count_fields (field k v fs) = suc (count_fields fs)

unfoldable pub int_eq : ℤ → ℤ → Bool
int_eq (pos a) (pos b) = nat_eq a b
int_eq (negsuc a) (negsuc b) = nat_eq a b
int_eq _ _ = false

-- A Boolean is an integer too: `True == 1`.
unfoldable pub as_int : Value → Option ℤ
as_int (boolean true) = some (pos 1)
as_int (boolean false) = some (pos 0)
as_int (int n) = some n
as_int _ = none

unfoldable pub same_int : Option ℤ → Option ℤ → Bool
unfolding int_eq
same_int (some a) (some b) = int_eq a b
same_int _ _ = false

-- Python's `==`. Two dicts are equal whatever the order of their keys.
unfoldable mutual
  unfolding as_int same_int get_field count_fields

  pub value_eq : Value → Value → Bool
  value_eq null null = true
  value_eq (text s) (text t) = s == t
  value_eq (array xs) (array ys) = items_eq xs ys
  value_eq (object fs) (object gs) =
      nat_eq (count_fields fs) (count_fields gs) && fields_within fs gs
  value_eq (boolean b) v = same_int (as_int (boolean b)) (as_int v)
  value_eq (int n) v = same_int (some n) (as_int v)
  value_eq _ _ = false

  pub items_eq : Items → Items → Bool
  items_eq nil nil = true
  items_eq (cons x xs) (cons y ys) = value_eq x y && items_eq xs ys
  items_eq _ _ = false

  pub fields_within : Fields → Fields → Bool
  fields_within end gs = true
  fields_within (field k v fs) gs =
      elim (get_field k gs) [ none ↦ false | some w ↦ value_eq v w ] && fields_within fs gs

-- `x in xs`
unfoldable pub contains_value : Value → Items → Bool
unfolding value_eq
contains_value v nil = false
contains_value v (cons x xs) = value_eq x v || contains_value v xs

-- `bool(v)`
unfoldable pub truthy : Value → Bool
unfolding int_eq
truthy null = false
truthy (boolean b) = b
truthy (int n) = not (int_eq n (pos 0))
truthy (text s) = not (s == "")
truthy (array nil) = false
truthy (array _) = true
truthy (object end) = false
truthy (object _) = true

-- `v.get(key, default)`; only a dict has the method.
unfoldable pub value_get : Value → Value → String → Result Value
unfolding get_field
value_get (object fs) default key = ok (elim (get_field key fs) [ none ↦ default | some v ↦ v ])
value_get _ default key = raise attribute_error

-- `v or {}`
unfoldable pub or_empty : Value → Value
unfolding truthy
or_empty v = if truthy v then v else object end

-- `d[k] = v`: in the place of the key, or at the end
unfoldable pub set_field : String → Value → Fields → Fields
set_field k v end = field k v end
set_field k v (field j w fs) = if j == k then field j v fs else field j w (set_field k v fs)
