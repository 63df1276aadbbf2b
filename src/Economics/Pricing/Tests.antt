-- ===== src/Economics/Pricing/Tests.antt =====
-- Prices with the numbers as their own rates.
use native.Mathlib.Nat.{
  le_trans, mul-le-mul_right, le-mul_of_pos_right, div-mul-le_self, le-div_iff_mul-le,
}
use glc_v.Prelude.{
  ℕ, ◌+◌, ◌-◌, ◌*◌, ◌/◌, ◌≤◌, String, ◌≡◌, refl, false, Option, none, some, [], arith, ltb, ltb→ge,
  ◌==◌, ℕ-Eq, String-Eq, ×-Eq, List-Eq, Result, type_error, ok, raise,
}
use glc_v.Prelude.Int.{ℤ, pos_part, pos}
use glc_v.Prelude.Floats.{Floats, IsMonotone, NotBelow}
use glc_v.Prelude.Value.{Value, get_field, value_get, int, object, end, field, nil}
use glc_v.Glob.{codes}
use glc_v.Economics.Pricing.Cost.{fresh, price_in, cost_usd, project_usd}
use glc_v.Economics.Budget.Estimate.{Estimator, setting, out_tokens, project, project-covers}
use glc_v.Economics.Pricing.{
  ModelPrice, PricingTable, PriceSource, price_for, by_model, by_suffix, unpriced,
}

abbrev read_rate : Value → Result ℤ
read_rate (int n) = ok n
read_rate _ = raise type_error

abbrev free_rates : Value
free_rates = object (field "input" (int (pos 0)) end)

abbrev a_table : PricingTable
a_table = record {
  models = field "m1" (object (field "input" (int (pos 3)) end)) end;
  patterns = nil;
  providers = object end;
  defaults = object end;
  unpriced_default = free_rates;
}

abbrev price_of : String → Result (ModelPrice ℤ)
price_of model =
    price_for read_rate (pos 0) (pos 1) (λ _. []) a_table (codes "groq_2") (codes model)

abbrev unpriced_price : ModelPrice ℤ
unpriced_price = record {
  model = codes "other";
  provider = codes "groq";
  input_usd_per_mtok = pos 0;
  output_usd_per_mtok = pos 0;
  cache_read_multiplier = pos 1;
  cache_write_multiplier = pos 1;
  batch_multiplier = pos 1;
  quality = none;
  source = unpriced;
}

abbrev map_source : Result (ModelPrice ℤ) → Option PriceSource
map_source (ok p) = some p.source
map_source (raise x) = none

finds_the_suffix : map_source (price_of "vendor/m1") ≡ some by_suffix
unfolding price_for value_get
finds_the_suffix = refl

-- Whole dollars: a ratio is rounded down.
abbrev dollars : Floats ℕ
dollars = record {
  add = λ a b. a + b;
  sub = λ a b. a - b;
  mul = λ a b. a * b;
  div = λ a b. a / b;
  less = ltb;
  is_zero = λ a. a == 0;
  ratio = λ a b. a / b;
}

div_mono : (d m n : ℕ) → 1 ≤ d → m ≤ n → m / d ≤ n / d
div_mono d m n one h = (le-div_iff_mul-le one).1 (le_trans (div-mul-le_self m d) h)

not_below : (a b : ℕ) → a ≤ b → ltb b a ≡ false
not_below a b h = ground arith

dollars-IsMonotone : IsMonotone dollars
dollars-IsMonotone = record {
  not_below_self = λ a. ground arith;
  add_mono = λ a b c d h k. ground arith;
  mul_mono = λ a b r h k. not_below (a * r) (b * r) (mul-le-mul_right r (ltb→ge b a h));
  ratio_mono = λ m n d one h. not_below (m / d) (n / d) (div_mono d m n one h);
  ratio_nonneg = λ n d. ground arith;
  add_nonneg = λ a b h k. ground arith;
  mul_nonneg = λ a b h k. ground arith;
  less_above = λ a b c h k. ground arith;
  scale_up = λ a b s h k l.
      not_below a (b * s) (le_trans (ltb→ge b a h) (le-mul_of_pos_right {m = s} b (ltb→ge s 1 l)));
}

abbrev read_dollars : Value → Result ℕ
read_dollars (int (pos n)) = ok n
read_dollars _ = raise type_error

-- Three dollars for a million tokens that are read, cache writes at double the price.
abbrev rates : Value
rates = object (
    field "input" (int (pos 3))
      (field "output" (int (pos 5)) (field "cache_write_multiplier" (int (pos 2)) end)))

abbrev priced_table : PricingTable
priced_table = record a_table { models = field "m1" rates end }

abbrev m1_price : ModelPrice ℕ
m1_price = record {
  model = codes "m1";
  provider = codes "groq";
  input_usd_per_mtok = 3;
  output_usd_per_mtok = 5;
  cache_read_multiplier = 1;
  cache_write_multiplier = 2;
  batch_multiplier = 1;
  quality = none;
  source = by_model;
}

finds_m1 :
    price_in dollars read_dollars (λ _. []) (λ a. a) priced_table (codes "groq") (codes "m1")
    ≡ ok m1_price
unfolding price_for value_get
finds_m1 = refl

-- A cache write of two million tokens costs more than their projection.
cache_write_paid :
    cost_usd dollars read_dollars
      (λ _. [])
      (λ a. a)
      priced_table
      (codes "groq")
      (codes "m1")
      (record {
        input_tokens = pos 0;
        output_tokens = pos 0;
        cache_read_tokens = pos 0;
        cache_write_tokens = pos 2000000;
      })
      false
    ≡ ok 12
unfolding cost_usd price_for value_get
cache_write_paid = refl

cache_write_projected :
    project_usd dollars read_dollars
      (λ _. [])
      (λ a. a)
      priced_table
      (codes "groq")
      (codes "m1")
      (pos 2000000)
      (pos 0)
      false
      1
    ≡ ok 6
unfolding project_usd price_for value_get
cache_write_projected = refl

abbrev an_estimator : Estimator ℕ
an_estimator = record {
  float = read_dollars;
  str_of = λ _. [];
  truncate = λ n. ok (pos n);
  scale = λ n r. pos_part n * r;
  round8 = λ a. a;
}

abbrev settings : Value
settings = object (field "safety_factor" (int (pos 2)) (field "min_usd" (int (pos 1)) end))

project-covers_example :
    (paid projected : ℕ) × (cost_usd dollars read_dollars
        (λ _. [])
        (λ a. a)
        priced_table
        (codes "groq")
        (codes "m1")
        (fresh (pos 2000000) (pos 1000000))
        false
      ≡ ok paid)
    × (project dollars an_estimator priced_table settings
          (codes "groq")
          (codes "m1")
          (pos 3000000)
          (pos 4000000)
          false
        ≡ ok projected)
    × NotBelow dollars paid projected
unfolding out_tokens setting value_get get_field
project-covers_example =
    project-covers dollars an_estimator dollars-IsMonotone (λ a b h. h) priced_table settings
      (codes "groq") (codes "m1") m1_price finds_m1
      (record { input = refl; output = refl; cache_read = refl; cache_write = refl; batch = refl })
      false (pos 2000000) (pos 3000000) (pos 1000000) (pos 4000000) (pos 4000000) 2 1 refl refl refl
      (ground arith) (ground arith) refl refl
