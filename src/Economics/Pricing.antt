-- ===== src/Economics/Pricing.antt =====
-- glc/economics/pricing.py: loading pricing.yaml and resolving the price of a model. A rate is a number
-- of the host's type `N`, read by its `float`.
pub mod Cost
pub mod Laws
pub mod Projection
mod Tests
use glc_v.Prelude.{
  String, Bool, true, false, ◌&&◌, Option, none, some, [], ◌∷◌, if◌then◌else◌, ◌==◌, ℕ-Eq,
  String-Eq, ×-Eq, List-Eq, Result, ◌>>=◌, ◌>>◌, type_error, value_error, attribute_error, ok,
  raise,
}
use glc_v.Prelude.Int.{pos}
use glc_v.Prelude.Value.{
  Value, Fields, Items, get_field, get_value, truthy, value_get, or_empty, null, int, text, array,
  object, end, field, nil, cons,
}
use glc_v.Text.{Text, strip}
use glc_v.Glob.{codes, translate, match_tokens}

pub data PriceSource : Type 0 where
  by_model by_suffix by_provider unpriced : PriceSource
  by_pattern : Value → PriceSource

pub record ModelPrice (N : Type 0) : Type 0 where
  pub model : Text
  pub provider : Text
  pub input_usd_per_mtok : N
  pub output_usd_per_mtok : N
  pub cache_read_multiplier : N
  pub cache_write_multiplier : N
  pub batch_multiplier : N
  pub quality : Option N
  pub source : PriceSource

pub record PricingTable : Type 0 where
  pub models : Fields
  pub patterns : Items
  pub providers : Value
  pub defaults : Value
  pub unpriced_default : Value

-- `_base_provider`
unfoldable pub base_provider : Text → Text
base_provider [] = []
base_provider (c ∷ cs) = let rest = base_provider cs in if c == b'_' then [] else c ∷ rest

-- `model.rsplit("/", 1)[1]`, none without a slash
unfoldable pub last_part : Text → Option Text
last_part [] = none
last_part (c ∷ cs) = elim (last_part cs) [
  | some t ↦ some t
  | none ↦ if c == b'/' then some cs else none
]

unfoldable pub find : Text → Fields → Option Value
find t end = none
find t (field k v fs) = if codes k == t then some v else find t fs

abbrev or_empties : Fields → Fields
or_empties end = end
or_empties (field k v fs) = field k (or_empty v) (or_empties fs)

-- `models` must be a mapping.
abbrev models_of : Value → Result Fields
models_of v = elim (or_empty v) [ object fs ↦ ok (or_empties fs) | w ↦ raise value_error ]

abbrev is_pattern : Value → Bool
is_pattern (object fs) = elim (get_field "match" fs) [ none ↦ false | some _ ↦ true ]
is_pattern _ = false

unfoldable pub all_patterns : Items → Bool
unfolding get_field
all_patterns nil = true
all_patterns (cons p ps) = is_pattern p && all_patterns ps

abbrev check_patterns : Items → Result Items
check_patterns ps = if all_patterns ps then ok ps else raise value_error

-- `patterns` must be a list of mappings with a `match`.
abbrev patterns_of : Value → Result Items
patterns_of v =
    if truthy v then elim v [ array ps ↦ check_patterns ps | w ↦ raise value_error ] else ok nil

abbrev free : Value
free = object (field "input" (int (pos 0)) (field "output" (int (pos 0)) end))

-- `PricingTable.from_dict`
unfoldable pub from_dict : Fields → Result PricingTable
unfolding or_empty all_patterns get_value truthy
from_dict fields = do
  models ← models_of (get_value "models" fields)
  patterns ← patterns_of (get_value "patterns" fields)
  ok (record {
    models = models;
    patterns = patterns;
    providers = or_empty (get_value "providers" fields);
    defaults = or_empty (get_value "defaults" fields);
    unpriced_default =
        (if truthy (get_value "unpriced_default" fields)
          then get_value "unpriced_default" fields
          else free);
  })

abbrev pub find_suffix : Text → Fields → Option Value
find_suffix name models = elim (last_part name) [ none ↦ none | some t ↦ find t models ]

abbrev pub by_pattern_of : Option (Value × Value) → Option (Value × PriceSource)
by_pattern_of none = none
by_pattern_of (some (p, glob)) = some (p, by_pattern glob)

abbrev pub or_base : Text → Text → Text
or_base base [] = base
or_base base (c ∷ cs) = c ∷ cs

abbrev pub provider_entry : Text → Value → Option Value
provider_entry base (object fs) = find base fs
provider_entry base _ = none

module _ (str_of : Value → Text) where
  abbrev pattern_text : Value → Text
  pattern_text (text s) = codes s
  pattern_text v = str_of v

  -- The first pattern whose glob the model matches, with that glob.
  unfoldable pub first_pattern : Text → Items → Option (Value × Value)
  unfolding get_value match_tokens translate
  first_pattern model nil = none
  first_pattern model (cons (object fs) ps) =
      let rest = first_pattern model ps in
      if match_tokens (translate 0 (pattern_text (get_value "match" fs))) model
      then some (object fs, get_value "match" fs)
      else rest
  first_pattern model (cons p ps) = first_pattern model ps

  abbrev pub by_name : Text → PricingTable → Option (Value × PriceSource)
  by_name [] table = none
  by_name (c ∷ cs) table = elim (find (c ∷ cs) table.models) [
    | some e ↦ some (e, by_model)
    | none ↦ elim (find_suffix (c ∷ cs) table.models) [
      | some e ↦ some (e, by_suffix)
      | none ↦ by_pattern_of (first_pattern (c ∷ cs) table.patterns)
    ]
  ]

module _ {N : Type 0} (float : Value → Result N) (zero_rate one_rate : N) where
  -- `except (TypeError, ValueError)` of `_f`
  abbrev as_value_error : Result N → Result N
  as_value_error (raise type_error) = raise value_error
  as_value_error r = r

  -- `_f`
  unfoldable pub rate : Value → String → N → Result N
  unfolding get_field
  rate (object fs) key default = elim (get_field key fs) [
    | none ↦ ok default
    | some v ↦ as_value_error (float v)
  ]
  rate _ key default = raise attribute_error

  unfoldable pub quality_of : Value → Result (Option N)
  unfolding value_get
  quality_of e = value_get e null "quality" >>= λ q. elim q [
    | null ↦ ok none
    | v ↦ float v >>= λ n. ok (some n)
  ]

  -- `_mk`
  unfoldable pub make_price : Value → Value → Text → Text → PriceSource → Result (ModelPrice N)
  unfolding rate quality_of
  make_price defaults e model provider source = do
    input ← rate e "input" zero_rate
    output ← rate e "output" zero_rate
    read_default ← rate defaults "cache_read_multiplier" one_rate
    read ← rate e "cache_read_multiplier" read_default
    write_default ← rate defaults "cache_write_multiplier" one_rate
    write ← rate e "cache_write_multiplier" write_default
    batch_default ← rate defaults "batch_multiplier" one_rate
    batch ← rate e "batch_multiplier" batch_default
    quality ← quality_of e
    ok (record {
      model = model;
      provider = provider;
      input_usd_per_mtok = input;
      output_usd_per_mtok = output;
      cache_read_multiplier = read;
      cache_write_multiplier = write;
      batch_multiplier = batch;
      quality = quality;
      source = source;
    })

  -- `price_for`, where `providers` is a mapping
  unfoldable pub price_for : (Value → Text) → PricingTable → Text → Text → Result (ModelPrice N)
  unfolding base_provider strip find last_part first_pattern make_price
  price_for str_of table provider model =
      let base = base_provider provider in
      let name = strip model in
      elim (by_name str_of name table) [
        | some (e, source) ↦ make_price table.defaults e name base source
        | none ↦ elim (provider_entry base table.providers) [
          | some e ↦ make_price table.defaults e (or_base base name) base by_provider
          | none ↦
              make_price table.defaults table.unpriced_default (or_base base name) base unpriced
        ]
      ]
