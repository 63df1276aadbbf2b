-- ===== src/Economics/Pricing/Cost.antt =====
-- glc/economics/pricing.py: what a call costs, and what it is projected to cost. The multiplication and
-- rounding of floating-point numbers is the host's; the shared table is an argument.
use glc_v.Prelude.{
  ℕ, Bool, Option, none, some, if◌then◌else◌, ℕ-Eq, String-Eq, ×-Eq, List-Eq, Result, ◌>>=◌, ok,
}
use glc_v.Prelude.Int.{ℤ, pos_part, pos}
use glc_v.Prelude.Floats.{Floats, zero_of, one_of}
use glc_v.Prelude.Value.{Value}
use glc_v.Text.{Text}
use glc_v.Economics.Principals.{Usage}
use glc_v.Economics.Pricing.{ModelPrice, PricingTable, PriceSource, price_for}

pub record CostBreakdown (N : Type 0) : Type 0 where
  pub input_usd : N
  pub output_usd : N
  pub cache_read_usd : N
  pub cache_write_usd : N
  pub total_usd : N
  pub price_source : PriceSource
  pub model : Text
  pub provider : Text

abbrev pub mtok : ℕ
mtok = 1000000

-- No cached tokens.
abbrev pub fresh : ℤ → ℤ → Usage
fresh input output = record {
  input_tokens = input;
  output_tokens = output;
  cache_read_tokens = pos 0;
  cache_write_tokens = pos 0;
}

module _ {N : Type 0} (f : Floats N) where
  -- `max(0, tokens) / MTOK`
  abbrev pub mtoks : ℤ → N
  mtoks tokens = f.ratio (pos_part tokens) mtok

  abbrev pub rate_of : ModelPrice N → Bool → N → N
  rate_of p batch usd_per_mtok = f.mul usd_per_mtok (if batch then p.batch_multiplier else one_of f)

  abbrev pub sum_of : N → N → N → N → N
  sum_of a b c d = f.add (f.add (f.add a b) c) d

  -- `cost` behind the lookup of the price.
  unfoldable pub cost_at : ModelPrice N → Usage → Bool → CostBreakdown N
  cost_at p t batch =
      let in_rate = rate_of p batch p.input_usd_per_mtok in
      let out_rate = rate_of p batch p.output_usd_per_mtok in
      let input = f.mul (mtoks t.input_tokens) in_rate in
      let output = f.mul (mtoks t.output_tokens) out_rate in
      let read = f.mul (f.mul (mtoks t.cache_read_tokens) in_rate) p.cache_read_multiplier in
      let write = f.mul (f.mul (mtoks t.cache_write_tokens) in_rate) p.cache_write_multiplier in
      record {
        input_usd = input;
        output_usd = output;
        cache_read_usd = read;
        cache_write_usd = write;
        total_usd = sum_of input output read write;
        price_source = p.source;
        model = p.model;
        provider = p.provider;
      }

  module _ (float : Value → Result N) (str_of : Value → Text) (round8 : N → N)
      (table : PricingTable) (provider model : Text) where
    -- `price_for` with the constants of `_mk`.
    abbrev pub price_in : Result (ModelPrice N)
    price_in = price_for float (zero_of f) (one_of f) str_of table provider model

    unfoldable pub cost : Usage → Bool → Result (CostBreakdown N)
    unfolding price_for cost_at
    cost t batch = price_in >>= λ p. ok (cost_at p t batch)

    -- The module's `cost_usd`.
    unfoldable pub cost_usd : Usage → Bool → Result N
    unfolding cost
    cost_usd t batch = cost t batch >>= λ b. ok (round8 b.total_usd)

    unfoldable pub project_usd : ℤ → ℤ → Bool → N → Result N
    unfolding cost
    project_usd est_input max_output batch safety = cost (fresh est_input max_output) batch >>= λ b.
        ok (round8 (f.mul b.total_usd (if f.less (zero_of f) safety then safety else zero_of f)))

    abbrev or_default : N → Option N → N
    or_default default none = default
    or_default default (some q) = q

    unfoldable pub quality_for : N → Result N
    unfolding price_for
    quality_for default = price_in >>= λ p. ok (or_default default p.quality)
