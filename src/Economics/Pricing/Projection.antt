-- ===== src/Economics/Pricing/Projection.antt =====
-- The projected cost of a call, which the budget admits, against its cost.
use glc_v.Prelude.{
  ◌≤◌, ◌≡◌, Bool, true, false, arith, if◌then◌else◌, ℕ-Eq, String-Eq, ×-Eq, List-Eq, Result, ok,
}
use glc_v.Prelude.Int.{ℤ, pos_part, ◌≤ℤ◌, pos}
use glc_v.Prelude.Floats.{Floats, IsMonotone, zero_of, one_of, NotBelow}
use glc_v.Prelude.Value.{Value}
use glc_v.Text.{Text}
use glc_v.Economics.Principals.{Usage}
use glc_v.Economics.Pricing.{ModelPrice, PricingTable}
use glc_v.Economics.Pricing.Cost.{
  mtok, fresh, mtoks, rate_of, sum_of, cost_at, price_in, cost, cost_usd, project_usd,
}

-- No rate and no multiplier is below zero.
pub record IsNonneg {N : Type 0} (f : Floats N) (p : ModelPrice N) : Type 0 where
  pub input : NotBelow f (zero_of f) p.input_usd_per_mtok
  pub output : NotBelow f (zero_of f) p.output_usd_per_mtok
  pub cache_read : NotBelow f (zero_of f) p.cache_read_multiplier
  pub cache_write : NotBelow f (zero_of f) p.cache_write_multiplier
  pub batch : NotBelow f (zero_of f) p.batch_multiplier

pos_part_mono : (a b : ℤ) → a ≤ℤ b → pos_part a ≤ pos_part b
pos_part_mono a b h = ground arith

module _ {N : Type 0} (f : Floats N) (laws : IsMonotone f) (p : ModelPrice N)
    (nonneg : IsNonneg f p) (batch : Bool) where
  rate-nonneg :
      (usd : N) → NotBelow f (zero_of f) usd → NotBelow f (zero_of f) (rate_of f p batch usd)
  rate-nonneg usd h =
      elim batch
        as (λ b. NotBelow f (zero_of f) (f.mul usd (if b then p.batch_multiplier else one_of f))) [
          | true ↦ laws.mul_nonneg usd p.batch_multiplier h nonneg.batch
          | false ↦ laws.mul_nonneg usd (one_of f) h (laws.ratio_nonneg 1 1)
        ]

  tokens_mono :
      (usd : N) (m n : ℤ)
      → NotBelow f (zero_of f) usd
      → m ≤ℤ n
      → NotBelow f
          (f.mul (mtoks f m) (rate_of f p batch usd))
          (f.mul (mtoks f n) (rate_of f p batch usd))
  tokens_mono usd m n h le =
      laws.mul_mono (mtoks f m) (mtoks f n) (rate_of f p batch usd)
        (laws.ratio_mono (pos_part m) (pos_part n) mtok (ground arith) (pos_part_mono m n le))
        (rate-nonneg usd h)

  tokens-nonneg :
      (usd : N) (n : ℤ)
      → NotBelow f (zero_of f) usd
      → NotBelow f (zero_of f) (f.mul (mtoks f n) (rate_of f p batch usd))
  tokens-nonneg usd n h =
      laws.mul_nonneg (mtoks f n) (rate_of f p batch usd) (laws.ratio_nonneg (pos_part n) mtok)
        (rate-nonneg usd h)

  sum_mono :
      (a b c d x y : N)
      → NotBelow f a b
      → NotBelow f c d
      → NotBelow f (sum_of f a c x y) (sum_of f b d x y)
  sum_mono a b c d x y h k =
      laws.add_mono (f.add (f.add a c) x) (f.add (f.add b d) x) y y
        (laws.add_mono (f.add a c) (f.add b d) x x (laws.add_mono a b c d h k)
          (laws.not_below_self x))
        (laws.not_below_self y)

  sum-nonneg :
      (a b c d : N)
      → NotBelow f (zero_of f) a
      → NotBelow f (zero_of f) b
      → NotBelow f (zero_of f) c
      → NotBelow f (zero_of f) d
      → NotBelow f (zero_of f) (sum_of f a b c d)
  sum-nonneg a b c d h k l m =
      laws.add_nonneg (f.add (f.add a b) c) d
        (laws.add_nonneg (f.add a b) c (laws.add_nonneg a b h k) l) m

  pub cost_at-nonneg : (t : Usage) → NotBelow f (zero_of f) (cost_at f p t batch).total_usd
  unfolding cost_at
  cost_at-nonneg t =
      sum-nonneg (f.mul (mtoks f t.input_tokens) (rate_of f p batch p.input_usd_per_mtok))
        (f.mul (mtoks f t.output_tokens) (rate_of f p batch p.output_usd_per_mtok))
        (f.mul (f.mul (mtoks f t.cache_read_tokens) (rate_of f p batch p.input_usd_per_mtok))
          p.cache_read_multiplier)
        (f.mul (f.mul (mtoks f t.cache_write_tokens) (rate_of f p batch p.input_usd_per_mtok))
          p.cache_write_multiplier)
        (tokens-nonneg p.input_usd_per_mtok t.input_tokens nonneg.input)
        (tokens-nonneg p.output_usd_per_mtok t.output_tokens nonneg.output)
        (laws.mul_nonneg
          (f.mul (mtoks f t.cache_read_tokens) (rate_of f p batch p.input_usd_per_mtok))
          p.cache_read_multiplier
          (tokens-nonneg p.input_usd_per_mtok t.cache_read_tokens nonneg.input) nonneg.cache_read)
        (laws.mul_nonneg
          (f.mul (mtoks f t.cache_write_tokens) (rate_of f p batch p.input_usd_per_mtok))
          p.cache_write_multiplier
          (tokens-nonneg p.input_usd_per_mtok t.cache_write_tokens nonneg.input) nonneg.cache_write)

  -- More fresh tokens never cost less.
  pub cost_at_mono :
      (i j o q : ℤ)
      → i ≤ℤ j
      → o ≤ℤ q
      → NotBelow f
          (cost_at f p (fresh i o) batch).total_usd
          (cost_at f p (fresh j q) batch).total_usd
  unfolding cost_at
  cost_at_mono i j o q h k =
      sum_mono (f.mul (mtoks f i) (rate_of f p batch p.input_usd_per_mtok))
        (f.mul (mtoks f j) (rate_of f p batch p.input_usd_per_mtok))
        (f.mul (mtoks f o) (rate_of f p batch p.output_usd_per_mtok))
        (f.mul (mtoks f q) (rate_of f p batch p.output_usd_per_mtok))
        (f.mul (f.mul (mtoks f (pos 0)) (rate_of f p batch p.input_usd_per_mtok))
          p.cache_read_multiplier)
        (f.mul (f.mul (mtoks f (pos 0)) (rate_of f p batch p.input_usd_per_mtok))
          p.cache_write_multiplier)
        (tokens_mono p.input_usd_per_mtok i j nonneg.input h)
        (tokens_mono p.output_usd_per_mtok o q nonneg.output k)

module _ {N : Type 0} (f : Floats N) (float : Value → Result N) (str_of : Value → Text)
    (round8 : N → N) where
  -- Let `round8` keep the order, let the price be found, and no rate or multiplier of it be below zero.
  -- A call that has used no cached tokens, no more fresh input than estimated and no more output than
  -- its `max_tokens` costs no more than was projected, at any safety factor of one or more. Both numbers
  -- are given.
  pub project_usd-covers :
      (laws : IsMonotone f)
      (rounding : (a b : N) → NotBelow f a b → NotBelow f (round8 a) (round8 b))
      (table : PricingTable) (provider model : Text) (p : ModelPrice N)
      → price_in f float str_of round8 table provider model ≡ ok p
      → IsNonneg f p
      → (batch : Bool) (input est output most : ℤ) (safety : N) → input ≤ℤ est
      → output ≤ℤ most
      → f.less (zero_of f) safety ≡ true
      → NotBelow f (one_of f) safety
      → (paid projected : N) × (cost_usd f float str_of round8 table provider model
            (fresh input output)
            batch
          ≡ ok paid)
        × (project_usd f float str_of round8 table provider model est most batch safety
            ≡ ok projected)
        × NotBelow f paid projected
  unfolding cost_usd project_usd cost
  project_usd-covers laws rounding table provider model p found nonneg batch input est output most
        safety fits ends positive raised =
      let paid = (cost_at f p (fresh input output) batch).total_usd in
      let full = (cost_at f p (fresh est most) batch).total_usd in
      (
        round8 paid,
        round8 (f.mul full safety),
        ground (arith, found),
        ground (arith, found, positive),
        rounding paid (f.mul full safety) (
            laws.scale_up paid full safety
              (cost_at_mono f laws p nonneg batch input est output most fits ends)
              (cost_at-nonneg f laws p nonneg batch (fresh est most)) raised),
      )
