-- ===== src/Economics/Budget/Estimate.antt =====
-- `BudgetController.project` of glc/economics/budget.py: the cost that is held against the limits before
-- a call is made, and how it stands to the cost of the call.
use glc_v.Prelude.{
  String, ◌≡◌, inl, inr, Bool, true, none, some, arith, if◌then◌else◌, Bool-cases, ◌==◌, ℕ-Eq,
  String-Eq, ×-Eq, List-Eq, Result, ◌>>=◌, attribute_error, ok, raise,
}
use glc_v.Prelude.Int.{ℤ, pos_part, ◌≤ℤ◌, pos}
use glc_v.Prelude.Floats.{Floats, IsMonotone, zero_of, one_of, NotBelow}
use glc_v.Prelude.Value.{Value, get_field, value_get, text, object}
use glc_v.Text.{Text}
use glc_v.Glob.{codes}
use glc_v.Economics.Pricing.{ModelPrice, PricingTable}
use glc_v.Economics.Pricing.Cost.{fresh, price_in, cost, cost_usd, project_usd}
use glc_v.Economics.Pricing.Projection.{IsNonneg, project_usd-covers}

-- What `project` takes from outside: `float(v)`, `str(v)` of a value that is no text, `int(x)` of a
-- number, `int(n) * x`, and `round(x, 8)`.
pub record Estimator (N : Type 0) : Type 0 where
  pub float : Value → Result N
  pub str_of : Value → Text
  pub truncate : N → Result ℤ
  pub scale : ℤ → N → N
  pub round8 : N → N

abbrev pub max_0 : ℤ → ℤ
max_0 n = pos (pos_part n)

module _ {N : Type 0} (f : Floats N) (e : Estimator N) where
  -- `float(projection.get(key, default))`
  unfoldable pub setting : Value → String → N → Result N
  unfolding get_field
  setting (object fs) key default = elim (get_field key fs) [
    | none ↦ ok default
    | some v ↦ e.float v
  ]
  setting _ key default = raise attribute_error

  abbrev mode_text : Value → Text
  mode_text (text s) = codes s
  mode_text v = e.str_of v

  -- The tokens of output that are charged.
  unfoldable pub out_tokens : Value → ℤ → ℤ → Result ℤ
  unfolding value_get setting
  out_tokens projection est_input max_output =
      value_get projection (text "max_tokens") "output_tokens" >>= λ mode.
      if mode_text mode == codes "ratio"
      then (setting projection "output_ratio" (one_of f) >>= λ ratio.
          e.truncate (e.scale (max_0 est_input) ratio))
      else ok max_output

  -- `max(usd, least)`
  unfoldable pub at_least : N → N → N
  at_least least usd = if f.less usd least then least else usd

  unfoldable pub project : PricingTable → Value → Text → Text → ℤ → ℤ → Bool → Result N
  unfolding out_tokens setting project_usd at_least
  project table projection provider model est_input max_output batch = do
    out ← out_tokens projection est_input max_output
    safety ← setting projection "safety_factor" (one_of f)
    usd ←
        project_usd f e.float e.str_of e.round8 table provider model (max_0 est_input) out batch
          safety
    least ← setting projection "min_usd" (zero_of f)
    ok (at_least least usd)

  at_least-NotBelow :
      (laws : IsMonotone f) (paid least usd : N)
      → NotBelow f paid usd
      → NotBelow f paid (at_least least usd)
  unfolding at_least
  at_least-NotBelow laws paid least usd h = elim (Bool-cases (f.less usd least)) [
    | inl b ↦ ground (arith, b, laws.less_above paid usd least h b)
    | inr b ↦ ground (arith, b, h)
  ]

  -- Let `round8` keep the order, let the price be found with no rate or multiplier below zero, and let
  -- the settings be read: a count of output tokens, a safety factor of one or more, a least amount. A
  -- call that has used no cached tokens, no more fresh input than estimated and no more output than
  -- that count costs no more than was projected. Both numbers are given.
  pub project-covers :
      (laws : IsMonotone f)
      (rounding : (a b : N) → NotBelow f a b → NotBelow f (e.round8 a) (e.round8 b))
      (table : PricingTable) (projection : Value) (provider model : Text) (p : ModelPrice N)
      → price_in f e.float e.str_of e.round8 table provider model ≡ ok p
      → IsNonneg f p
      → (batch : Bool) (input est_input output max_output out : ℤ) (safety least : N)
      → out_tokens projection est_input max_output ≡ ok out
      → setting projection "safety_factor" (one_of f) ≡ ok safety
      → setting projection "min_usd" (zero_of f) ≡ ok least
      → input ≤ℤ est_input
      → output ≤ℤ out
      → f.less (zero_of f) safety ≡ true
      → NotBelow f (one_of f) safety
      → (paid projected : N) × (cost_usd f e.float e.str_of e.round8 table provider model
            (fresh input output)
            batch
          ≡ ok paid)
        × (project table projection provider model est_input max_output batch ≡ ok projected)
        × NotBelow f paid projected
  unfolding project
  project-covers laws rounding table projection provider model p found nonneg batch input est_input
        output max_output out safety least counted factor floor fits ends positive raised =
      let (paid, usd, cost, projected, covers) =
        project_usd-covers f e.float e.str_of e.round8 laws rounding table provider model p found
          nonneg batch input (max_0 est_input) output out safety (ground arith) ends positive
          raised in
      (
        paid,
        at_least least usd,
        cost,
        ground (arith, counted, factor, floor, projected),
        at_least-NotBelow laws paid least usd covers,
      )
