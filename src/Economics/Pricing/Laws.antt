-- ===== src/Economics/Pricing/Laws.antt =====
-- Where the price of a model comes from.
use glc_v.Prelude.{
  ◌≡◌, sym, ap, ◌∙◌, ◌≢◌, inl, inr, Option, none, some, [], ◌∷◌, arith, Option-cases, ℕ-Eq,
  String-Eq, ×-Eq, List-Eq, Result, ok-injective, bind-ok, ok,
}
use glc_v.Prelude.Value.{Value}
use glc_v.Text.{Text, strip}
use glc_v.Economics.Pricing.{
  ModelPrice, PricingTable, PriceSource, base_provider, find, find_suffix, by_pattern_of, or_base,
  provider_entry, first_pattern, by_name, rate, quality_of, make_price, price_for, by_provider,
  unpriced,
}

module _ {N : Type 0} (float : Value → Result N) (zero_rate one_rate : N)
    (str_of : Value → Text) where
  make_price-source :
      (defaults e : Value) (model provider : Text) (source : PriceSource) (p : ModelPrice N)
      → make_price float zero_rate one_rate defaults e model provider source ≡ ok p
      → p.source ≡ source
  unfolding make_price
  make_price-source defaults e model provider source p h =
      let (a, _, h₁) = bind-ok (rate float zero_rate one_rate e "input" zero_rate) _ p h in
      let (b, _, h₂) = bind-ok (rate float zero_rate one_rate e "output" zero_rate) _ p h₁ in
      let (c, _, h₃) =
        bind-ok (rate float zero_rate one_rate defaults "cache_read_multiplier" one_rate) _ p h₂ in
      let (d, _, h₄) = bind-ok (rate float zero_rate one_rate e "cache_read_multiplier" c) _ p h₃ in
      let (f, _, h₅) =
        bind-ok (rate float zero_rate one_rate defaults "cache_write_multiplier" one_rate) _ p h₄ in
      let (g, _, h₆) =
        bind-ok (rate float zero_rate one_rate e "cache_write_multiplier" f) _ p h₅ in
      let (i, _, h₇) =
        bind-ok (rate float zero_rate one_rate defaults "batch_multiplier" one_rate) _ p h₆ in
      let (j, _, h₈) = bind-ok (rate float zero_rate one_rate e "batch_multiplier" i) _ p h₇ in
      let (k, _, h₉) = bind-ok (quality_of float zero_rate one_rate e) _ p h₈ in
      sym (ap (λ q. q.source) (ok-injective h₉))

  by_pattern-unpriced :
      (found : Option (Value × Value)) (e : Value) → by_pattern_of found ≢ some (e, unpriced)
  by_pattern-unpriced none e = λ h. cc
  by_pattern-unpriced (some (p, glob)) e = λ h. cc

  by_name-unpriced :
      (name : Text) (table : PricingTable) (e : Value)
      → by_name str_of name table ≢ some (e, unpriced)
  by_name-unpriced [] table e h = cc
  by_name-unpriced (c ∷ cs) table e h = elim (Option-cases (find (c ∷ cs) table.models)) [
    | inr (v, f) ↦ ground (arith, h, f)
    | inl f ↦ elim (Option-cases (find_suffix (c ∷ cs) table.models)) [
      | inr (v, g) ↦ ground (arith, h, f, g)
      | inl g ↦
          by_pattern-unpriced (first_pattern str_of (c ∷ cs) table.patterns) e
            (ground (arith, h, f, g))
    ]
  ]

  -- A price says that it is unpriced only if neither the model's name, its last part, any pattern nor
  -- the provider has an entry: no listed rate is passed over.
  pub price_for-unpriced :
      (table : PricingTable) (provider model : Text) (p : ModelPrice N)
      → price_for float zero_rate one_rate str_of table provider model ≡ ok p
      → p.source ≡ unpriced
      → (by_name str_of (strip model) table ≡ none)
        × (provider_entry (base_provider provider) table.providers ≡ none)
  unfolding price_for
  price_for-unpriced table provider model p h u =
      elim (Option-cases (by_name str_of (strip model) table)) [
        | inr ((e, source), f) ↦
            let made : make_price float zero_rate one_rate table.defaults e (strip model)
                  (base_provider provider) source
                ≡ ok p =
              ground (arith, h, f) in
            let same =
              sym (
                make_price-source table.defaults e (strip model) (base_provider provider) source p
                  made)
              ∙ u in
            absurd (by_name-unpriced (strip model) table e (f ∙ ap (λ s. some (e, s)) same))
        | inl f ↦ elim (Option-cases (provider_entry (base_provider provider) table.providers)) [
          | inr (e, g) ↦
              let made : make_price float zero_rate one_rate table.defaults e
                    (or_base (base_provider provider) (strip model)) (base_provider provider)
                    by_provider
                  ≡ ok p =
                ground (arith, h, f, g) in
              let same =
                sym (
                  make_price-source table.defaults e
                    (or_base (base_provider provider) (strip model)) (base_provider provider)
                    by_provider p made)
                ∙ u in
              absurd (ground (arith, same))
          | inl g ↦ (f, g)
        ]
      ]
