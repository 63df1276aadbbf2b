-- ===== src/Providers/Healing/Ends.antt =====
-- How many complaints of a server the exchange answers.
use glc_v.Prelude.{
  ℕ, zero, suc, ◌+◌, ◌≤◌, ◌<◌, String, ◌≡◌, refl, sym, ap, ◌∙◌, subst, ◌⊎◌, inl, inr, Bool, true,
  false, ◌&&◌, ◌||◌, Option, none, some, List, [], ◌∷◌, ◌++◌, arith, if◌then◌else◌, Bool-cases,
  length, All, ◌==◌, ℕ-Eq, String-Eq, ×-Eq, List-Eq, ok, keep-All,
}
use glc_v.Prelude.Value.{Value}
use glc_v.Text.{Text}
use glc_v.Glob.{codes}
use glc_v.Providers.Healing.Honest.{apply_reasoning-told}
use glc_v.Providers.{Body, is_there, reasons, apply_reasoning}
use glc_v.Providers.Healing.{
  Reply, Exchange, Server, post, names, levels, allowed_levels, without, drop_named, lowered,
  says_none, adjust, heal, relax_format, hint_json, accepted, heal_budget, exchange,
}

-- The complaint names a reasoning key that the body has.
abbrev pub names_key : Text → Body → Bool
names_key txt b =
    (is_there b.reasoning_effort && names "reasoning_effort" txt)
    || (is_there b.chat_template_kwargs && names "chat_template_kwargs" txt)

-- Every request gets a response, and one that is no success names a reasoning key of the body.
abbrev pub IsHealing : Server → Type 0
IsHealing server =
    (n : ℕ) (b : Body)
    → (r : Reply) × (server n b ≡ ok r) × ((r.status ≡ 200) ⊎ (names_key r.text b ≡ true))

abbrev one_if : Bool → ℕ
one_if true = 1
one_if false = 0

-- How often the keys can still be changed: a level for "none", and each key.
abbrev weight_of : Option Text → Option Value → ℕ
weight_of effort kwargs =
    one_if (says_none effort) + one_if (is_there effort) + one_if (is_there kwargs)

abbrev weight : Body → ℕ
weight b = weight_of b.reasoning_effort b.chat_template_kwargs

dropped_weight :
    (e : Option Text) (k : Option Value) (x y : Bool)
    → ((is_there e && x) || (is_there k && y)) ≡ true
    → weight_of (if is_there e && x then none else e) (if is_there k && y then none else k)
      < weight_of e k
dropped_weight none none x y h = ground (arith, h)
dropped_weight (some t) none true y h = omega arith
dropped_weight (some t) none false y h = ground (arith, h)
dropped_weight none (some v) x true h = omega arith
dropped_weight none (some v) x false h = ground (arith, h)
dropped_weight (some t) (some v) true true h = omega arith
dropped_weight (some t) (some v) true false h = omega arith
dropped_weight (some t) (some v) false true h = omega arith
dropped_weight (some t) (some v) false false h = ground (arith, h)

drop_named-weight :
    (txt : Text) (b : Body)
    → names_key txt b ≡ true
    → (b' : Body) × (drop_named txt b ≡ some b') × (weight b' < weight b)
unfolding drop_named
drop_named-weight txt b named =
    let effort = is_there b.reasoning_effort && names "reasoning_effort" txt in
    let kwargs = is_there b.chat_template_kwargs && names "chat_template_kwargs" txt in
    (
      without effort kwargs b,
      rw named refl,
      dropped_weight b.reasoning_effort b.chat_template_kwargs (names "reasoning_effort" txt)
          (names "chat_template_kwargs" txt) named,
    )

lower_weight :
    (e : Option Text) (k : Option Value) (level : Text)
    → says_none e ≡ true
    → says_none (some level) ≡ false
    → weight_of (some level) k < weight_of e k
lower_weight none k level said h = cc
lower_weight (some t) k level said h = rw (said, h) (omega arith)

lowered-weight :
    (txt : Text) (b : Body) (ls : List String)
    → names_key txt b ≡ true
    → says_none b.reasoning_effort ≡ true
    → All (λ l. says_none (some (codes l)) ≡ false) ls
    → (b' : Body) × (lowered txt b ls ≡ some b') × (weight b' < weight b)
lowered-weight txt b [] named said h = drop_named-weight txt b named
lowered-weight txt b (l ∷ ls) named said h =
    (_, refl, lower_weight b.reasoning_effort b.chat_template_kwargs (codes l) said h.0)

adjust-weight :
    (txt : Text) (b : Body)
    → names_key txt b ≡ true
    → (b' : Body) × (adjust txt b ≡ some b') × (weight b' < weight b)
unfolding adjust allowed_levels
adjust-weight txt b named =
    elim (Bool-cases (says_none b.reasoning_effort && names "reasoning_effort" txt)) [
      | inl n ↦ rw n (
          lowered-weight txt b (allowed_levels txt) named (ground (arith, n)) (
            keep-All (λ l. says_none (some (codes l)) ≡ false) (λ l. names l txt) levels
              (refl, (refl, (refl, tt)))))
      | inr n ↦ rw n (drop_named-weight txt b named)
    ]

named-reasons : (txt : Text) (b : Body) → names_key txt b ≡ true → reasons b ≡ true
unfolding reasons
named-reasons txt b named = ground (arith, named)

reasons-weight : (b : Body) → reasons b ≡ true → 1 ≤ weight b
unfolding reasons
reasons-weight b h = ground (arith, h)

accepted_success : (r : Reply) → r.status ≡ 200 → accepted (ok r) ≡ ok r
accepted_success r fine = ground (arith, fine)

module _ (server : Server) (healing : IsHealing server) where
  -- A complaint leads to a lighter body, so that a budget of the first one's weight is enough.
  heal-Serves :
      (budget : ℕ) (b : Body) (sent : List Body)
      → weight b ≤ budget
      → (r : Reply) × ((heal server budget (post server b (reasons b) sent)).reply ≡ ok r)
        × (r.status ≡ 200)
  unfolding heal
  heal-Serves zero b sent light =
      let (r, q, s) = healing (length sent) b in
      elim s [
        | inl fine ↦ (r, q, fine)
        | inr named ↦
            let h = reasons-weight b (named-reasons r.text b named) in
            absurd (omega (arith, h, light))
      ]
  heal-Serves (suc budget) b sent light =
      let (r, q, s) = healing (length sent) b in
      elim (Bool-cases (r.status == 200)) [
        | inl fine ↦ (r, ground (arith, q, fine), ground (arith, fine))
        | inr more ↦ elim s [
          | inl fine ↦ absurd (ground (arith, more, fine))
          | inr named ↦
              let (b', changed, lighter) = adjust-weight r.text b named in
              let (r', q', fine) =
                heal-Serves budget b' (sent ++ b ∷ []) (omega (arith, lighter, light)) in
              (r', ground (arith, q, more, named-reasons r.text b named, changed, q'), fine)
        ]
      ]

  relax_format-served :
      (x : Exchange) (r : Reply) → x.reply ≡ ok r → r.status ≡ 200 → relax_format server x ≡ x
  unfolding relax_format
  relax_format-served x r q fine = ground (arith, q, fine)

  hint_json-served :
      (lower : Text → Text) (x : Exchange) (r : Reply)
      → x.reply ≡ ok r
      → r.status ≡ 200
      → hint_json lower server x ≡ x
  unfolding hint_json
  hint_json-served lower x r q fine = ground (arith, q, fine)

  weight-bounded : (b : Body) → weight b ≤ heal_budget
  weight-bounded b = ground arith

  -- For a body without reasoning keys: a server that answers every request, and refuses a body only with
  -- a complaint that names one of its reasoning keys, is satisfied within the budget of the loop. The
  -- exchange ends with a success, whatever the dial and the order of the complaints.
  pub exchange-served :
      (lower : Text → Text) (reasoning : Option Text) (b : Body)
      → reasons b ≡ false
      → (r : Reply) × (accepted (exchange lower server reasoning b).reply ≡ ok r) × (r.status ≡ 200)
  unfolding exchange
  exchange-served lower reasoning b plain =
      let dialled = apply_reasoning lower reasoning b in
      let first = post server dialled.0 dialled.1 [] in
      let told = apply_reasoning-told server lower reasoning b plain in
      let (r, q, fine) = heal-Serves heal_budget dialled.0 [] (weight-bounded dialled.0) in
      let healed : (heal server heal_budget first).reply ≡ ok r =
        subst (λ a. (heal server heal_budget (post server dialled.0 a [])).reply ≡ ok r) (sym told)
          q in
      let relaxed = relax_format-served (heal server heal_budget first) r healed fine in
      let hinted = hint_json-served lower (heal server heal_budget first) r healed fine in
      (
        r,
        ap (λ x. accepted (hint_json lower server x).reply) relaxed
            ∙ ap (λ x. accepted x.reply) hinted
            ∙ ap accepted healed
            ∙ accepted_success r fine,
        fine,
      )
