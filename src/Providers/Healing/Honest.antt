-- ===== src/Providers/Healing/Honest.antt =====
-- What the exchange with a server reports of it.
use glc_v.Prelude.{
  ℕ, zero, suc, ◌+◌, ◌≤◌, ◌≡◌, refl, sym, ap, ◌∙◌, subst, ◌⊎◌, inl, inr, Bool, false, not, ◌&&◌,
  ◌||◌, Option, none, some, List, [], ◌∷◌, ◌++◌, arith, Bool-cases, Option-cases, length,
  length-append, ◌==◌, ℕ-Eq, String-Eq, ×-Eq, List-Eq, Result, Result-cases, ok, raise,
}
use glc_v.Prelude.Value.{Value}
use glc_v.Text.{Text}
use glc_v.Providers.{Body, reasons, apply_reasoning, json_object, json_schema}
use glc_v.Providers.Healing.{
  Reply, Exchange, Server, post, names, adjust, heal, unstrict, resend, relax_format, add_hint,
  wants_object, send_hinted, hint_json, heal_budget, exchange,
}

-- The reply is the server's to the last body that was sent, and the flag says whether that body carries a
-- reasoning key.
pub record IsHonest (server : Server) (x : Exchange) : Type 0 where
  pub earlier : List Body
  pub sent_last : x.sent ≡ earlier ++ x.body ∷ []
  pub replied : x.reply ≡ server (length earlier) x.body
  pub told : x.applied ≡ reasons x.body

module _ (server : Server) where
  post-IsHonest :
      (b : Body) (applied : Bool) (sent : List Body)
      → applied ≡ reasons b
      → IsHonest server (post server b applied sent)
  post-IsHonest b applied sent told = record {
    earlier = sent;
    sent_last = refl;
    replied = refl;
    told = told;
  }

  -- The loop stops, or sends the body that the complaint leads to and goes on.
  pub heal-cases :
      (budget : ℕ) (x : Exchange)
      → (heal server (suc budget) x ≡ x)
        ⊎ ((r : Reply) × (b : Body) × (x.reply ≡ ok r)
            × (adjust r.text x.body ≡ some b)
            × (heal server (suc budget) x ≡ heal server budget (post server b (reasons b) x.sent)))
  unfolding heal
  heal-cases budget x = elim (Result-cases x.reply) [
    | inr (e, q) ↦ inl (ground (arith, q))
    | inl (r, q) ↦ elim (Bool-cases (r.status == 200 || not x.applied)) [
      | inl done ↦ inl (ground (arith, q, done))
      | inr more ↦ elim (Option-cases (adjust r.text x.body)) [
        | inl left ↦ inl (ground (arith, q, more, left))
        | inr (b, changed) ↦ inr (r, b, q, changed, ground (arith, q, more, changed))
      ]
    ]
  ]

  heal-IsHonest :
      (budget : ℕ) (x : Exchange) → IsHonest server x → IsHonest server (heal server budget x)
  unfolding heal
  heal-IsHonest zero x h = h
  heal-IsHonest (suc budget) x h = elim (heal-cases budget x) [
    | inl same ↦ subst (IsHonest server) (sym same) h
    | inr (r, b, q, changed, next) ↦ subst (IsHonest server) (sym next) (
        heal-IsHonest budget (post server b (reasons b) x.sent)
          (post-IsHonest b (reasons b) x.sent refl))
  ]

  heal_bound :
      (budget : ℕ) (x : Exchange) → length (heal server budget x).sent ≤ length x.sent + budget
  unfolding heal
  heal_bound zero x = omega arith
  heal_bound (suc budget) x = elim (heal-cases budget x) [
    | inl same ↦ let e = ap (λ y. length y.sent) same in omega arith
    | inr (r, b, q, changed, next) ↦
        let h = heal_bound budget (post server b (reasons b) x.sent) in
        let n = length-append x.sent (b ∷ []) in let e = ap (λ y. length y.sent) next in omega arith
  ]

  resend-IsHonest :
      (x : Exchange) (b : Option Body)
      → ((b' : Body) → b ≡ some b' → reasons b' ≡ reasons x.body)
      → IsHonest server x
      → IsHonest server (resend server x b)
  resend-IsHonest x none same h = h
  resend-IsHonest x (some b) same h = post-IsHonest b x.applied x.sent (h.told ∙ sym (same b refl))

  unstrict-reasons : (b b' : Body) → unstrict b ≡ some b' → reasons b' ≡ reasons b
  unfolding reasons
  unstrict-reasons b b' e = elim (Option-cases b.response_format) [
    | inl f ↦ absurd (ground (arith, e, f))
    | inr (json_object, f) ↦ absurd (ground (arith, e, f))
    | inr (json_schema name schema strict, f) ↦ ground (arith, e, f)
  ]

  relax_format-cases :
      (x : Exchange)
      → (relax_format server x ≡ x) ⊎ (relax_format server x ≡ resend server x (unstrict x.body))
  unfolding relax_format
  relax_format-cases x = elim (Result-cases x.reply) [
    | inr (e, q) ↦ inl (ground (arith, q))
    | inl (r, q) ↦ elim (Bool-cases (r.status == 200)) [
      | inl done ↦ inl (ground (arith, q, done))
      | inr more ↦ inr (ground (arith, q, more))
    ]
  ]

  relax_format-IsHonest :
      (x : Exchange) → IsHonest server x → IsHonest server (relax_format server x)
  relax_format-IsHonest x h = elim (relax_format-cases x) [
    | inl same ↦ subst (IsHonest server) (sym same) h
    | inr next ↦
        subst (IsHonest server) (sym next)
          (resend-IsHonest x (unstrict x.body) (unstrict-reasons x.body) h)
  ]

  resend_bound :
      (x : Exchange) (b : Option Body) → length (resend server x b).sent ≤ length x.sent + 1
  resend_bound x none = omega arith
  resend_bound x (some b) = let n = length-append x.sent (b ∷ []) in omega arith

  relax_format_bound : (x : Exchange) → length (relax_format server x).sent ≤ length x.sent + 1
  relax_format_bound x =
      let n = resend_bound x (unstrict x.body) in
      elim (relax_format-cases x) [
        | inl same ↦ let e = ap (λ y. length y.sent) same in omega arith
        | inr next ↦ let e = ap (λ y. length y.sent) next in omega arith
      ]

  module _ (lower : Text → Text) where
    hint_json-cases :
        (x : Exchange)
        → (hint_json lower server x ≡ x)
          ⊎ (hint_json lower server x ≡ send_hinted server x (add_hint x.body.messages))
    unfolding hint_json
    hint_json-cases x = elim (Result-cases x.reply) [
      | inr (e, q) ↦ inl (ground (arith, q))
      | inl (r, q) ↦
          elim (Bool-cases (
            r.status == 400
            && names "json" (lower r.text)
            && wants_object x.body.response_format)) [
              | inl wanted ↦ inr (ground (arith, q, wanted))
              | inr other ↦ inl (ground (arith, q, other))
            ]
    ]

    send_hinted-IsHonest :
        (x : Exchange) (ms : Result (List Value)) (r : Reply)
        → IsHonest server x
        → (send_hinted server x ms).reply ≡ ok r
        → IsHonest server (send_hinted server x ms)
    unfolding reasons
    send_hinted-IsHonest x (raise e) r h q = cc
    send_hinted-IsHonest x (ok ms) r h q =
        post-IsHonest (record x.body { messages = ms }) x.applied x.sent h.told

    send_hinted_bound :
        (x : Exchange) (ms : Result (List Value))
        → length (send_hinted server x ms).sent ≤ length x.sent + 1
    send_hinted_bound x (raise e) = omega arith
    send_hinted_bound x (ok ms) =
        let n = length-append x.sent (record x.body { messages = ms } ∷ []) in omega arith

    pub apply_reasoning-told :
        (reasoning : Option Text) (b : Body)
        → reasons b ≡ false
        → let dialled = apply_reasoning lower reasoning b in dialled.1 ≡ reasons dialled.0
    unfolding apply_reasoning reasons
    apply_reasoning-told none b plain = sym plain
    apply_reasoning-told (some []) b plain = sym plain
    apply_reasoning-told (some (c ∷ cs)) b plain = ground (arith, plain)

    -- For a body without reasoning keys, and whatever the server answers: at most six requests are made;
    -- and where the exchange ends with a reply and not an exception, it is the server's to the last
    -- body that was sent, and `reasoning_applied` is true exactly if that body has a reasoning key.
    pub exchange-told :
        (reasoning : Option Text) (b : Body)
        → reasons b ≡ false
        → let x = exchange lower server reasoning b in
          (length x.sent ≤ 6) × ((r : Reply) → x.reply ≡ ok r → IsHonest server x)
    unfolding exchange
    exchange-told reasoning b plain =
        let dialled = apply_reasoning lower reasoning b in
        let first = post server dialled.0 dialled.1 [] in
        let healed = heal server heal_budget first in
        let relaxed = relax_format server healed in
        let honest = relax_format-IsHonest healed (
          heal-IsHonest heal_budget first
            (post-IsHonest dialled.0 dialled.1 [] (apply_reasoning-told reasoning b plain))) in
        let h₁ = heal_bound heal_budget first in
        let h₂ = relax_format_bound healed in
        let h₃ = send_hinted_bound relaxed (add_hint relaxed.body.messages) in
        elim (hint_json-cases relaxed) [
          | inl same ↦
              let e = ap (λ y. length y.sent) same in
              (omega arith, λ r q. subst (IsHonest server) (sym same) honest)
          | inr next ↦
              let e = ap (λ y. length y.sent) next in
              (
                omega arith,
                λ r q. subst (IsHonest server) (sym next) (
                    send_hinted-IsHonest relaxed (add_hint relaxed.body.messages) r honest
                      (ap (λ y. y.reply) (sym next) ∙ q)),
              )
        ]
