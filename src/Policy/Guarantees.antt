-- ===== src/Policy/Guarantees.antt =====
-- What the engine's verdicts promise to an operator.
use glc_v.Prelude.{
  ℕ, String, ◌≡◌, refl, sym, ◌∙◌, ◌≢◌, ◌⊎◌, inl, inr, true, some, List, [], ◌∷◌, arith, Bool-cases,
  All, get_elem?, head?, ℕ-Eq, String-Eq, ×-Eq, Result-cases, ok,
}
use glc_v.Prelude.Value.{Value, Fields, get_value, value_eq, text, object, field}
use glc_v.Policy.Text.{Host, strip_suffix}
use glc_v.Policy.{
  PolicyRule, PolicyVerdict, PolicyEngine, Call, addresses, is_deny, verdict, evaluate_call, allow,
  deny,
}
use glc_v.Policy.Spec.{Hit, first_deny, applicable, spec, evaluate_call-eq-spec, verdict-decided}
use glc_v.Policy.Laws.{
  denies, AppliesAt, applicable-denies, IsHit, applicable-IsHit, applicable-ne-nil,
  confused_applies,
}

denies-first_deny : (hits : List Hit) → denies hits ≡ true → (h : Hit) × (first_deny hits ≡ some h)
denies-first_deny [] d = absurd (ground arith)
denies-first_deny (h ∷ hits) d = elim (Bool-cases (is_deny h.1.action)) [
  | inl x ↦ (h, rw x)
  | inr x ↦ let (h', e) = denies-first_deny hits (ground arith) in (h', rw x e)
]

module _ (host : Host) (engine : PolicyEngine) (call : Call) (v : PolicyVerdict) where
  -- An evaluation that returns has the list of the rules that apply, and its verdict.
  from_hits :
      evaluate_call host engine call ≡ ok v
      → (hits : List Hit) × (applicable host engine.config.rules 0 call ≡ ok hits)
        × (v
            ≡ verdict
                (record { deny_match = first_deny hits; first_match = head? hits })
                call.trust_level)
  unfolding spec
  from_hits e =
      let e' : spec host engine call ≡ ok v = sym (evaluate_call-eq-spec host call engine) ∙ e in
      elim (Result-cases (applicable host engine.config.rules 0 call)) [
        | inl (hits, q) ↦ (
          hits,
          q,
          ground (arith, verdict-decided (first_deny hits) (head? hits) call.trust_level),
        )
        | inr (x, q) ↦ absurd (ground arith)
      ]

  -- Whatever rules come before or after it: where an evaluation returns and a rule that applies to
  -- the call denies, the verdict is deny.
  pub deny_wins :
      (j : ℕ) (r : PolicyRule)
      → evaluate_call host engine call ≡ ok v
      → AppliesAt host call engine.config.rules j r
      → r.action ≡ deny
      → v.action ≡ deny
  unfolding verdict
  deny_wins j r e a d =
      let (hits, q, same) = from_hits e in
      let (h, first) =
        denies-first_deny hits (applicable-denies host call engine.config.rules 0 j r hits a d q) in
      rw (same, first)

  allow_from :
      (hits : List Hit)
      → All (IsHit host call engine.config.rules 0) hits
      → (hits ≡ [] → (j : ℕ) (r : PolicyRule) → ¬ AppliesAt host call engine.config.rules j r)
      → v
        ≡ verdict
            (record { deny_match = first_deny hits; first_match = head? hits })
            call.trust_level
      → v.action ≡ allow
      → ((j : ℕ) × (r : PolicyRule) × AppliesAt host call engine.config.rules j r
          × (r.action ≡ allow))
        ⊎ (((j : ℕ) (r : PolicyRule) → ¬ AppliesAt host call engine.config.rules j r)
            × (value_eq call.trust_level (text "owner_paired") ≡ true))
  unfolding verdict
  allow_from [] a empty same al = inr (empty refl, ground arith)
  allow_from ((i, r) ∷ hits) ((k, e, at), a) empty same al = inl (k, r, at, ground arith)

  -- Where an evaluation returns allow, no rule that applies denies; and either some rule that
  -- applies says allow, or no rule applies at all and the caller is the paired owner.
  pub allowed_only_if :
      evaluate_call host engine call ≡ ok v
      → v.action ≡ allow
      → ((j : ℕ) (r : PolicyRule) → AppliesAt host call engine.config.rules j r → r.action ≢ deny)
        × (((j : ℕ) × (r : PolicyRule) × AppliesAt host call engine.config.rules j r
              × (r.action ≡ allow))
            ⊎ (((j : ℕ) (r : PolicyRule) → ¬ AppliesAt host call engine.config.rules j r)
                × (value_eq call.trust_level (text "owner_paired") ≡ true)))
  allowed_only_if e al =
      let (hits, q, same) = from_hits e in
      (
        λ j r a d. allow_ne_deny (sym al ∙ deny_wins j r e a d),
        allow_from hits (applicable-IsHit host call engine.config.rules 0 hits q)
            (λ none_hit j r a.
              applicable-ne-nil host call engine.config.rules 0 j r hits a q none_hit)
            same al,
      )
    where
      allow_ne_deny : allow ≡ deny → ⊥
      allow_ne_deny e' = cc

  -- A value that is no text, where a deny rule's first condition is a glob, does not get past the
  -- rule: the verdict of an evaluation that returns is deny.
  pub type_confusion_denied :
      (j : ℕ) (r : PolicyRule) (key target : String) (pattern : Value) (rest params : Fields)
      → evaluate_call host engine call ≡ ok v
      → get_elem? engine.config.rules j ≡ some r
      → r.action ≡ deny
      → addresses r.tool call.tool ≡ true
      → addresses r.channel call.channel ≡ true
      → addresses r.trust_level call.trust_level ≡ true
      → r.condition ≡ field key pattern rest
      → strip_suffix "_glob" key ≡ some target
      → call.params ≡ object params
      → ((s : String) → get_value target params ≢ text s)
      → v.action ≡ deny
  type_confusion_denied j r key target pattern rest params e at d t c l cond suffix args not_text =
      deny_wins j r e
        (
          at,
          confused_applies host call r key target pattern rest params t c l cond suffix args
              not_text,
        )
        d
