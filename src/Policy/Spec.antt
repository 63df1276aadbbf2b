-- ===== src/Policy/Spec.antt =====
-- The engine's verdict from the list of all rules that apply, in order, with their indices.
use glc_v.Prelude.Value.{Value, value_eq, text}
use glc_v.Prelude.{
  ℕ, ◌+◌, String, ◌≡◌, refl, sym, ap, ◌∙◌, Bool, true, false, Option, none, some, List, [], ◌∷◌,
  arith, if◌then◌else◌, head?, ◌==◌, ℕ-Eq, String-Eq, ×-Eq, List-Eq, Result, ◌>>=◌, ok, raise,
}
use glc_v.Policy.Text.{Host}
use glc_v.Policy.{
  PolicyRule, PolicyVerdict, PolicyEngine, Call, Found, Reason, is_deny, note_match, verdict,
  applies, scan, evaluate_call, allow, deny, own, denied_by_policy, default_allow, matched_rule,
  default_deny,
}

abbrev pub Hit : Type 0
Hit = ℕ × PolicyRule

-- The first hit whose rule denies.
abbrev pub first_deny : List Hit → Option Hit
first_deny [] = none
first_deny (h ∷ hits) = if is_deny h.1.action then some h else first_deny hits

-- The reason of a rule, or the engine's own where it gives none.
abbrev pub reason_or : String → Reason → Reason
reason_or s otherwise = if s == "" then otherwise else own s

-- The verdict by the first deny, else by the first hit, else by the trust level.
abbrev pub decided : Option Hit → Option Hit → Value → PolicyVerdict
decided (some (i, r)) first level = record {
  action = deny;
  reason = reason_or r.reason denied_by_policy;
  matched_rule_index = some i;
}
decided none (some (i, r)) level = record {
  action = r.action;
  reason = reason_or r.reason (matched_rule i);
  matched_rule_index = some i;
}
decided none none level =
    if value_eq level (text "owner_paired")
    then record { action = allow; reason = default_allow; matched_rule_index = none }
    else record { action = deny; reason = default_deny level; matched_rule_index = none }

pub verdict-decided :
    (denied first : Option Hit) (level : Value)
    → verdict (record { deny_match = denied; first_match = first }) level
      ≡ decided denied first level
unfolding verdict
verdict-decided (some (i, r)) first level = refl
verdict-decided none (some (i, r)) level = refl
verdict-decided none none level = refl

module _ (host : Host) where
  unfoldable pub applicable : List PolicyRule → ℕ → Call → Result (List Hit)
  applicable [] i call = ok []
  applicable (r ∷ rules) i call = do
    hit ← applies host r call
    hits ← applicable rules (i + 1) call
    ok (if hit then (i, r) ∷ hits else hits)

  unfoldable pub spec : PolicyEngine → Call → Result PolicyVerdict
  spec engine call = do
    hits ← applicable engine.config.rules 0 call
    ok (decided (first_deny hits) (head? hits) call.trust_level)

abbrev or_else : Option Hit → Option Hit → Option Hit
or_else none o = o
or_else (some h) o = some h

abbrev join : Found → List Hit → Found
join found hits = record {
  deny_match = or_else found.deny_match (first_deny hits);
  first_match = or_else found.first_match (head? hits);
}

join-nil : (found : Found) → join found [] ≡ found
join-nil found = ground (arith, or_else-none found.deny_match, or_else-none found.first_match)
  where
    or_else-none : (o : Option Hit) → or_else o none ≡ o
    or_else-none none = refl
    or_else-none (some h) = refl

join-note :
    (found : Found) (i : ℕ) (r : PolicyRule) (hits : List Hit)
    → join (note_match i r found) hits ≡ join found ((i, r) ∷ hits)
unfolding note_match
join-note found i r hits = ground arith

module _ (host : Host) (call : Call) where
  scan-eq-join :
      (rules : List PolicyRule) (i : ℕ) (found : Found)
      → scan host rules i call found
        ≡ (do hits ← applicable host rules i call; ok (join found hits))
  unfolding scan applicable
  scan-eq-join [] i found = ap ok (sym (join-nil found))
  scan-eq-join (r ∷ rules) i found = round (applies host r call) (scan-eq-join rules (i + 1))
    where
      with_rest :
          (b : Bool) (rest : Result (List Hit))
          → (rest >>= λ hits. ok (join (if b then note_match i r found else found) hits)) ≡ (
              (rest >>= λ hits. ok (if b then (i, r) ∷ hits else hits)) >>= λ hits.
              ok (join found hits))
      with_rest true (ok hits) = ap ok (join-note found i r hits)
      with_rest false (ok hits) = refl
      with_rest b (raise e) = refl

      round :
          (t : Result Bool)
          → ((f : Found)
              → scan host rules (i + 1) call f
                ≡ (applicable host rules (i + 1) call >>= λ hits. ok (join f hits)))
          → (t >>= λ hit.
              scan host rules (i + 1) call (if hit then note_match i r found else found))
            ≡ ((t >>= λ hit.
                  (applicable host rules (i + 1) call >>= λ hits.
                  ok (if hit then (i, r) ∷ hits else hits)))
                >>= λ hits. ok (join found hits))
      round (ok hit) ih =
          ih (if hit then note_match i r found else found)
          ∙ with_rest hit (applicable host rules (i + 1) call)
      round (raise e) ih = refl

  -- The single pass that keeps a first match and a first deny gives the verdict of the list of all
  -- rules that apply: deny, with the reason and the index of the first deny among them; else the action,
  -- the reason and the index of the first of them; else allow for the owner and deny for others. An
  -- exception of a matcher other than TypeError is passed on by both.
  pub evaluate_call-eq-spec :
      (engine : PolicyEngine) → evaluate_call host engine call ≡ spec host engine call
  unfolding evaluate_call spec
  evaluate_call-eq-spec engine =
      rw scan-eq-join (finish (applicable host engine.config.rules 0 call))
    where
      finish :
          (rest : Result (List Hit))
          → ((rest >>= λ hits. ok (join (record { deny_match = none; first_match = none }) hits))
              >>= λ found. ok (verdict found call.trust_level))
            ≡ (rest >>= λ hits. ok (decided (first_deny hits) (head? hits) call.trust_level))
      finish (ok hits) = ap ok (verdict-decided (first_deny hits) (head? hits) call.trust_level)
      finish (raise e) = refl
