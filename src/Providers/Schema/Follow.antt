-- ===== src/Providers/Schema/Follow.antt =====
-- How often a definition can lie in another before its name has been seen.
use glc_v.Prelude.{
  ℕ, ◌+◌, ◌≤◌, ◌<◌, String, ◌≡◌, sym, ap, ◌∙◌, subst, inl, inr, false, ◌||◌, Option, none, some,
  List, [], ◌∷◌, arith, if◌then◌else◌, Bool-cases, Option-cases, some-injective, ◌==◌, ℕ-Eq,
  String-Eq, ×-Eq, List-Eq,
}
use glc_v.Prelude.Value.{Value, Fields, get_field, count_fields, end, field}
use glc_v.Providers.Schema.{was_seen, followed}

-- The definitions that have not been seen.
unfoldable pub unseen : Fields → List String → ℕ
unfolding was_seen
unseen end seen = 0
unseen (field k v fs) seen = if was_seen k seen then unseen fs seen else unseen fs seen + 1

pub unseen-le : (defs : Fields) → unseen defs [] ≤ count_fields defs
unfolding unseen was_seen count_fields
unseen-le end = omega arith
unseen-le (field k v fs) = let h = unseen-le fs in omega arith

unseen_mono :
    (defs : Fields) (n : String) (seen : List String) → unseen defs (n ∷ seen) ≤ unseen defs seen
unfolding unseen was_seen
unseen_mono end n seen = omega arith
unseen_mono (field k v fs) n seen = ground (arith, unseen_mono fs n seen)

unseen-less :
    (defs : Fields) (n : String) (seen : List String) (d : Value)
    → get_field n defs ≡ some d
    → was_seen n seen ≡ false
    → unseen defs (n ∷ seen) < unseen defs seen
unfolding unseen was_seen get_field
unseen-less end n seen d h new = absurd (ground (arith, h))
unseen-less (field k v fs) n seen d h new = elim (Bool-cases (k == n)) [
  | inl same ↦
      let e = (String-Eq.eqb_iff k n).0 same in
      let now = (String-Eq.eqb_iff n k).1 (sym e) in
      let not_yet = ap (λ x. was_seen x seen) e ∙ new in
      ground (arith, now, not_yet, unseen_mono fs n seen)
  | inr other ↦ ground (arith, other, h, new, unseen-less fs n seen d)
]

-- What is followed is a definition that has not been seen.
pub followed-new :
    (defs : Fields) (seen : List String) (ref : Option String) (n : String) (d : Value)
    → followed defs seen ref ≡ some (n, d)
    → (get_field n defs ≡ some d) × (unseen defs (n ∷ seen) < unseen defs seen)
unfolding followed
followed-new defs seen none n d h = absurd (ground (arith, h))
followed-new defs seen (some name) n d h = elim (Option-cases (get_field name defs)) [
  | inl f ↦ absurd (ground (arith, h, f))
  | inr (v, f) ↦ elim (Bool-cases (name == "" || was_seen name seen)) [
    | inl old ↦ absurd (ground (arith, h, f, old))
    | inr new ↦
        let fresh : was_seen name seen ≡ false = ground (arith, new) in
        let same : (name, v) ≡ (n, d) = some-injective (sym (ground (arith, f, new)) ∙ h) in
        subst (λ q. (get_field q.0 defs ≡ some q.1) × (unseen defs (q.0 ∷ seen) < unseen defs seen))
          same (f, unseen-less defs name seen v f fresh)
  ]
]
