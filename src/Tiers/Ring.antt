-- ===== src/Tiers/Ring.antt =====
-- The expansion of a tier's ring: which names it can hold, and that none stands twice.
use glc_v.Prelude.{
  ◌≡◌, sym, ◌≢◌, inl, inr, Bool, true, false, not, ◌&&◌, List, [], ◌∷◌, ◌++◌, arith, Bool-cases,
  keep, All, All-append, All-map, ℕ-Eq, String-Eq, ×-Eq, List-Eq, Distinct, snoc-Distinct, member,
  absent-ne, keep_passes, keep-Distinct, append-Distinct,
}
use glc_v.Text.{Text}
use glc_v.Tiers.Order.{names_it, add_if, expand_ring, place, sort_by}

-- Names with a property, none of them twice.
abbrev pub AreNames : (Text → Type 0) → List Text → Type 0
AreNames Q out = All Q out × Distinct out

pub add_if-AreNames :
    (Q : Text → Type 0) (test : Text → Bool) (out names : List Text)
    → All (λ n. test n ≡ true → Q n) names
    → AreNames Q out
    → AreNames Q (add_if test out names)
unfolding add_if
add_if-AreNames Q test out [] f h = h
add_if-AreNames Q test out (n ∷ ns) f h = elim (Bool-cases (test n && not (member n out))) [
  | inr e ↦ rw e (add_if-AreNames Q test out ns f.1 h)
  | inl e ↦
      let passes : test n ≡ true = ground (arith, e) in
      let absent : member n out ≡ false = ground (arith, e) in
      rw e (
        add_if-AreNames Q test (out ++ n ∷ []) ns f.1 (
          All-append Q out (n ∷ []) h.0 (f.0 passes, tt),
          snoc-Distinct out n h.1 (absent-ne n out absent),
        ))
]

pub expand_ring-AreNames :
    (Q : Text → Type 0) (benched : Text → Bool) (names out bases : List Text)
    → All (λ base. All (λ n. (not (benched n) && names_it base n) ≡ true → Q n) names) bases
    → AreNames Q out
    → AreNames Q (expand_ring benched names out bases)
unfolding expand_ring
expand_ring-AreNames Q benched names out [] f h = h
expand_ring-AreNames Q benched names out (base ∷ bases) f h =
    expand_ring-AreNames Q benched names
      (add_if (λ n. not (benched n) && names_it base n) out names) bases f.1
      (add_if-AreNames Q (λ n. not (benched n) && names_it base n) out names f.0 h)

module _ {N : Type 0} (less : N → N → Bool) (key : Text → N) where
  place-All :
      (P : Text → Type 0) (x : Text) (xs : List Text) → P x → All P xs → All P (place less key x xs)
  unfolding place
  place-All P x [] p h = (p, tt)
  place-All P x (y ∷ ys) p h = elim (Bool-cases (less (key y) (key x))) [
    | inl e ↦ rw e (h.0, place-All P x ys p h.1)
    | inr e ↦ rw e (p, h)
  ]

  pub sort_by-All : (P : Text → Type 0) (xs : List Text) → All P xs → All P (sort_by less key xs)
  unfolding sort_by
  sort_by-All P [] h = tt
  sort_by-All P (x ∷ xs) h = place-All P x (sort_by less key xs) h.0 (sort_by-All P xs h.1)

  place-Distinct :
      (x : Text) (xs : List Text)
      → All (λ y. x ≢ y) xs
      → Distinct xs
      → Distinct (place less key x xs)
  unfolding place
  place-Distinct x [] ne d = (tt, tt)
  place-Distinct x (y ∷ ys) ne d = elim (Bool-cases (less (key y) (key x))) [
    | inl e ↦
        rw e
          (place-All (λ z. y ≢ z) x ys (λ same. ne.0 (sym same)) d.0, place-Distinct x ys ne.1 d.1)
    | inr e ↦ rw e (ne, d)
  ]

  pub sort_by-Distinct : (xs : List Text) → Distinct xs → Distinct (sort_by less key xs)
  unfolding sort_by
  sort_by-Distinct [] d = tt
  sort_by-Distinct (x ∷ xs) d =
      place-Distinct x (sort_by less key xs) (sort_by-All (λ y. x ≢ y) xs d.0)
        (sort_by-Distinct xs d.1)

-- A name that comes before others that some test keeps apart from it.
pub split-Distinct :
    (q : Text → Bool) (xs : List Text)
    → Distinct xs
    → Distinct (keep q xs ++ keep (λ n. not (member n (keep q xs))) xs)
split-Distinct q xs d =
    let front : List Text = keep q xs in
    let apart : Text → Bool = λ n. not (member n front) in
    append-Distinct front (keep apart xs) (keep-Distinct q xs d) (keep-Distinct apart xs d) (
      All-map (λ n. apart n ≡ true) (λ n. All (λ x. x ≢ n) front) (keep apart xs)
        (λ n e. absent-ne n front (ground (arith, e))) (keep_passes apart xs))
