-- ===== src/Audit/Newest.antt =====
-- What a query of the audit log finds.
use mathlib.Core.List.{Perm}
use mathlib.Core.List.Perm
use glc_v.Prelude.{
  ℕ, zero, suc, ◌≤◌, ◌≡◌, ◌≢◌, sym, subst, Bool-cases, inl, inr, Option, List, [], ◌∷◌, ◌++◌, arith,
  ltb, ltb→ge, ltb→lt, length, keep, All, take, drop, take-append-drop, length-take_le,
  length-take_full,
}
use glc_v.Prelude.Int.{pos}
use glc_v.Text.{Text}
use glc_v.Audit.{LoggedRow, AuditLog, is_asked, place, by_time, query}

-- No row of the list is newer than `r`.
abbrev pub NoneNewer : List LoggedRow → LoggedRow → Type 0
NoneNewer xs r = All (λ x. x.ts ≤ r.ts) xs

-- Every row stands before rows that are not newer.
abbrev Descends : List LoggedRow → Type 0
Descends [] = Unit
Descends (r ∷ rs) = NoneNewer rs r × Descends rs

place-NoneNewer :
    (r x : LoggedRow) (xs : List LoggedRow)
    → r.ts ≤ x.ts
    → NoneNewer xs x
    → NoneNewer (place r xs) x
unfolding place
place-NoneNewer r x [] le h = (le, tt)
place-NoneNewer r x (y ∷ ys) le h = elim (Bool-cases (ltb r.ts y.ts)) [
  | inl b ↦ rw b (h.0, place-NoneNewer r x ys le h.1)
  | inr b ↦ rw b (le, h)
]

NoneNewer-le :
    (r x : LoggedRow) (xs : List LoggedRow) → x.ts ≤ r.ts → NoneNewer xs x → NoneNewer xs r
NoneNewer-le r x [] le h = tt
NoneNewer-le r x (y ∷ ys) le h = (omega (arith, le, h.0), NoneNewer-le r x ys le h.1)

place-Descends : (r : LoggedRow) (xs : List LoggedRow) → Descends xs → Descends (place r xs)
unfolding place
place-Descends r [] d = (tt, tt)
place-Descends r (x ∷ xs) d = elim (Bool-cases (ltb r.ts x.ts)) [
  | inl b ↦ rw b (
    place-NoneNewer r x xs (let h = ltb→lt r.ts x.ts b in omega arith) d.0,
    place-Descends r xs d.1,
  )
  | inr b ↦ let le = ltb→ge r.ts x.ts b in rw b ((le, NoneNewer-le r x xs le d.0), d)
]

by_time-Descends : (rs : List LoggedRow) → Descends (by_time rs)
unfolding by_time
by_time-Descends [] = tt
by_time-Descends (r ∷ rs) = place-Descends r (by_time rs) (by_time-Descends rs)

place-perm : (r : LoggedRow) (xs : List LoggedRow) → Perm (place r xs) (r ∷ xs)
unfolding place
place-perm r [] = Perm.refl (r ∷ [])
place-perm r (x ∷ xs) = elim (Bool-cases (ltb r.ts x.ts)) [
  | inl b ↦ rw b (Perm.trans (Perm.cons x (place-perm r xs)) (Perm.swap r x xs))
  | inr b ↦ rw b (Perm.refl (r ∷ x ∷ xs))
]

by_time-perm : (rs : List LoggedRow) → Perm (by_time rs) rs
unfolding by_time
by_time-perm [] = Perm.refl []
by_time-perm (r ∷ rs) = Perm.trans (place-perm r (by_time rs)) (Perm.cons r (by_time-perm rs))

drop-NoneNewer :
    (n : ℕ) (r : LoggedRow) (xs : List LoggedRow) → NoneNewer xs r → NoneNewer (drop n xs) r
drop-NoneNewer zero r xs h = h
drop-NoneNewer (suc n) r [] h = tt
drop-NoneNewer (suc n) r (x ∷ xs) h = drop-NoneNewer n r xs h.1

take-NoneNewer :
    (n : ℕ) (xs : List LoggedRow) → Descends xs → All (NoneNewer (drop n xs)) (take n xs)
take-NoneNewer zero xs d = tt
take-NoneNewer (suc n) [] d = tt
take-NoneNewer (suc n) (x ∷ xs) d = (drop-NoneNewer n x xs d.0, take-NoneNewer n xs d.1)

-- What a query with the limit `n` finds is, with some rest, the rows that the filters ask for, in some
-- order; no row of the rest is newer than a row that is found; at most `n` rows are found, and `n` of them
-- if there is a rest.
pub query-newest :
    (n : ℕ) (session channel : Option Text) (log : AuditLog)
    → let found = query (pos n) session channel log in
      (rest : List LoggedRow) × Perm (found ++ rest) (keep (is_asked session channel) log.rows)
      × All (NoneNewer rest) found
      × (length found ≤ n)
      × (rest ≢ [] → length found ≡ n)
unfolding query
query-newest n session channel log =
    let asked = keep (is_asked session channel) log.rows in
    let sorted = by_time asked in
    (
      drop n sorted,
      subst (λ rs. Perm rs asked) (sym (take-append-drop n sorted)) (by_time-perm asked),
      take-NoneNewer n sorted (by_time-Descends asked),
      length-take_le n sorted,
      length-take_full n sorted,
    )
