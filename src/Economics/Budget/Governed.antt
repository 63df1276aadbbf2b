-- ===== src/Economics/Budget/Governed.antt =====
-- The status of a policy that governs a principal is among those that a call is judged by.
use mathlib.Core.Path.{subst}
use mathlib.Core.List.{Memᴰ}
use mathlib.Core.List.Memᴰ.{head, tail, append_left, append_right}
use glc_v.Prelude.{
  ℕ, ◌≡◌, refl, sym, Option, none, some, List, [], ◌∷◌, All, ℕ-Eq, String-Eq, ×-Eq, List-Eq, Time,
}
use glc_v.Text.{Text}
use glc_v.Economics.Ledger.{
  Principal, Row, Dimension, Dimension-Eq, part, non_empty, present, tenant, project, user, agent,
  session,
}
use glc_v.Economics.Budget.{
  BudgetPolicy, BudgetStatus, Host, policy_for, status, status_for, statuses_of,
}

module _ (host : Host) (rows : List Row) (now : Time) (ps : List BudgetPolicy)
    (P : BudgetStatus → Type 0) where
  kept :
      (found : Option BudgetStatus) (rest : List BudgetStatus)
      → All P (elim found [ none ↦ rest | some st ↦ st ∷ rest ])
      → All P rest
  kept none rest h = h
  kept (some st) rest h = h.1

  governed-first :
      (parts : List (Dimension × Text)) (d : Dimension) (value : Text) (p : BudgetPolicy)
      → policy_for ps d value ≡ some p
      → statuses_of host rows now ps ((d, value) ∷ parts)
        ≡ status host rows now p value ∷ statuses_of host rows now ps parts
  unfolding statuses_of status_for
  governed-first parts d value p g = rw (g, statuses_of) refl

  pub statuses_of-has :
      (parts : List (Dimension × Text)) (d : Dimension) (value : Text) (p : BudgetPolicy)
      → Memᴰ (d, value) parts
      → policy_for ps d value ≡ some p
      → All P (statuses_of host rows now ps parts)
      → P (status host rows now p value)
  unfolding statuses_of
  statuses_of-has [] d value p m g h = elim m [ ]
  statuses_of-has (x ∷ parts) d value p (head e) g h =
      let h' : All P (statuses_of host rows now ps ((d, value) ∷ parts)) =
        subst (λ y. All P (statuses_of host rows now ps (y ∷ parts))) (sym e) h in
      let h'' : All P (status host rows now p value ∷ statuses_of host rows now ps parts) =
        subst (All P) (governed-first parts d value p g) h' in
      h''.0
  statuses_of-has (x ∷ parts) d value p (tail m) g h =
      statuses_of-has parts d value p m g
        (kept (status_for host rows now ps x.0 x.1) (statuses_of host rows now ps parts) h)

non_empty-has :
    (d : Dimension) (o : Option Text) (c : ℕ) (cs : Text)
    → o ≡ some (c ∷ cs)
    → Memᴰ (d, c ∷ cs) (non_empty d o)
non_empty-has d o c cs e = rw e (head refl)

pub present-has :
    (principal : Principal) (d : Dimension) (c : ℕ) (cs : Text)
    → part principal d ≡ some (c ∷ cs)
    → Memᴰ (d, c ∷ cs) (present principal)
unfolding present
present-has q tenant c cs e = append_left _ (non_empty-has tenant (part q tenant) c cs e)
present-has q project c cs e =
    append_right (non_empty tenant (part q tenant))
      (append_left _ (non_empty-has project (part q project) c cs e))
present-has q user c cs e = append_right (non_empty tenant (part q tenant)) (
    append_right (non_empty project (part q project))
      (append_left _ (non_empty-has user (part q user) c cs e)))
present-has q agent c cs e = append_right (non_empty tenant (part q tenant)) (
    append_right (non_empty project (part q project)) (
      append_right (non_empty user (part q user))
        (append_left _ (non_empty-has agent (part q agent) c cs e))))
present-has q session c cs e = append_right (non_empty tenant (part q tenant)) (
    append_right (non_empty project (part q project)) (
      append_right (non_empty user (part q user)) (
        append_right (non_empty agent (part q agent))
          (non_empty-has session (part q session) c cs e))))
