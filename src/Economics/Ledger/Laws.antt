-- ===== src/Economics/Ledger/Laws.antt =====
-- Spend is additive over the ledger, and falls when the window starts later.
use glc_v.Prelude.{
  ◌+◌, ◌≤◌, ◌≡◌, ap, Bool, true, false, ◌&&◌, Option, none, some, List, [], ◌∷◌, arith, leb,
  if◌then◌else◌, ◌==◌, ℕ-Eq, String-Eq, ×-Eq, List-Eq, Time,
}
use glc_v.Text.{Text}
use glc_v.Economics.Ledger.{
  Row, Dimension, Dimension-Eq, part, log_call, Period, period_start, column_is, counts_status,
  is_charged, spend_usd, minute, hour, day, month, lifetime,
}

pub spend_usd-log_call :
    (rows : List Row) (row : Row) (d : Dimension) (value : Text) (since : Time) (errors : Bool)
    → spend_usd (log_call rows row) d value since errors
      ≡ spend_usd rows d value since errors
        + (if is_charged d value since errors row then row.usd else 0)
unfolding spend_usd log_call
spend_usd-log_call [] row d value since errors = omega arith
spend_usd-log_call (r ∷ rows) row d value since errors =
    omega (arith, spend_usd-log_call rows row d value since errors)

pub spend_usd-antitone :
    (rows : List Row) (d : Dimension) (value : Text) (since later : Time) (errors : Bool)
    → since ≤ later
    → spend_usd rows d value later errors ≤ spend_usd rows d value since errors
unfolding spend_usd
spend_usd-antitone [] d value since later errors le = omega arith
spend_usd-antitone (r ∷ rows) d value since later errors le =
    ground (arith, spend_usd-antitone rows d value since later errors le)

-- A window never starts earlier at a later time, if the host's months do not.
pub period_start_mono :
    (month_start : Time → Time)
    → ((m n : Time) → m ≤ n → month_start m ≤ month_start n)
    → (period : Period) (m n : Time) → m ≤ n
    → period_start month_start period m ≤ period_start month_start period n
unfolding period_start
period_start_mono month_start months lifetime m n h = omega arith
period_start_mono month_start months hour m n h = omega arith
period_start_mono month_start months minute m n h = omega arith
period_start_mono month_start months month m n h = months m n h
period_start_mono month_start months day m n h = omega arith

is_value :
    (o : Option Text) (value : Text)
    → elim o [ none ↦ false | some v ↦ v == value ] ≡ true
    → o ≡ some value
is_value none value e = absurd (ground arith)
is_value (some v) value e = ap some ((List-Eq.eqb_iff v value).0 e)

-- A row is charged to a part of a principal only if it was written for that part.
pub is_charged-part :
    (d : Dimension) (value : Text) (since : Time) (errors : Bool) (row : Row)
    → is_charged d value since errors row ≡ true
    → part row.principal d ≡ some value
is_charged-part d value since errors row e =
    is_value (part row.principal d) value (go (column_is d value row) e)
  where
    go : (b : Bool) → (b && leb since row.ts && counts_status errors row.status) ≡ true → b ≡ true
    go b e = ground arith
