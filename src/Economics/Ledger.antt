-- ===== src/Economics/Ledger.antt =====
-- glc/db.py and the principals of glc/economics/meter.py: the ledger of calls and what it says was
-- spent. An amount of money is a number of one fixed small fraction of a dollar (the source's
-- floats are rounded, these sums are exact). Columns that no sum reads are left out.
pub mod Laws
use glc_v.Prelude.{
  ℕ, ◌+◌, ◌-◌, ◌*◌, ◌%◌, ◌≡◌, ◌↔◌, Bool, true, false, ◌&&◌, Option, none, some, List, [], ◌∷◌, ◌++◌,
  arith, leb, if◌then◌else◌, Eq, ◌==◌, ℕ-Eq, String-Eq, ×-Eq, List-Eq, Time, second,
}
use glc_v.Glob.{codes}
use glc_v.Text.{Text}

abbrev pub Usd : Type 0
Usd = ℕ

-- `PRINCIPAL_DIMENSIONS`, coarsest first
pub data Dimension : Type 0 where
  tenant project user agent session : Dimension

unfoldable pub dimension_eq : Dimension → Dimension → Bool
dimension_eq tenant tenant = true
dimension_eq project project = true
dimension_eq user user = true
dimension_eq agent agent = true
dimension_eq session session = true
dimension_eq _ _ = false

pub dimension_eq_iff : (a b : Dimension) → (dimension_eq a b ≡ true) ↔ (a ≡ b)
unfolding dimension_eq
dimension_eq_iff a b = ground arith

instance abbrev pub Dimension-Eq : Eq Dimension
Dimension-Eq = record { eqb = dimension_eq; eqb_iff = dimension_eq_iff }

-- `dim in DIMENSIONS`
unfoldable pub parse_dimension : Text → Option Dimension
parse_dimension t =
    if t == codes "tenant"
    then some tenant
    else if t == codes "project"
    then some project
    else if t == codes "user"
    then some user
    else if t == codes "agent"
    then some agent
    else if t == codes "session"
    then some session
    else none

-- `Principal`
pub record Principal : Type 0 where
  pub tenant : Option Text
  pub project : Option Text
  pub user : Option Text
  pub agent : Option Text
  pub session : Option Text

-- `getattr(self, d)`
unfoldable pub part : Principal → Dimension → Option Text
part p tenant = p.tenant
part p project = p.project
part p user = p.user
part p agent = p.agent
part p session = p.session

abbrev pub non_empty : Dimension → Option Text → List (Dimension × Text)
non_empty d none = []
non_empty d (some []) = []
non_empty d (some (c ∷ cs)) = (d, c ∷ cs) ∷ []

-- `Principal.present()`: the parts that were supplied, an empty text not counting
unfoldable pub present : Principal → List (Dimension × Text)
unfolding part
present p =
    non_empty tenant (part p tenant)
    ++ (non_empty project (part p project)
        ++ (non_empty user (part p user)
            ++ (non_empty agent (part p agent) ++ non_empty session (part p session))))

pub data Status : Type 0 where
  ok_status error_status : Status

-- A row of `calls`.
pub record Row : Type 0 where
  pub ts : Time
  pub status : Status
  pub principal : Principal
  pub usd : Usd

-- `log_call`
unfoldable pub log_call : List Row → Row → List Row
log_call rows row = rows ++ row ∷ []

pub data Period : Type 0 where
  minute hour day month lifetime : Period

unfoldable pub parse_period : Text → Option Period
parse_period t =
    if t == codes "minute"
    then some minute
    else if t == codes "hour"
    then some hour
    else if t == codes "day"
    then some day
    else if t == codes "month"
    then some month
    else if t == codes "lifetime"
    then some lifetime
    else none

-- `_period_start`. The first instant of a month needs the host's calendar and time zone.
unfoldable pub period_start : (Time → Time) → Period → Time → Time
period_start month_start lifetime now = 0
period_start month_start hour now = now - now % (3600 * second)
period_start month_start minute now = now - now % (60 * second)
period_start month_start month now = month_start now
period_start month_start day now = now - now % (86400 * second)

-- `"{dimension}" = ?`; NULL equals nothing
abbrev pub column_is : Dimension → Text → Row → Bool
column_is d value row = elim (part row.principal d) [ none ↦ false | some v ↦ v == value ]

abbrev pub counts_status : Bool → Status → Bool
counts_status include_errors ok_status = true
counts_status include_errors error_status = include_errors

abbrev pub is_charged : Dimension → Text → Time → Bool → Row → Bool
is_charged d value since include_errors row =
    column_is d value row && leb since row.ts && counts_status include_errors row.status

-- `spend_usd`
unfoldable pub spend_usd : List Row → Dimension → Text → Time → Bool → Usd
spend_usd [] d value since include_errors = 0
spend_usd (row ∷ rows) d value since include_errors =
    (if is_charged d value since include_errors row then row.usd else 0)
    + spend_usd rows d value since include_errors
