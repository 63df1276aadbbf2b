-- ===== src/Economics/Principals.antt =====
-- glc/economics/meter.py: reading and completing the principal of a call, and the usage of a provider's
-- answer.
use glc_v.Prelude.{
  ℕ, String, ◌≡◌, refl, Option, none, some, List, [], ◌∷◌, ◌++◌, map, if◌then◌else◌, is_empty, ℕ-Eq,
  String-Eq, ×-Eq, List-Eq, Result, ◌>>=◌, value_error, ok, raise,
}
use glc_v.Prelude.Int.{ℤ, pos}
use glc_v.Prelude.Value.{Value, Fields, get_value, truthy}
use glc_v.Text.{Text, strip}
use glc_v.Glob.{codes}
use glc_v.Economics.Ledger.{
  Principal, Dimension, Dimension-Eq, parse_dimension, present, tenant, project, user, agent,
  session,
}
use glc_v.Economics.Budget.Config.{partition_colon}

abbrev pub dimension_text : Dimension → Text
dimension_text tenant = codes "tenant"
dimension_text project = codes "project"
dimension_text user = codes "user"
dimension_text agent = codes "agent"
dimension_text session = codes "session"

abbrev pub no_principal : Principal
no_principal = record { tenant = none; project = none; user = none; agent = none; session = none }

abbrev pub set_part : Principal → Dimension → Text → Principal
set_part p tenant v = record p { tenant = some v }
set_part p project v = record p { project = some v }
set_part p user v = record p { user = some v }
set_part p agent v = record p { agent = some v }
set_part p session v = record p { session = some v }

-- `Principal.parse`
unfoldable pub parse : Text → Result Principal
unfolding partition_colon strip parse_dimension
parse spec = elim (parse_dimension (strip (partition_colon spec).0)) [
  | none ↦ raise value_error
  | some d ↦
      if is_empty (partition_colon spec).1
      then raise value_error
      else ok (set_part no_principal d (partition_colon spec).1)
]

-- `Principal.keys`
unfoldable pub keys : Principal → List Text
unfolding present
keys p = map (λ e. dimension_text e.0 ++ b':' ∷ e.1) (present p)

abbrev fill : Option Text → Option Text → Option Text
fill (some (c ∷ cs)) default = some (c ∷ cs)
fill mine none = mine
fill mine (some []) = mine
fill mine (some (c ∷ cs)) = some (c ∷ cs)

-- `Principal.with_defaults`; the defaults are those of its keywords that name a dimension
unfoldable pub with_defaults : Principal → (Dimension → Option Text) → Principal
with_defaults p default = record {
  tenant = fill p.tenant (default tenant);
  project = fill p.project (default project);
  user = fill p.user (default user);
  agent = fill p.agent (default agent);
  session = fill p.session (default session);
}

pub record Usage : Type 0 where
  pub input_tokens : ℤ
  pub output_tokens : ℤ
  pub cache_read_tokens : ℤ
  pub cache_write_tokens : ℤ

-- `int(result.get(key) or 0)`, over the host's `int`
unfoldable pub count : (Value → Result ℤ) → Fields → String → Result ℤ
unfolding get_value
count to_int result key = let v = get_value key result in if truthy v then to_int v else ok (pos 0)

-- `Usage.from_provider_result`
unfoldable pub from_provider_result : (Value → Result ℤ) → Fields → Result Usage
unfolding count
from_provider_result to_int result = do
  input ← count to_int result "input_tokens"
  output ← count to_int result "output_tokens"
  read ← count to_int result "cache_read_input_tokens"
  write ← count to_int result "cache_creation_input_tokens"
  ok (record {
    input_tokens = input;
    output_tokens = output;
    cache_read_tokens = read;
    cache_write_tokens = write;
  })

-- A key `dimension:value` reads back as the principal with just that part, for every dimension and
-- every value that is not empty, colons included.
pub parse-key :
    (d : Dimension) (c : ℕ) (cs : Text)
    → parse (dimension_text d ++ b':' ∷ c ∷ cs) ≡ ok (set_part no_principal d (c ∷ cs))
unfolding parse
parse-key tenant c cs = refl
parse-key project c cs = refl
parse-key user c cs = refl
parse-key agent c cs = refl
parse-key session c cs = refl
