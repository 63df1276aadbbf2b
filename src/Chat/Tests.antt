-- ===== src/Chat/Tests.antt =====
-- A request that starts on a low tier, over a router that always has a provider.
use glc_v.Prelude.{
  ℕ, ◌+◌, ◌≡◌, refl, true, false, Option, none, some, List, [], ◌∷◌, if◌then◌else◌, ◌==◌, ℕ-Eq,
  String-Eq, ×-Eq, List-Eq,
}
use glc_v.Prelude.Dict.{Dict}
use glc_v.Text.{Text}
use glc_v.Glob.{codes}
use glc_v.Tiers.{RawTier, Document, RoutingPolicy, build_tiers}
use glc_v.Tiers.Cascade.{Answer}
use glc_v.Tiers.Samples.{hundredths, flat_prices, ascii_digit, demo_file, demo, live}
use glc_v.Chat.{World, Request, Dispatch, Reply, tier_candidates, rounds, answered, served, error}
use glc_v.Chat.Rounds.{IsWithin, rounds_end}

abbrev raw : Text → RawTier ℕ
raw name = record {
  order = name ∷ [];
  min_ctx = 0;
  strict = true;
  objective = none;
  tradeoff = none;
}

abbrev file : Document ℕ
file = record demo_file {
  ladder = codes "LOW" ∷ codes "TOP" ∷ [];
  ladders = [];
  tiers = (codes "LOW", raw (codes "groq")) ∷ (codes "TOP", raw (codes "gemini")) ∷ [];
  roles = [];
}

abbrev both : Dict Text Text
both = (codes "LOW", codes "default") ∷ (codes "TOP", codes "default") ∷ []

abbrev policy : RoutingPolicy ℕ
policy = record demo {
  ladder = file.ladder;
  ladders = (codes "default", file.ladder) ∷ [];
  placed = both;
  tiers = build_tiers both file.tiers;
  default_role = codes "default";
  roles = [];
}

abbrev answer_of : Text → Answer
answer_of t = record { text = t; has_tool_calls = false; stop_reason = none; schema_failed = false }

-- The provider of the low tier says nothing.
abbrev reply_of : Text → Answer
reply_of name = answer_of (if name == codes "groq" then [] else codes "yes")

abbrev first_name : List Text → Option Text
first_name [] = none
first_name (x ∷ xs) = some x

-- The world counts the rows of the ledger.
abbrev world : World ℕ
world = record {
  pick = λ names s. (first_name names, s);
  admit = λ name s. (true, s);
  call = λ name tier s. (answered (reply_of name), s);
  record_answer = λ name s. s + 1;
  record_failure = λ name s. s + 1;
  expand = λ names. names;
}

abbrev request : Request ℕ
request = record {
  auto_route = some (codes "default");
  no_escalation = false;
  explicit_override = false;
  est_input = 0;
  tradeoff = none;
}

abbrev start : Dispatch ℕ
start = record {
  world = 0;
  candidates = codes "groq" ∷ [];
  tier = some (codes "LOW");
  escalations = 0;
  failed = false;
  refused = false;
}

abbrev run_on : World ℕ → Option Reply
run_on w =
    rounds w hundredths flat_prices ascii_digit (λ s. s) live [] (some policy) request 2 start

climbs_once : run_on world ≡ some (served (codes "gemini_1") (some (codes "TOP")) 1)
unfolding rounds build_tiers
climbs_once = refl

-- The low tier has answered and is paid for, the budget refuses the providers of the next one: the
-- request is refused as if no provider had been asked.
abbrev poor_world : World ℕ
poor_world = record world { admit = λ name s. (name == codes "groq", s) }

answer_lost : run_on poor_world ≡ some (error 402)
unfolding rounds build_tiers
answer_lost = refl

rounds_end_example :
    (r : Reply) × (rounds world hundredths flat_prices ascii_digit
        (λ s. s)
        live
        []
        (some policy)
        request
        2
        start
      ≡ some r)
    × IsWithin (some policy) r
rounds_end_example =
    rounds_end world hundredths flat_prices ascii_digit (λ s. s) live [] (some policy) request start
      refl

abbrev rungs : Text → List Text
rungs tier =
    tier_candidates world hundredths flat_prices ascii_digit (λ s. s) live [] (some policy) request
      policy tier
