-- ===== src/Tiers/Samples.antt =====
-- A routing file with two ladders, prices and providers for it. A number is a count of hundredths.
use glc_v.Prelude.Dict.{Dict}
use glc_v.Prelude.{
  ℕ, ◌+◌, ◌-◌, ◌*◌, ◌/◌, Bool, true, false, ◌&&◌, Option, none, some, List, [], ◌∷◌, ltb, leb,
  length, ◌==◌, ℕ-Eq, String-Eq, ×-Eq, List-Eq,
}
use glc_v.Text.{Text}
use glc_v.Glob.{codes}
use glc_v.Tiers.{RawTier, RawRole, Document, RoutingPolicy, build_tiers}
use glc_v.Prelude.Floats.{Floats}
use glc_v.Tiers.Order.{Prices}

abbrev pub hundredths : Floats ℕ
hundredths = record {
  add = λ a b. a + b;
  sub = λ a b. a - b;
  mul = λ a b. a * b / 100;
  div = λ a b. a * 100 / b;
  less = ltb;
  is_zero = λ a. a == 0;
  ratio = λ a b. a * 100 / b;
}

abbrev pub flat_prices : Prices ℕ
flat_prices = record {
  input_usd_per_mtok = λ provider model. length provider;
  output_usd_per_mtok = λ provider model. length provider;
  quality_for = λ provider model. 50;
}

abbrev pub ascii_digit : ℕ → Bool
ascii_digit c = leb b'0' c && leb c b'9'

abbrev tier_of : List Text → ℕ → Bool → RawTier ℕ
tier_of order min_ctx strict = record {
  order = order;
  min_ctx = min_ctx;
  strict = strict;
  objective = none;
  tradeoff = none;
}

abbrev role_of : Text → Option Text → Option Text → RawRole
role_of default floor top = record {
  default_tier = some default;
  min_tier = floor;
  max_tier = top;
  escalate = true;
}

abbrev pub demo_file : Document ℕ
demo_file = record {
  ladder = codes "TINY" ∷ codes "LARGE" ∷ codes "HUGE" ∷ [];
  ladders = (codes "capability", codes "CHEAP" ∷ codes "BEST" ∷ []) ∷ [];
  tiers =
      (codes "TINY", tier_of (codes "groq" ∷ codes "gemini" ∷ []) 0 false)
      ∷ (codes "LARGE", tier_of (codes "gemini" ∷ []) 0 true)
      ∷ (codes "HUGE", tier_of (codes "gemini" ∷ []) 200 true)
      ∷ (codes "CHEAP", tier_of (codes "groq" ∷ []) 0 true)
      ∷ (codes "BEST", tier_of (codes "gemini" ∷ []) 0 true)
      ∷ [];
  unavailable = (codes "github", codes "401") ∷ [];
  default_role = none;
  roles =
      (codes "perception", role_of (codes "TINY") (some (codes "TINY")) (some (codes "LARGE")))
      ∷ (codes "coder", role_of (codes "CHEAP") none none)
      ∷ [];
  selection = record { objective = none; tradeoff = none; output_weight = none; pin_first = [] };
  escalation = record {
    enabled = true;
    max_escalations = 1;
    confidence_threshold = some 50;
    triggers = codes "empty_response" ∷ [];
    scores = [];
    min_response_chars = 0;
    hedge_markers = [];
  };
}

-- The policy of the file, with its tables written out.
abbrev pub demo : RoutingPolicy ℕ
demo = record {
  ladder = demo_file.ladder;
  ladders = (codes "default", demo_file.ladder) ∷ demo_file.ladders;
  placed =
      (codes "TINY", codes "default")
      ∷ (codes "LARGE", codes "default")
      ∷ (codes "HUGE", codes "default")
      ∷ (codes "CHEAP", codes "capability")
      ∷ (codes "BEST", codes "capability")
      ∷ [];
  unavailable = demo_file.unavailable;
  tiers =
      build_tiers
        ((codes "TINY", codes "default")
          ∷ (codes "LARGE", codes "default")
          ∷ (codes "HUGE", codes "default")
          ∷ (codes "CHEAP", codes "capability")
          ∷ (codes "BEST", codes "capability")
          ∷ [])
        demo_file.tiers;
  default_role = codes "perception";
  roles =
      (
        codes "perception",
        record {
          name = codes "perception";
          default_tier = codes "TINY";
          min_tier = some (codes "TINY");
          max_tier = some (codes "LARGE");
          escalate = true;
        },
      )
      ∷ (
        codes "coder",
        record {
          name = codes "coder";
          default_tier = codes "CHEAP";
          min_tier = none;
          max_tier = none;
          escalate = true;
        },
      )
      ∷ [];
  selection = demo_file.selection;
  escalation = demo_file.escalation;
}

abbrev pub live : Dict Text (Option Text)
live =
    (codes "groq", none)
    ∷ (codes "gemini_1", none)
    ∷ (codes "gemini_2", none)
    ∷ (codes "github", none)
    ∷ []

abbrev pub contexts : Dict Text ℕ
contexts = (codes "gemini_1", 100) ∷ (codes "gemini_2", 900) ∷ []
