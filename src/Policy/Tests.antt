-- ===== src/Policy/Tests.antt =====
-- The theorems on a small policy.
use glc_v.Policy.Globs.{Covers, matches_glob_iff}
use glc_v.Policy.Matchers.{matches_glob}
use glc_v.Glob.{codes}
use glc_v.Prelude.{
  ℕ, ◌≡◌, refl, ◌≢◌, ◌↔◌, ◌⊎◌, inr, true, false, some, [], ◌∷◌, ℕ-Eq, String-Eq, ×-Eq, List-Eq, ok,
}
use glc_v.Prelude.Int.{pos}
use glc_v.Prelude.Value.{Value, value_eq, int, text, object, end, field}
use glc_v.Glob.{codes}
use glc_v.Policy.Text.{is_part, normalize_path, Host, strip_suffix}
use glc_v.Policy.Matchers.{matches_condition}
use glc_v.Policy.{
  PolicyRule, PolicyVerdict, PolicyEngine, Call, reload, applies, scan, evaluate_call, evaluate,
  allow, deny, denied_by_policy, matched_rule, malformed,
}
use glc_v.Policy.Spec.{spec, evaluate_call-eq-spec}
use glc_v.Policy.Laws.{AppliesAt}
use glc_v.Policy.Guarantees.{deny_wins, allowed_only_if}
use glc_v.Policy.Totality.{unreadable_denies}

abbrev host : Host
host = record {
  home = λ user. some (codes "/home/ann");
  casefold = λ s. s;
  re_search = λ p s. ok false;
  str_of = λ v. [];
}

abbrev allow_all : PolicyRule
allow_all = record {
  tool = "*";
  channel = "*";
  trust_level = "*";
  condition = end;
  action = allow;
  reason = "";
}

abbrev no_documents : PolicyRule
no_documents = record {
  tool = "file.read";
  channel = "*";
  trust_level = "*";
  condition = field "path_glob" (text "~/Documents/**") end;
  action = deny;
  reason = "";
}

abbrev engine : PolicyEngine
engine = record { config = record { rules = allow_all ∷ no_documents ∷ [] } }

abbrev read_path : Value → Call
read_path path = record {
  tool = text "file.read";
  params = object (field "path" path end);
  channel = text "slack";
  trust_level = text "owner_paired";
}

abbrev denied : PolicyVerdict
denied = record { action = deny; reason = denied_by_policy; matched_rule_index = some 1 }

abbrev allowed_by_first : PolicyVerdict
allowed_by_first = record { action = allow; reason = matched_rule 0; matched_rule_index = some 0 }

absolute_path : evaluate_call host engine (read_path (text "/home/ann/Documents/a")) ≡ ok denied
unfolding evaluate_call scan applies matches_condition
absolute_path = refl

elsewhere : evaluate_call host engine (read_path (text "/tmp/a")) ≡ ok allowed_by_first
unfolding evaluate_call scan applies matches_condition
elsewhere = refl

confused : evaluate_call host engine (read_path (int (pos 3))) ≡ ok denied
unfolding evaluate_call scan applies matches_condition
confused = refl

documents_apply : applies host no_documents (read_path (text "/home/ann/Documents/a")) ≡ ok true
unfolding applies matches_condition
documents_apply = refl

evaluate_call-eq-spec_example :
    evaluate_call host engine (read_path (text "/tmp/a"))
    ≡ spec host engine (read_path (text "/tmp/a"))
evaluate_call-eq-spec_example = evaluate_call-eq-spec host (read_path (text "/tmp/a")) engine

deny_wins_example : denied.action ≡ deny
deny_wins_example =
    deny_wins host engine (read_path (text "/home/ann/Documents/a")) denied 1 no_documents
      absolute_path (refl, documents_apply) refl

allowed_only_if_example :
    let call = read_path (text "/tmp/a") in
    ((j : ℕ) (r : PolicyRule) → AppliesAt host call engine.config.rules j r → r.action ≢ deny)
    × (((j : ℕ) × (r : PolicyRule) × AppliesAt host call engine.config.rules j r
          × (r.action ≡ allow))
        ⊎ (((j : ℕ) (r : PolicyRule) → ¬ AppliesAt host call engine.config.rules j r)
            × (value_eq call.trust_level (text "owner_paired") ≡ true)))
allowed_only_if_example =
    allowed_only_if host engine (read_path (text "/tmp/a")) allowed_by_first elsewhere refl

path_target : strip_suffix "_glob" "path_glob" ≡ some "path"
unfolding strip_suffix
path_target = refl

unreadable_denies_example :
    (v : PolicyVerdict) × (evaluate host (reload malformed engine) end end ≡ ok v)
    × (v.action ≡ deny)
unreadable_denies_example = unreadable_denies host engine malformed end end (inr refl)

under_home : is_part (codes "**") (normalize_path host (codes "/home/**")) ≡ true
unfolding is_part normalize_path
under_home = refl

matches_glob_iff_example :
    (matches_glob host (text "/home/ann/a.txt") (text "/home/**") ≡ ok true)
    ↔ Covers
        (normalize_path host (codes "/home/**"))
        (normalize_path host (codes "/home/ann/a.txt"))
matches_glob_iff_example = matches_glob_iff host "/home/ann/a.txt" "/home/**" under_home
