-- ===== src/Glob/Tests.antt =====
-- Patterns against names.
use glc_v.Prelude.{◌≡◌, refl, true, false, ℕ-Eq, String-Eq, ×-Eq}
use glc_v.Glob.{fnmatch}

fnmatch_star : fnmatch "gemini-2.5-flash" "gemini-*" ≡ true
unfolding fnmatch
fnmatch_star = refl

fnmatch_class : fnmatch "run-7" "run-[0-9]" ≡ true
unfolding fnmatch
fnmatch_class = refl

fnmatch_negated : fnmatch "run-7" "run-[!0-9]" ≡ false
unfolding fnmatch
fnmatch_negated = refl

fnmatch_open : fnmatch "[" "[" ≡ true
unfolding fnmatch
fnmatch_open = refl
