-- ===== src/Glob.antt =====
-- The wildcard matching that glc/policy/engine.py, glc/economics/budget.py and
-- glc/economics/pricing.py use: Python's `fnmatch.fnmatch` on a POSIX host (where `normcase` leaves
-- a name alone), over code points. A pattern becomes a list of tokens, and the tokens are matched.
mod Tests
use Prim.Native.Char.{code}
use glc_v.Prelude.{
  ℕ, zero, suc, ◌+◌, String, Bool, true, false, not, ◌&&◌, ◌||◌, Option, none, some, List, [], ◌∷◌,
  leb, if◌then◌else◌, length, ◌==◌, ℕ-Eq, String-Eq, ×-Eq,
}

-- The code points of a text. `String` has its own `[]` and `∷`.
abbrev pub codes : String → List ℕ
codes String.[] = []
codes (String.◌∷◌ c s) = code c ∷ codes s

pub data Token : Type 0 where
  star star_segment any_char : Token
  char : ℕ → Token
  char_class : Bool → List (ℕ × ℕ) → Token

-- The members of a bracket expression as ranges. A `-` is a range sign behind a first character
-- and before a last one, and a character of its own elsewhere.
unfoldable pub class_ranges : List ℕ → List (ℕ × ℕ)
class_ranges [] = []
class_ranges (a ∷ []) = (a, a) ∷ []
class_ranges (a ∷ b ∷ []) = (a, a) ∷ (b, b) ∷ []
class_ranges (a ∷ b ∷ c ∷ cs) =
    let rest = class_ranges cs in
    let single = class_ranges (b ∷ c ∷ cs) in if b == b'-' then (a, c) ∷ rest else (a, a) ∷ single

unfoldable pub up_to_bracket : List ℕ → Option (List ℕ)
up_to_bracket [] = none
up_to_bracket (c ∷ cs) =
    let rest = up_to_bracket cs in
    if c == b']' then some [] else elim rest [ none ↦ none | some body ↦ some (c ∷ body) ]

-- The body of a bracket expression behind its `[` and an optional `!`: a first `]` is a member.
unfoldable pub class_body : List ℕ → Option (List ℕ)
unfolding up_to_bracket
class_body [] = none
class_body (c ∷ cs) = elim (up_to_bracket cs) [ none ↦ none | some body ↦ some (c ∷ body) ]

-- The token of the pattern behind a `[`, and how many characters it takes.
unfoldable pub bracket : List ℕ → Token × ℕ
unfolding class_ranges class_body
bracket [] = (char b'[', 0)
bracket (c ∷ cs) =
    if c == b'!'
    then elim (class_body cs) [
      | none ↦ (char b'[', 0)
      | some body ↦ (char_class true (class_ranges body), length body + 2)
    ]
    else elim (class_body (c ∷ cs)) [
      | none ↦ (char b'[', 0)
      | some body ↦ (char_class false (class_ranges body), length body + 1)
    ]

-- `fnmatch.translate`. The number counts characters that a bracket expression has taken already.
unfoldable pub translate : ℕ → List ℕ → List Token
unfolding bracket
translate skip [] = []
translate (suc skip) (c ∷ cs) = translate skip cs
translate zero (c ∷ cs) =
    let (token, taken) =
      (if c == b'*'
        then (star, 0)
        else if c == b'?'
        then (any_char, 0)
        else if c == b'['
        then bracket cs
        else (char c, 0)) in
    token ∷ translate taken cs

unfoldable pub in_ranges : ℕ → List (ℕ × ℕ) → Bool
in_ranges c [] = false
in_ranges c ((lo, hi) ∷ rs) = (leb lo c && leb c hi) || in_ranges c rs

-- Does the token match this one character?
unfoldable pub accepts : Token → ℕ → Bool
unfolding in_ranges
accepts star c = true
accepts star_segment c = not (c == b'/')
accepts any_char c = true
accepts (char d) c = c == d
accepts (char_class negated ranges) c =
    if negated then not (in_ranges c ranges) else in_ranges c ranges

abbrev pub is_star : Token → Bool
is_star star = true
is_star star_segment = true
is_star _ = false

-- Do the tokens match the whole text?
unfoldable pub match_tokens : List Token → List ℕ → Bool
unfolding accepts
match_tokens [] [] = true
match_tokens [] (c ∷ cs) = false
match_tokens (t ∷ ts) [] = is_star t && match_tokens ts []
match_tokens (t ∷ ts) (c ∷ cs) =
    let here = match_tokens ts (c ∷ cs) in
    let further = match_tokens (t ∷ ts) cs in
    let next = match_tokens ts cs in
    if is_star t
    then (if here then true else if accepts t c then further else false)
    else if accepts t c
    then next
    else false

-- `fnmatch.fnmatch(name, pat)`
unfoldable pub fnmatch : String → String → Bool
unfolding translate match_tokens
fnmatch name pat = match_tokens (translate 0 (codes pat)) (codes name)
