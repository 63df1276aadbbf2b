-- ===== src/Policy/Text.antt =====
-- The text operations of glc/policy/engine.py, over code points where it walks a text.

use glc_v.Prelude.{
  ℕ, String, Bool, true, false, ◌&&◌, ◌||◌, Option, none, some, List, [], ◌∷◌, ◌++◌, map,
  if◌then◌else◌, is_empty, ◌==◌, ℕ-Eq, String-Eq, ×-Eq, list_eq, List-Eq, Result,
}
use glc_v.Prelude.Value.{Value}
use glc_v.Glob.{codes}

-- What the process takes from its host and from Python's text library, as functions: the home
-- directory of a user (the empty name is the current user), Unicode case folding, the
-- regular-expression search with DOTALL (which raises on a pattern that does not compile), and `str`
-- of a value that is no text.
pub record Host : Type 0 where
  pub home : List ℕ → Option (List ℕ)
  pub casefold : List ℕ → List ℕ
  pub re_search : List ℕ → List ℕ → Result Bool
  pub str_of : Value → List ℕ

-- `text.startswith(prefix)`
unfoldable pub starts_with : List ℕ → List ℕ → Bool
starts_with [] cs = true
starts_with (p ∷ ps) [] = false
starts_with (p ∷ ps) (c ∷ cs) = p == c && starts_with ps cs

-- `part in text`
unfoldable pub is_part : List ℕ → List ℕ → Bool
unfolding starts_with
is_part part [] = starts_with part []
is_part part (c ∷ cs) = starts_with part (c ∷ cs) || is_part part cs

-- `key[:-len(suffix)]` if `key.endswith(suffix)`
unfoldable pub strip_suffix : String → String → Option String
strip_suffix suffix String.[] = if list_eq (codes suffix) [] then some "" else none
strip_suffix suffix (String.◌∷◌ c s) =
    let shorter = strip_suffix suffix s in
    if list_eq (codes suffix) (codes (String.◌∷◌ c s))
    then some ""
    else elim shorter [ none ↦ none | some r ↦ some (String.◌∷◌ c r) ]

-- `path.rstrip("/")`
unfoldable pub strip_slashes : List ℕ → List ℕ
strip_slashes [] = []
strip_slashes (c ∷ cs) =
    let rest = strip_slashes cs in if is_empty rest && c == b'/' then [] else c ∷ rest

unfoldable pub before_slash : List ℕ → List ℕ
before_slash [] = []
before_slash (c ∷ cs) = let rest = before_slash cs in if c == b'/' then [] else c ∷ rest

unfoldable pub from_slash : List ℕ → List ℕ
from_slash [] = []
from_slash (c ∷ cs) = let rest = from_slash cs in if c == b'/' then c ∷ cs else rest

-- `os.path.expanduser` on a POSIX host
unfoldable pub expand_user : Host → List ℕ → List ℕ
unfolding strip_slashes before_slash from_slash
expand_user host [] = []
expand_user host (c ∷ cs) =
    if c == b'~'
    then elim (host.home (before_slash cs)) [
      | none ↦ c ∷ cs
      | some dir ↦
          let path = strip_slashes dir ++ from_slash cs in if is_empty path then b'/' ∷ [] else path
    ]
    else c ∷ cs

abbrev forward : ℕ → ℕ
forward c = if c == b'\\' then b'/' else c

-- `_normalize_path_for_glob`
unfoldable pub normalize_path : Host → List ℕ → List ℕ
unfolding expand_user
normalize_path host s = map forward (expand_user host s)
