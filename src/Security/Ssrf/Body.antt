-- ===== src/Security/Ssrf/Body.antt =====
-- The end of `fetch_bytes` in glc/security/ssrf.py: the body of an answer, read in chunks.
use glc_v.Prelude.{
  ℕ, ◌+◌, ◌*◌, ◌≤◌, ◌≡◌, inl, inr, Bool, false, Option, none, some, List, [], ◌∷◌, ◌++◌, arith, ltb,
  if◌then◌else◌, length, length-append, ◌==◌, ℕ-Eq, String-Eq, ×-Eq, List-Eq, Result, ◌>>=◌,
  Result-cases, http, ok, raise,
}
use glc_v.Text.{Text, strip}
use glc_v.Glob.{codes}

abbrev pub max_image_bytes : ℕ
max_image_bytes = 12 * 1024 * 1024

abbrev pub refused : {A : Type 0} → Result A
refused = raise (http 400)

-- The loop over the chunks; `total` is what it has read.
unfoldable pub read_chunks : ℕ → List (List ℕ) → Bool → Result (List ℕ)
read_chunks total [] completes = if completes then ok [] else refused
read_chunks total (chunk ∷ chunks) completes =
    let rest = read_chunks (total + length chunk) chunks completes in
    if ltb max_image_bytes (total + length chunk)
    then refused
    else rest >>= λ bytes. ok (chunk ++ bytes)

abbrev too_long : Option ℕ → Bool
too_long none = false
too_long (some n) = ltb max_image_bytes n

unfoldable pub before_semicolon : Text → Text
before_semicolon [] = []
before_semicolon (c ∷ cs) = let rest = before_semicolon cs in if c == b';' then [] else c ∷ rest

abbrev or_png : Option Text → Text
or_png none = codes "image/png"
or_png (some []) = codes "image/png"
or_png (some (c ∷ cs)) = c ∷ cs

-- The content and its type.
unfoldable pub read_body : Option ℕ → List (List ℕ) → Bool → Option Text → Result (List ℕ × Text)
unfolding read_chunks before_semicolon strip
read_body declared chunks completes content_type =
    if too_long declared
    then refused
    else (read_chunks 0 chunks completes >>= λ bytes.
        ok (bytes, strip (before_semicolon (or_png content_type))))

read_chunks_bound :
    (total : ℕ) (chunks : List (List ℕ)) (completes : Bool) (bytes : List ℕ)
    → total ≤ max_image_bytes
    → read_chunks total chunks completes ≡ ok bytes
    → total + length bytes ≤ max_image_bytes
unfolding read_chunks
read_chunks_bound total [] completes bytes le e = ground (arith, e)
read_chunks_bound total (chunk ∷ chunks) completes bytes le e =
    elim (Result-cases (read_chunks (total + length chunk) chunks completes)) [
      | inr (x, r) ↦ absurd (ground (arith, e, r))
      | inl (rest, r) ↦ ground (
        arith,
        e,
        r,
        length-append chunk rest,
        read_chunks_bound (total + length chunk) chunks completes rest,
      )
    ]

pub read_body_bound :
    (declared : Option ℕ) (chunks : List (List ℕ)) (completes : Bool) (ctype : Option Text)
    (bytes : List ℕ) (kind : Text)
    → read_body declared chunks completes ctype ≡ ok (bytes, kind)
    → length bytes ≤ max_image_bytes
unfolding read_body
read_body_bound declared chunks completes ctype bytes kind e =
    elim (Result-cases (read_chunks 0 chunks completes)) [
      | inr (x, r) ↦ absurd (ground (arith, e, r))
      | inl (rest, r) ↦ ground (arith, e, r, read_chunks_bound 0 chunks completes rest)
    ]
