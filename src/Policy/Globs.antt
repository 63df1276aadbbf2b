-- ===== src/Policy/Globs.antt =====
-- What a glob condition with `**` means in glc/policy/engine.py (`_matches_glob`).
use glc_v.Prelude.{
  ℕ, String, ◌≡◌, refl, sym, subst, ◌↔◌, inl, inr, true, false, List, [], ◌∷◌, arith, Bool-cases,
  ◌==◌, ==-refl, ℕ-Eq, String-Eq, ×-Eq, List-Eq, ok,
}
use glc_v.Prelude.Value.{text}
use glc_v.Glob.{codes, match_tokens, star, star_segment, char}
use glc_v.Policy.Text.{Host, is_part, normalize_path}
use glc_v.Policy.Matchers.{double_star_tokens, glob_text, matches_glob}

-- The pattern does not go on with another star.
abbrev pub IsStarless : List ℕ → Type 0
IsStarless [] = Unit
IsStarless (a ∷ ps) = (a == b'*') ≡ false

-- The text is what the pattern covers: two stars cover any text, one star a text without a slash, and
-- any other character itself.
pub data Covers : List ℕ → List ℕ → Type 0 where
  both_end : Covers [] []
  same_char :
      {a : ℕ} {ps cs : List ℕ} → (a == b'*') ≡ false → Covers ps cs → Covers (a ∷ ps) (a ∷ cs)
  stars_end : {ps cs : List ℕ} → Covers ps cs → Covers (b'*' ∷ b'*' ∷ ps) cs
  stars_more :
      {ps cs : List ℕ} {c : ℕ} → Covers (b'*' ∷ b'*' ∷ ps) cs → Covers (b'*' ∷ b'*' ∷ ps) (c ∷ cs)
  star_end : {ps cs : List ℕ} → IsStarless ps → Covers ps cs → Covers (b'*' ∷ ps) cs
  star_more :
      {ps cs : List ℕ} {c : ℕ}
      → IsStarless ps
      → (c == b'/') ≡ false
      → Covers (b'*' ∷ ps) cs
      → Covers (b'*' ∷ ps) (c ∷ cs)

tokens_char :
    (a : ℕ) (ps : List ℕ)
    → (a == b'*') ≡ false
    → double_star_tokens (a ∷ ps) ≡ char a ∷ double_star_tokens ps
unfolding double_star_tokens
tokens_char a [] h = rw h refl
tokens_char a (b ∷ ps) h = rw (h, double_star_tokens) refl

tokens_star :
    (ps : List ℕ)
    → IsStarless ps
    → double_star_tokens (b'*' ∷ ps) ≡ star_segment ∷ double_star_tokens ps
unfolding double_star_tokens
tokens_star [] h = refl
tokens_star (b ∷ ps) h = rw (h, double_star_tokens) refl

abbrev Accepted : List ℕ → List ℕ → Type 0
Accepted ps cs = match_tokens (double_star_tokens ps) cs ≡ true

char_sound :
    (a : ℕ) (ps cs : List ℕ)
    → (a == b'*') ≡ false
    → ((ds : List ℕ) → Accepted ps ds → Covers ps ds)
    → match_tokens (char a ∷ double_star_tokens ps) cs ≡ true
    → Covers (a ∷ ps) cs
unfolding match_tokens
char_sound a ps [] h ih m = absurd (ground (arith, m))
char_sound a ps (c ∷ cs) h ih m = elim (Bool-cases (c == a)) [
  | inl y ↦
      subst (λ d. Covers (a ∷ ps) (d ∷ cs)) (sym ((ℕ-Eq.eqb_iff c a).0 y))
        (same_char h (ih cs (ground (arith, m, y))))
  | inr n ↦ absurd (ground (arith, m, n))
]

star_sound :
    (ps cs : List ℕ)
    → IsStarless ps
    → ((ds : List ℕ) → Accepted ps ds → Covers ps ds)
    → match_tokens (star_segment ∷ double_star_tokens ps) cs ≡ true
    → Covers (b'*' ∷ ps) cs
unfolding match_tokens
star_sound ps [] h ih m = star_end h (ih [] m)
star_sound ps (c ∷ cs) h ih m = elim (Bool-cases (match_tokens (double_star_tokens ps) (c ∷ cs))) [
  | inl here ↦ star_end h (ih (c ∷ cs) here)
  | inr there ↦ elim (Bool-cases (c == b'/')) [
    | inl slash ↦ absurd (ground (arith, m, there, slash))
    | inr other ↦ star_more h other (star_sound ps cs h ih (ground (arith, m, there, other)))
  ]
]

stars_sound :
    (ps cs : List ℕ)
    → ((ds : List ℕ) → Accepted ps ds → Covers ps ds)
    → match_tokens (star ∷ double_star_tokens ps) cs ≡ true
    → Covers (b'*' ∷ b'*' ∷ ps) cs
unfolding match_tokens
stars_sound ps [] ih m = stars_end (ih [] m)
stars_sound ps (c ∷ cs) ih m = elim (Bool-cases (match_tokens (double_star_tokens ps) (c ∷ cs))) [
  | inl here ↦ stars_end (ih (c ∷ cs) here)
  | inr there ↦ stars_more (stars_sound ps cs ih (ground (arith, m, there)))
]

sound : (ps cs : List ℕ) → Accepted ps cs → Covers ps cs
unfolding double_star_tokens match_tokens
sound [] [] m = both_end
sound [] (c ∷ cs) m = absurd (ground (arith, m))
sound (a ∷ []) cs m = elim (Bool-cases (a == b'*')) [
  | inl y ↦
      subst (λ d. Accepted (d ∷ []) cs → Covers (d ∷ []) cs) (sym ((ℕ-Eq.eqb_iff a b'*').0 y))
        (star_sound [] cs tt (λ ds k. sound [] ds k)) m
  | inr n ↦
      char_sound a [] cs n (λ ds k. sound [] ds k)
        (subst (λ ts. match_tokens ts cs ≡ true) (tokens_char a [] n) m)
]
sound (a ∷ b ∷ ps) cs m = elim (Bool-cases (a == b'*')) [
  | inl y ↦
      subst (λ d. Accepted (d ∷ b ∷ ps) cs → Covers (d ∷ b ∷ ps) cs)
        (sym ((ℕ-Eq.eqb_iff a b'*').0 y))
        (elim (Bool-cases (b == b'*')) [
          | inl z ↦
              subst (λ e. Accepted (b'*' ∷ e ∷ ps) cs → Covers (b'*' ∷ e ∷ ps) cs)
                (sym ((ℕ-Eq.eqb_iff b b'*').0 z)) (stars_sound ps cs (λ ds k. sound ps ds k))
          | inr n ↦ λ m'.
              star_sound (b ∷ ps) cs n (λ ds k. sound (b ∷ ps) ds k)
                (subst (λ ts. match_tokens ts cs ≡ true) (tokens_star (b ∷ ps) n) m')
        ])
        m
  | inr n ↦
      char_sound a (b ∷ ps) cs n (λ ds k. sound (b ∷ ps) ds k)
        (subst (λ ts. match_tokens ts cs ≡ true) (tokens_char a (b ∷ ps) n) m)
]

complete : {ps cs : List ℕ} → Covers ps cs → Accepted ps cs
unfolding double_star_tokens match_tokens
complete both_end = refl
complete (same_char {a} {ps} {cs} h k) =
    rw (tokens_char a ps h) (ground (arith, complete k, ==-refl a))
complete (stars_end {ps} {cs = []} k) = complete k
complete (stars_end {ps} {cs = c ∷ cs} k) = ground (arith, complete k)
complete (stars_more {ps} {cs} {c} k) = ground (arith, complete k)
complete (star_end {ps} {cs = []} h k) = rw (tokens_star ps h) (complete k)
complete (star_end {ps} {cs = c ∷ cs} h k) = rw (tokens_star ps h) (ground (arith, complete k))
complete (star_more {ps} {cs} {c} h o k) = rw (tokens_star ps h) (
    let more = subst (λ ts. match_tokens ts cs ≡ true) (tokens_star ps h) (complete k) in
    ground (arith, o, more))

-- Where the pattern has two stars in a row once the home directory is put in and backslashes are
-- slashes, a text value satisfies the glob condition exactly when, written in the same way, it is
-- covered as a whole by the pattern: two stars cover any text, one star a text without a slash, and
-- every other character itself.
pub matches_glob_iff :
    (host : Host) (value pattern : String)
    → is_part (codes "**") (normalize_path host (codes pattern)) ≡ true
    → (matches_glob host (text value) (text pattern) ≡ ok true)
      ↔ Covers (normalize_path host (codes pattern)) (normalize_path host (codes value))
unfolding matches_glob glob_text
matches_glob_iff host value pattern h =
    let p = normalize_path host (codes pattern) in
    let v = normalize_path host (codes value) in
    (λ m. sound p v (ground (arith, m, h)), λ k. ground (arith, h, complete k))
