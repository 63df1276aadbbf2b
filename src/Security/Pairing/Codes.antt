-- ===== src/Security/Pairing/Codes.antt =====
-- The codes are six digits, and different numbers have different codes.
use glc_v.Prelude.{
  ℕ, ◌+◌, ◌-◌, ◌*◌, ◌≤◌, ◌<◌, ◌≡◌, refl, sym, ap, ◌∙◌, [], ◌∷◌, arith, length, All, ℕ-Eq, String-Eq,
  ×-Eq, List-Eq,
}
use glc_v.Text.{Text}
use glc_v.Security.Pairing.{format_code}

abbrev pub IsDigit : ℕ → Type 0
IsDigit c = (48 ≤ c) × (c ≤ 57)

format_code-digits : (n : ℕ) → All IsDigit (format_code n)
unfolding format_code
format_code-digits n = omega arith

-- The number that six decimal digits write.
abbrev number_of : Text → ℕ
number_of (a ∷ b ∷ c ∷ d ∷ e ∷ f ∷ []) =
    (a - 48) * 100000
    + (b - 48) * 10000
    + (c - 48) * 1000
    + (d - 48) * 100
    + (e - 48) * 10
    + (f - 48)
number_of _ = 0

number_of-format_code : (n : ℕ) → n < 1000000 → number_of (format_code n) ≡ n
unfolding format_code
number_of-format_code n h = omega arith

-- A code is six decimal digits, and below a million two numbers with one code are the same number.
pub format_code_lem :
    (m n : ℕ)
    → m < 1000000
    → n < 1000000
    → (length (format_code n) ≡ 6)
      × All IsDigit (format_code n)
      × (format_code m ≡ format_code n → m ≡ n)
unfolding format_code
format_code_lem m n p q = (
  refl,
  format_code-digits n,
  λ e. sym (number_of-format_code m p) ∙ ap number_of e ∙ number_of-format_code n q,
)
