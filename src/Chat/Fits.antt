-- ===== src/Chat/Fits.antt =====
-- A request and the provider that the router picks for it.
use glc_v.Prelude.{
  ℕ, ◌+◌, ◌/◌, ◌≤◌, String, ◌≡◌, subst, inl, inr, Bool, true, false, not, none, some, List, [], ◌∷◌,
  ◌++◌, arith, Option-cases, is_empty, All, All-append, All-append_right, ℕ-Eq, String-Eq, ×-Eq,
  List-Eq, ok-injective, bind-ok, ok, Time,
}
use glc_v.Prelude.Dict.{Dict, lookup}
use glc_v.Prelude.Value.{Value, Fields, null, boolean, int, text, array, object}
use glc_v.Text.{Text}
use glc_v.Chat.Demands.{
  Needs, image_blocks, extract_text_blocks, SystemBlocks, content_of, image_block_charcost,
  image_chars, content_chars, message_chars, est_tokens, only_if, wants_reasoning, is_given,
  any_image, required_caps,
}
use glc_v.Routing.{Limits, RateState, Provider}
use glc_v.Routing.Rings.{first_missing, Picked, pick}
use glc_v.Routing.Pick.{IsSuitable, pick-IsSuitable}

-- The image blocks of all messages.
abbrev pub images_in : Value → List Fields
images_in (array xs) = image_blocks xs
images_in _ = []

unfoldable pub images_of : List Fields → List Fields
images_of [] = []
images_of (m ∷ ms) = images_in (content_of m) ++ images_of ms

module _ (str_of : Value → Text) where
  -- The images make up no more than `n` characters.
  abbrev pub Counts : ℕ → List Fields → Type 0
  Counts n bs = All (λ b. image_block_charcost str_of b ≤ n) bs

  Counts-mono : (m n : ℕ) (bs : List Fields) → m ≤ n → Counts m bs → Counts n bs
  Counts-mono m n [] le h = tt
  Counts-mono m n (b ∷ bs) le h = (omega (arith, le, h.0), Counts-mono m n bs le h.1)

  image_chars-Counts : (bs : List Fields) → Counts (image_chars str_of bs) bs
  unfolding image_chars
  image_chars-Counts [] = tt
  image_chars-Counts (b ∷ bs) = (
    omega arith,
    Counts-mono (image_chars str_of bs) (image_block_charcost str_of b + image_chars str_of bs) bs
        (omega arith) (image_chars-Counts bs),
  )

  content_chars-Counts :
      (v : Value) (n : ℕ) → content_chars str_of v ≡ ok n → Counts n (images_in v)
  unfolding content_chars
  content_chars-Counts (array xs) n e =
      let (t, q, r) = bind-ok (extract_text_blocks (array xs)) _ n e in
      let same = ok-injective r in
      Counts-mono (image_chars str_of (image_blocks xs)) n (image_blocks xs) (omega (arith, same))
        (image_chars-Counts (image_blocks xs))
  content_chars-Counts null n e = tt
  content_chars-Counts (boolean b) n e = tt
  content_chars-Counts (int i) n e = tt
  content_chars-Counts (text s) n e = tt
  content_chars-Counts (object fs) n e = tt

  message_chars-Counts :
      (ms : List Fields) (n : ℕ) → message_chars str_of ms ≡ ok n → Counts n (images_of ms)
  unfolding message_chars images_of
  message_chars-Counts [] n e = tt
  message_chars-Counts (m ∷ ms) n e =
      let (a, q, r) = bind-ok (content_chars str_of (content_of m)) _ n e in
      let (b, q', r') = bind-ok (message_chars str_of ms) _ n r in
      let same = ok-injective r' in
      All-append (λ x. image_block_charcost str_of x ≤ n) (images_in (content_of m)) (images_of ms)
        (Counts-mono a n (images_in (content_of m)) (omega (arith, same))
          (content_chars-Counts (content_of m) a q))
        (Counts-mono b n (images_of ms) (omega (arith, same)) (message_chars-Counts ms b q'))

  -- What fits into a context with the rest of the prompt.
  abbrev pub Fit : ℕ → ℕ → List Fields → Type 0
  Fit ctx max_tokens bs = All (λ b. image_block_charcost str_of b / 4 + max_tokens ≤ ctx) bs

  Counts-Fit :
      (ctx max_tokens n : ℕ) (bs : List Fields)
      → n / 4 + max_tokens ≤ ctx
      → Counts n bs
      → Fit ctx max_tokens bs
  Counts-Fit ctx max_tokens n [] le h = tt
  Counts-Fit ctx max_tokens n (b ∷ bs) le h =
      (omega (arith, le, h.0), Counts-Fit ctx max_tokens n bs le h.1)

  est_tokens-Fit :
      (ms : List Fields) (sys : SystemBlocks) (max_tokens est ctx : ℕ)
      → est_tokens str_of ms sys max_tokens ≡ ok est
      → est ≤ ctx
      → Fit ctx max_tokens (images_of ms)
  unfolding est_tokens
  est_tokens-Fit ms sys max_tokens est ctx e le =
      let (n, q, r) = bind-ok (message_chars str_of ms) _ est e in
      let same = ok-injective r in
      Counts-Fit ctx max_tokens n (images_of ms) (omega (arith, same, le))
        (message_chars-Counts ms n q)

-- The provider has every capability of the list.
abbrev pub Has : Dict String Bool → List String → Type 0
Has caps cs = All (λ c. lookup c caps ≡ some true) cs

first_missing-Has :
    (cs : List String) (caps : Dict String Bool) → first_missing cs caps ≡ none → Has caps cs
unfolding first_missing
first_missing-Has [] caps e = tt
first_missing-Has (c ∷ cs) caps e = elim (Option-cases (lookup c caps)) [
  | inl f ↦ absurd (ground (arith, e, f))
  | inr (true, f) ↦ (f, first_missing-Has cs caps (ground (arith, e, f)))
  | inr (false, f) ↦ absurd (ground (arith, e, f))
]

required_caps-vision :
    (r : Needs) (P : String → Type 0)
    → All P (required_caps r)
    → any_image r.messages ≡ true
    → P "vision"
unfolding required_caps
required_caps-vision r P h image =
    let h₁ = All-append_right P (only_if (not (is_empty r.tools)) "tools") _ h in
    let h₂ = All-append_right P (only_if (wants_reasoning r.reasoning) "reasoning") _ h₁ in
    let h₃ = All-append_right P (only_if (is_given r.response_format) "structured") _ h₂ in
    (subst (λ b. All P (only_if b "vision")) image h₃).0

-- For a request that has an estimate, where `pick` chooses a provider for its needs: the provider is known,
-- has every capability that the request needs, vision if a message holds an image; and each image alone
-- fits with `max_tokens` into its context, at three quarters of its payload and four characters a token.
pub pick-Fit :
    (str_of : Value → Text) (r : Needs) (sys : SystemBlocks) (max_tokens est : ℕ)
    (table : Dict String Limits) (providers : Dict String Provider) (now : Time)
    (names : List String) (states : Dict String RateState) (p : Picked) (name : String)
    → est_tokens str_of r.messages sys max_tokens ≡ ok est
    → pick table providers est (required_caps r) now names states ≡ ok p
    → p.0.0 ≡ some name
    → (l : Limits) × (q : Provider) × (lookup name table ≡ some l)
      × (lookup name providers ≡ some q)
      × Has q.capabilities (required_caps r)
      × (any_image r.messages ≡ true → lookup "vision" q.capabilities ≡ some true)
      × Fit str_of l.max_ctx max_tokens (images_of r.messages)
pick-Fit str_of r sys max_tokens est table providers now names states p name e picked chosen =
    let suitable =
      (pick-IsSuitable table providers est (required_caps r) now names states p picked).1 in
    let (l, q, st, a, b, missing, fits, used) =
      subst (IsSuitable table providers est (required_caps r) now) chosen suitable in
    let has = first_missing-Has (required_caps r) q.capabilities missing in
    (
      l,
      q,
      a,
      b,
      has,
      λ image. required_caps-vision r (λ c. lookup c q.capabilities ≡ some true) has image,
      est_tokens-Fit str_of r.messages sys max_tokens est l.max_ctx e fits,
    )
