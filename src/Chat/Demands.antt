-- ===== src/Chat/Demands.antt =====
-- What a request of glc/routes/chat.py asks of a provider: the capabilities (`_required_caps`) and the size
-- of the prompt (`_est_tokens`), with the walks over contents of glc/providers.py. `str_of` is the host's
-- `str` of a value that is no text.
use glc_v.Prelude.{
  ℕ, ◌+◌, ◌*◌, ◌/◌, max, String, Bool, true, false, not, ◌&&◌, ◌||◌, Option, none, some, List, [],
  ◌∷◌, ◌++◌, if◌then◌else◌, length, is_empty, any, ◌==◌, ℕ-Eq, String-Eq, ×-Eq, List-Eq, Result,
  ◌>>=◌, type_error, ok, raise,
}
use glc_v.Prelude.Value.{
  Value, Fields, Items, get_field, get_value, truthy, or_empty, null, text, array, object, nil,
  cons,
}
use glc_v.Text.{Text}
use glc_v.Glob.{codes}

-- `v in ("image_url", "image", "input_image")`
unfoldable pub is_image_kind : Value → Bool
is_image_kind (text s) = s == "image_url" || s == "image" || s == "input_image"
is_image_kind _ = false

abbrev pub is_image : Fields → Bool
is_image fs = is_image_kind (get_value "type" fs)

-- The image blocks of a content's items.
unfoldable pub image_blocks : Items → List Fields
unfolding is_image_kind get_value
image_blocks nil = []
image_blocks (cons (object fs) xs) =
    let rest = image_blocks xs in if is_image fs then fs ∷ rest else rest
image_blocks (cons v xs) = image_blocks xs

-- `_content_has_image`
unfoldable pub content_has_image : Value → Bool
unfolding image_blocks
content_has_image (array xs) = not (is_empty (image_blocks xs))
content_has_image _ = false

abbrev is_text_kind : Value → Bool
is_text_kind (text s) = s == "text"
is_text_kind _ = false

-- What a block adds to the text parts.
unfoldable pub text_part : Value → Option Value
unfolding is_image_kind get_value get_field
text_part (text s) = some (text s)
text_part (object fs) = elim (get_field "text" fs) [
  | none ↦ none
  | some v ↦
      if is_text_kind (get_value "type" fs) then some v else if is_image fs then none else some v
]
text_part _ = none

unfoldable pub text_parts : Items → List Value
unfolding text_part
text_parts nil = []
text_parts (cons v xs) =
    let rest = text_parts xs in elim (text_part v) [ none ↦ rest | some t ↦ t ∷ rest ]

-- `"\n".join(parts)`
unfoldable pub join_parts : List Value → Result Text
join_parts [] = ok []
join_parts (text s ∷ []) = ok (codes s)
join_parts (text s ∷ v ∷ vs) = join_parts (v ∷ vs) >>= λ rest. ok (codes s ++ b'\n' ∷ rest)
join_parts (v ∷ vs) = raise type_error

-- `_extract_text_blocks`
unfoldable pub extract_text_blocks : Value → Result Text
unfolding text_parts join_parts
extract_text_blocks (text s) = ok (codes s)
extract_text_blocks (array xs) = join_parts (text_parts xs)
extract_text_blocks _ = ok []

-- `len(url)` for a text
abbrev pub text_len : Value → ℕ
text_len (text s) = length (codes s)
text_len _ = 0

abbrev pub url_in : Value → Value
url_in (object fs) = get_value "url" fs
url_in v = v

abbrev pub is_url_kind : Value → Bool
is_url_kind (text s) = s == "image_url"
is_url_kind _ = false

abbrev or_value : Value → Value → Value
or_value v w = if truthy v then v else w

abbrev url_of_source : Value → Value
url_of_source (object fs) = get_value "url" fs
url_of_source _ = null

abbrev data_of_source : Value → Value
data_of_source (object fs) = get_value "data" fs
data_of_source _ = null

-- `system_blocks`: a text, blocks with their texts, or none.
pub data SystemBlocks : Type 0 where
  no_system : SystemBlocks
  system_text : Text → SystemBlocks
  system_blocks : List Text → SystemBlocks

unfoldable pub sum_lengths : List Text → ℕ
sum_lengths [] = 0
sum_lengths (t ∷ ts) = length t + sum_lengths ts

abbrev pub system_chars : SystemBlocks → ℕ
system_chars no_system = 0
system_chars (system_text t) = length t
system_chars (system_blocks ts) = sum_lengths ts

abbrev pub content_of : Fields → Value
content_of m = elim (get_field "content" m) [ none ↦ text "" | some v ↦ v ]

module _ (str_of : Value → Text) where
  abbrev pub str : Value → Text
  str (text s) = codes s
  str v = str_of v

  -- The payload of a block by the place where it lies.
  unfoldable pub payload_len : Fields → ℕ
  unfolding get_value truthy or_empty
  payload_len fs =
      if is_url_kind (get_value "type" fs)
      then text_len (url_in (get_value "image_url" fs))
      else if is_image fs
      then (let src = or_empty (get_value "source" fs) in
          if truthy (data_of_source src)
          then length (str (data_of_source src))
          else text_len (or_value (get_value "url" fs) (url_of_source src)))
      else 0

  -- `_image_block_charcost`
  unfoldable pub image_block_charcost : Fields → ℕ
  unfolding payload_len
  image_block_charcost fs = max 1200 (payload_len fs * 3 / 4)

  unfoldable pub image_chars : List Fields → ℕ
  unfolding image_block_charcost
  image_chars [] = 0
  image_chars (b ∷ bs) = image_block_charcost b + image_chars bs

  -- The characters that a content counts for.
  unfoldable pub content_chars : Value → Result ℕ
  unfolding extract_text_blocks image_chars image_blocks
  content_chars (array xs) =
      extract_text_blocks (array xs) >>= λ t. ok (length t + image_chars (image_blocks xs))
  content_chars v = ok (length (str v))

  unfoldable pub message_chars : List Fields → Result ℕ
  unfolding content_chars get_field
  message_chars [] = ok 0
  message_chars (m ∷ ms) =
      content_chars (content_of m) >>= λ n. message_chars ms >>= λ more. ok (n + more)

  -- `_est_tokens`
  unfoldable pub est_tokens : List Fields → SystemBlocks → ℕ → Result ℕ
  unfolding message_chars sum_lengths
  est_tokens ms system max_tokens =
      message_chars ms >>= λ chars. ok ((chars + system_chars system) / 4 + max_tokens)

-- The parts of a request that its needs are read from.
pub record Needs : Type 0 where
  pub tools : List Value
  pub reasoning : Option Text
  pub response_format : Option Value
  pub messages : List Fields

abbrev pub only_if : Bool → String → List String
only_if b cap = if b then cap ∷ [] else []

abbrev pub wants_reasoning : Option Text → Bool
wants_reasoning none = false
wants_reasoning (some t) = not (is_empty t) && not (t == codes "off")

abbrev pub is_given {ℓ} : {A : Type ℓ} → Option A → Bool
is_given none = false
is_given (some a) = true

abbrev pub any_image : List Fields → Bool
any_image ms = any (λ m. content_has_image (get_value "content" m)) ms

-- `_required_caps`
unfoldable pub required_caps : Needs → List String
unfolding content_has_image get_value
required_caps r =
    only_if (not (is_empty r.tools)) "tools"
    ++ (only_if (wants_reasoning r.reasoning) "reasoning"
        ++ (only_if (is_given r.response_format) "structured"
            ++ only_if (any_image r.messages) "vision"))
