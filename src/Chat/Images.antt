-- ===== src/Chat/Images.antt =====
-- `_resolve_image_urls` of glc/routes/chat.py, over the guarded fetch of glc/security/ssrf.py: the pictures
-- that a request names by a URL are fetched and put in its place. The network may have changed at every
-- fetch. Base64 is a library's.
pub mod Guarded
mod Tests
use glc_v.Prelude.{
  ℕ, suc, String, Bool, true, false, ◌||◌, Option, none, some, List, [], ◌∷◌, ◌++◌, if◌then◌else◌,
  ℕ-Eq, String-Eq, ×-Eq, List-Eq, Result, ◌>>=◌, ok, raise,
}
use glc_v.Prelude.Value.{
  Value, Fields, Items, get_value, set_field, text, array, object, end, field, nil, cons,
}
use glc_v.Text.{Text}
use glc_v.Glob.{codes}
use glc_v.Policy.Text.{starts_with}
use glc_v.Security.Ssrf.{Network, Dial, fetch_bytes}
use glc_v.Chat.Demands.{url_in, is_url_kind}
use Prim.Native.String.{◌++◌ as ◌<>◌}

-- `base64.b64encode`, a text as the strings of the documents, and the network at each fetch.
pub record ImageHost : Type 0 where
  pub b64encode : List ℕ → String
  pub as_string : Text → String
  pub network_at : ℕ → Network

-- A result with the number of the next fetch, and what was dialled.
abbrev pub Step : Type 0 → Type 0
Step A = Result A × (ℕ × List Dial)

unfoldable pub and_then : {A B : Type 0} → Step A → (A → ℕ → Step B) → Step B
and_then (raise e, s) k = (raise e, s)
and_then (ok a, (n, ds)) k = let (r, (m, es)) = k a n in (r, (m, ds ++ es))

abbrev pub done : {A : Type 0} → A → ℕ → Step A
done a n = (ok a, (n, []))

-- The URL of a block that is fetched.
abbrev pub http_text : Value → Option Text
http_text (text s) =
    if starts_with (codes "http://") (codes s) || starts_with (codes "https://") (codes s)
    then some (codes s)
    else none
http_text _ = none

unfoldable pub url_to_fetch : Value → Option Text
unfolding get_value starts_with
url_to_fetch (object fs) =
    if is_url_kind (get_value "type" fs)
    then http_text (url_in (get_value "image_url" fs))
    else none
url_to_fetch _ = none

-- `{"type": "image_url", "image_url": {"url": data_url}}`
abbrev pub picture_of : String → Value
picture_of url =
    object (
      field "type" (text "image_url") (field "image_url" (object (field "url" (text url) end)) end))

module _ (h : ImageHost) where
  abbrev pub data_url : List ℕ × Text → String
  data_url (content, kind) = "data:" <> (h.as_string kind <> (";base64," <> h.b64encode content))

  -- `_fetch_to_data_url`
  unfoldable pub fetch_to_data_url : Text → ℕ → Step String
  unfolding fetch_bytes
  fetch_to_data_url url n =
      let (r, ds) = fetch_bytes (h.network_at n) url in
      (r >>= λ answer. ok (data_url answer), (suc n, ds))

  -- A block of a content, and whether it has changed.
  unfoldable pub resolve_block : ℕ → Value → Step (Value × Bool)
  unfolding url_to_fetch and_then fetch_to_data_url
  resolve_block n b = elim (url_to_fetch b) [
    | none ↦ done (b, false) n
    | some url ↦ and_then (fetch_to_data_url url n) (λ u m. done (picture_of u, true) m)
  ]

  unfoldable pub resolve_blocks : ℕ → Items → Step (Items × Bool)
  unfolding resolve_block
  resolve_blocks n nil = done (nil, false) n
  resolve_blocks n (cons b bs) =
      and_then (resolve_block n b)
        (λ x m. and_then (resolve_blocks m bs) (λ y. done (cons x.0 y.0, x.1 || y.1)))

  abbrev pub with_blocks : Fields → Items × Bool → Fields
  with_blocks m (bs, changed) = if changed then set_field "content" (array bs) m else m

  abbrev pub resolve_content : ℕ → Fields → Value → Step Fields
  resolve_content n m (array bs) = and_then (resolve_blocks n bs) (λ x. done (with_blocks m x))
  resolve_content n m _ = done m n

  -- `_resolve_image_urls`, from the number of the next fetch
  unfoldable pub resolve_image_urls : ℕ → List Fields → Step (List Fields)
  unfolding resolve_blocks set_field get_value
  resolve_image_urls n [] = done [] n
  resolve_image_urls n (m ∷ ms) =
      and_then (resolve_content n m (get_value "content" m))
        (λ m' k. and_then (resolve_image_urls k ms) (λ rest. done (m' ∷ rest)))
