-- ===== src/Chat/Images/Guarded.antt =====
-- What is dialled for the pictures of a request, and what its messages name afterwards.
use glc_v.Prelude.{
  ℕ, suc, String, ◌≡◌, refl, ap, subst, ◌⊎◌, inl, inr, Bool, true, false, ◌||◌, none, List, [], ◌∷◌,
  arith, if◌then◌else◌, Option-cases, length, All, All-append, ==-refl, ℕ-Eq, String-Eq, ×-Eq,
  List-Eq, Result, ◌>>=◌, ok, raise,
}
use glc_v.Prelude.Value.{
  Value, Fields, Items, get_field, get_value, set_field, text, array, object, end, field, nil, cons,
}
use glc_v.Text.{Text}
use glc_v.Glob.{codes}
use glc_v.Policy.Text.{starts_with}
use glc_v.Security.Ssrf.{Dial, fetch_bytes}
use glc_v.Security.Ssrf.Laws.{IsPinned, fetch_bytes-IsPinned}
use glc_v.Chat.Demands.{url_in, is_url_kind}
use glc_v.Chat.Images.{
  ImageHost, Step, and_then, done, http_text, url_to_fetch, picture_of, data_url, fetch_to_data_url,
  resolve_block, resolve_blocks, with_blocks, resolve_content, resolve_image_urls,
}
use Prim.Native.String.{◌++◌ as ◌<>◌}
use Prim.Native.String.append

abbrev IsInlineUrl : Value → Type 0
IsInlineUrl (text s) =
    (starts_with (codes "http://") (codes s) ≡ false)
    × (starts_with (codes "https://") (codes s) ≡ false)
IsInlineUrl _ = Unit

abbrev IsInlineIf : Bool → Value → Type 0
IsInlineIf true v = IsInlineUrl v
IsInlineIf false v = Unit

-- The URL of a block of type image_url does not start with `http://` or `https://`.
abbrev pub IsInline : Value → Type 0
IsInline (object fs) =
    IsInlineIf (is_url_kind (get_value "type" fs)) (url_in (get_value "image_url" fs))
IsInline _ = Unit

unfoldable pub AreInline : Items → Type 0
AreInline nil = Unit
AreInline (cons b bs) = IsInline b × AreInline bs

abbrev ContentIsInline : Value → Type 0
ContentIsInline (array bs) = AreInline bs
ContentIsInline _ = Unit

abbrev pub MessageIsInline : Fields → Type 0
MessageIsInline m = ContentIsInline (get_value "content" m)

module _ (h : ImageHost) where
  -- What came out has the property, or one of the fetches raised what is raised.
  abbrev pub Outcome : {A : Type 0} → (A → Type 0) → Result A → Type 0
  Outcome P (ok a) = P a
  Outcome P (raise e) = (n : ℕ) × ((url : Text) × ((fetch_bytes (h.network_at n) url).0 ≡ raise e))

  -- At one of the fetches the dial is one that the guard of a fetch makes.
  abbrev pub IsGuardedDial : Dial → Type 0
  IsGuardedDial d = (n : ℕ) × IsPinned (h.network_at n) d

  pinned_at : (n : ℕ) (ds : List Dial) → All (IsPinned (h.network_at n)) ds → All IsGuardedDial ds
  pinned_at n [] g = tt
  pinned_at n (d ∷ ds) g = ((n, g.0), pinned_at n ds g.1)

  -- Every connection was one that the guard of a fetch makes.
  abbrev pub IsGuarded : {A : Type 0} → (A → Type 0) → Step A → Type 0
  IsGuarded P (r, (n, ds)) = All IsGuardedDial ds × Outcome P r

  and_then-IsGuarded :
      {A B : Type 0}
      → (P : A → Type 0) → (Q : B → Type 0) → (s : Step A) → (k : A → ℕ → Step B) → IsGuarded P s
      → ((a : A) (n : ℕ) → P a → IsGuarded Q (k a n))
      → IsGuarded Q (and_then s k)
  unfolding and_then
  and_then-IsGuarded P Q (raise e, s) k g f = g
  and_then-IsGuarded P Q (ok a, (n, ds)) k g f =
      (All-append IsGuardedDial ds (k a n).1.1 g.0 (f a n g.1).0, (f a n g.1).1)

get_value-set_field : (k : String) (v : Value) (fs : Fields) → get_value k (set_field k v fs) ≡ v
unfolding get_value set_field get_field
get_value-set_field k v end = ground (arith, ==-refl k)
get_value-set_field k v (field j w fs) = ground (arith, ==-refl k, get_value-set_field k v fs)

http_text-none : (v : Value) → http_text v ≡ none → IsInlineUrl v
http_text-none (text s) e = ground (arith, e)
http_text-none _ e = tt

inline_if : (c : Bool) (v : Value) → (if c then http_text v else none) ≡ none → IsInlineIf c v
inline_if true v e = http_text-none v e
inline_if false v e = tt

url_to_fetch-none : (b : Value) → url_to_fetch b ≡ none → IsInline b
unfolding url_to_fetch
url_to_fetch-none (object fs) e =
    inline_if (is_url_kind (get_value "type" fs)) (url_in (get_value "image_url" fs)) e
url_to_fetch-none _ e = tt

data-IsInlineUrl : (t : String) → IsInlineUrl (text ("data:" <> t))
unfolding starts_with
data-IsInlineUrl t = rw (append.cons "d" "ata:" t) (refl, refl)

-- A result that is as it was if it is not marked as changed.
abbrev IsMarked : {A : Type 0} → (A → Type 0) → A → A × Bool → Type 0
IsMarked P old (new, changed) = P new × ((changed ≡ true) ⊎ (new ≡ old))

cons-IsMarked :
    (b : Value) (bs : Items) (x : Value × Bool) (y : Items × Bool)
    → IsMarked IsInline b x
    → IsMarked AreInline bs y
    → IsMarked AreInline (cons b bs) (cons x.0 y.0, x.1 || y.1)
unfolding AreInline
cons-IsMarked b bs (b', true) y g h = ((g.0, h.0), inl refl)
cons-IsMarked b bs (b', false) y (g, inl f) h = absurd (ground (arith, f))
cons-IsMarked b bs (b', false) y (g, inr f) (h, inl e) = ((g, h), inl e)
cons-IsMarked b bs (b', false) y (g, inr f) (h, inr e) = ((g, h), inr (cc (f, e)))

module _ (h : ImageHost) (m : Fields) where
  with_blocks-IsInline :
      (bs : Items) (x : Items × Bool)
      → get_value "content" m ≡ array bs
      → IsMarked AreInline bs x
      → MessageIsInline (with_blocks h m x)
  with_blocks-IsInline bs (new, true) e g = rw (get_value-set_field "content" (array new) m) g.0
  with_blocks-IsInline bs (new, false) e (g, inl f) = absurd (ground (arith, f))
  with_blocks-IsInline bs (new, false) e (g, inr f) = rw e (subst AreInline f g)

abbrev pub AreResolved : List Fields → List Fields → Type 0
AreResolved ms out = All MessageIsInline out × (length out ≡ length ms)

module _ (h : ImageHost) where
  told :
      (n : ℕ) (url : Text) (r : Result (List ℕ × Text))
      → (fetch_bytes (h.network_at n) url).0 ≡ r
      → Outcome h (λ u. IsInlineUrl (text u)) (r >>= λ answer. ok (data_url h answer))
  told n url (raise e) q = (n, (url, q))
  told n url (ok (content, kind)) q =
      data-IsInlineUrl (h.as_string kind <> (";base64," <> h.b64encode content))

  fetched-IsGuarded :
      (url : Text) (n : ℕ) → IsGuarded h (λ u. IsInlineUrl (text u)) (fetch_to_data_url h url n)
  unfolding fetch_to_data_url
  fetched-IsGuarded url n = (
    pinned_at h n (fetch_bytes (h.network_at n) url).1 (fetch_bytes-IsPinned (h.network_at n) url),
    told n url (fetch_bytes (h.network_at n) url).0 refl,
  )

  resolve_block-IsGuarded :
      (n : ℕ) (b : Value) → IsGuarded h (IsMarked IsInline b) (resolve_block h n b)
  unfolding resolve_block get_value
  resolve_block-IsGuarded n b = elim (Option-cases (url_to_fetch b)) [
    | inl e ↦ rw (e, resolve_block) (tt, (url_to_fetch-none b e, inr refl))
    | inr (url, e) ↦
        rw (e, resolve_block)
          (and_then-IsGuarded h (λ u. IsInlineUrl (text u)) (IsMarked IsInline b)
            (fetch_to_data_url h url n) (λ u k. done (picture_of u, true) k)
            (fetched-IsGuarded url n) (λ u k g. (tt, (g, inl refl))))
  ]

  resolve_blocks-IsGuarded :
      (n : ℕ) (bs : Items) → IsGuarded h (IsMarked AreInline bs) (resolve_blocks h n bs)
  unfolding resolve_blocks AreInline
  resolve_blocks-IsGuarded n nil = (tt, (tt, inr refl))
  resolve_blocks-IsGuarded n (cons b bs) =
      and_then-IsGuarded h (IsMarked IsInline b) (IsMarked AreInline (cons b bs))
        (resolve_block h n b)
        (λ x k. and_then (resolve_blocks h k bs) (λ y. done (cons x.0 y.0, x.1 || y.1)))
        (resolve_block-IsGuarded n b)
        (λ x k g.
          and_then-IsGuarded h (IsMarked AreInline bs) (IsMarked AreInline (cons b bs))
            (resolve_blocks h k bs) (λ y. done (cons x.0 y.0, x.1 || y.1))
            (resolve_blocks-IsGuarded k bs) (λ y l g'. (tt, cons-IsMarked b bs x y g g')))

  resolve_content-IsGuarded :
      (n : ℕ) (m : Fields) (v : Value)
      → get_value "content" m ≡ v
      → IsGuarded h MessageIsInline (resolve_content h n m v)
  resolve_content-IsGuarded n m (array bs) e =
      and_then-IsGuarded h (IsMarked AreInline bs) MessageIsInline (resolve_blocks h n bs)
        (λ x. done (with_blocks h m x)) (resolve_blocks-IsGuarded n bs)
        (λ x k g. (tt, with_blocks-IsInline h m bs x e g))
  resolve_content-IsGuarded n m _ e = (tt, rw e tt)

  -- The pictures of a request are fetched by connections that the guard of a fetch makes: to an address
  -- that is not forbidden, or to a name that the client makes of a URL for which the check reads a host
  -- with another key in the table of pins. Either as
  -- many messages come out as went in, none with a block of type image_url whose URL starts with
  -- `http://` or `https://` (in lower case), or a fetch raised the exception that is raised.
  pub resolve_image_urls-IsGuarded :
      (n : ℕ) (ms : List Fields) → IsGuarded h (AreResolved ms) (resolve_image_urls h n ms)
  unfolding resolve_image_urls
  resolve_image_urls-IsGuarded n [] = (tt, (tt, refl))
  resolve_image_urls-IsGuarded n (m ∷ ms) =
      and_then-IsGuarded h MessageIsInline (AreResolved (m ∷ ms))
        (resolve_content h n m (get_value "content" m))
        (λ m' k. and_then (resolve_image_urls h k ms) (λ rest. done (m' ∷ rest)))
        (resolve_content-IsGuarded n m (get_value "content" m) refl)
        (λ m' k g.
          and_then-IsGuarded h (AreResolved ms) (AreResolved (m ∷ ms)) (resolve_image_urls h k ms)
            (λ rest. done (m' ∷ rest)) (resolve_image_urls-IsGuarded k ms)
            (λ rest l g'. (tt, ((g, g'.0), ap suc g'.1))))
