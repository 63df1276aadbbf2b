-- ===== src/Channels/Access.antt =====
-- glc/routes/channels.py: the tokens that open its routes. The tokens and the configured webhook secret
-- are arguments.
use glc_v.Prelude.{
  ◌≡◌, refl, ◌≢◌, Bool, true, false, not, ◌&&◌, ◌||◌, Option, none, some, [], ◌∷◌, arith,
  if◌then◌else◌, is_empty, ◌==◌, ℕ-Eq, String-Eq, ×-Eq, List-Eq, Result, http, ok, raise,
}
use glc_v.Text.{Text, strip, after_prefix}
use glc_v.Glob.{codes}
use glc_v.Control.{bearer}

abbrev or_empty_text : Option Text → Text
or_empty_text none = []
or_empty_text (some s) = s

-- `(authorization or "").removeprefix("Bearer ").strip()`
unfoldable pub presented_token : Option Text → Text
unfolding after_prefix strip
presented_token authorization =
    elim (after_prefix (codes "Bearer ") (or_empty_text authorization)) [
      | none ↦ strip (or_empty_text authorization)
      | some rest ↦ strip rest
    ]

-- `_require_admin`
unfoldable pub require_admin : Text → Option Text → Result (Unit {0})
unfolding presented_token
require_admin install_token authorization =
    let presented = presented_token authorization in
    if is_empty presented || not (presented == install_token) then raise (http 401) else ok tt

-- `_authorised_channel_control`; the bridge token comes from the environment
unfoldable pub authorised_channel_control : Text → Text → Option Text → Bool
unfolding presented_token strip
authorised_channel_control install_token bridge_token authorization =
    let presented = presented_token authorization in
    not (is_empty presented)
    && (presented == install_token
        || (not (is_empty (strip bridge_token)) && presented == strip bridge_token))

-- The token that `channel_ws` compares: the header's if it is a bearer token, else the query's.
unfoldable pub ws_token : Option Text → Option Text → Option Text
unfolding bearer
ws_token header query = elim (bearer header) [
  | some t ↦ some t
  | none ↦ elim query [ none ↦ none | some [] ↦ none | some (c ∷ cs) ↦ some (c ∷ cs) ]
]

-- Is the websocket accepted?
unfoldable pub ws_accepts : Text → Option Text → Option Text → Bool
unfolding ws_token
ws_accepts install_token header query = elim (ws_token header query) [
  | none ↦ false
  | some t ↦ t == install_token
]

-- `channel_webhook_verify`: the challenge that it answers with
unfoldable pub webhook_verify : Bool → Text → Text → Text → Text → Result Text
webhook_verify is_meta_hub expected mode token challenge =
    if not is_meta_hub
    then raise (http 404)
    else if is_empty expected
    then raise (http 403)
    else if mode == codes "subscribe" && token == expected
    then ok challenge
    else raise (http 403)

abbrev opened : Result (Unit {0})
opened = ok tt

admits_only : (b : Bool) → (if not b then raise (http 401) else ok tt) ≡ opened → b ≡ true
admits_only true e = refl
admits_only false e = absurd (ground (arith, e))

token_needed :
    (install_token presented : Text)
    → (if is_empty presented || not (presented == install_token) then raise (http 401) else ok tt)
      ≡ opened
    → (presented ≡ install_token) × (presented ≢ [])
token_needed install_token [] e = absurd (ground (arith, e))
token_needed install_token (c ∷ cs) e = (
  (List-Eq.eqb_iff (c ∷ cs) install_token).0 (admits_only ((c ∷ cs) == install_token) e),
  λ n. cc,
)

-- The administration routes admit a request only if it presents the installation token, and that
-- is not empty.
pub require_admin-token :
    (install_token : Text) (authorization : Option Text)
    → require_admin install_token authorization ≡ ok tt
    → (presented_token authorization ≡ install_token) × (presented_token authorization ≢ [])
unfolding require_admin
require_admin-token install_token authorization e =
    token_needed install_token (presented_token authorization) e

-- With no secret configured the webhook handshake answers no request with its challenge.
pub webhook_verify_closed :
    (is_meta_hub : Bool) (mode token challenge answer : Text)
    → webhook_verify is_meta_hub [] mode token challenge ≢ ok answer
unfolding webhook_verify
webhook_verify_closed true mode token challenge answer e = absurd (ground (arith, e))
webhook_verify_closed false mode token challenge answer e = absurd (ground (arith, e))
