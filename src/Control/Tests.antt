-- ===== src/Control/Tests.antt =====
-- The theorems on concrete requests.
use glc_v.Prelude.{
  ℕ, ◌≡◌, refl, ◌≢◌, ◌⊎◌, some, List, ℕ-Eq, String-Eq, ×-Eq, List-Eq, http, ok, raise,
}
use glc_v.Glob.{codes}
use glc_v.Security.Pairing.{code_ttl, empty_store, issue_code}
use glc_v.Control.{PairRequest, PairResponse, require_token, pair}
use glc_v.Control.Laws.{Presents, AllRaise, refused_without_token}

abbrev ask_bob : PairRequest
ask_bob = record {
  channel = "slack";
  channel_user_id = "bob";
  user_handle = "Bob";
  trust_level = "user_paired";
}

wrong_token : require_token (codes "s3cret") (some (codes "Bearer guess ")) ≡ raise (http 403)
unfolding require_token
wrong_token = refl

refused_without_token_example :
    (¬ ((token : List ℕ) × Presents (some (codes "Bearer guess ")) token)
      × AllRaise (codes "s3cret") empty_store (some (codes "Bearer guess ")) (http 401))
    ⊎ (((token : List ℕ) × Presents (some (codes "Bearer guess ")) token × (token ≢ codes "s3cret"))
        × AllRaise (codes "s3cret") empty_store (some (codes "Bearer guess ")) (http 403))
    ⊎ (Presents (some (codes "Bearer guess ")) (codes "s3cret")
        × (require_token (codes "s3cret") (some (codes "Bearer guess ")) ≡ ok tt))
refused_without_token_example =
    refused_without_token (codes "s3cret") empty_store (some (codes "Bearer guess "))

abbrev answer : PairResponse
answer = record { code = codes "000042"; expires_at = 300000005; ttl_seconds = code_ttl }

entered :
    (pair (codes "s3cret") empty_store ask_bob (some (codes "Bearer s3cret")) 42 5).0 ≡ ok answer
unfolding pair require_token issue_code
entered = refl
