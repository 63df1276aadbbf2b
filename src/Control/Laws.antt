-- ===== src/Control/Laws.antt =====
-- Who can use the control plane, and what it can grant.
use text.Mathlib.TextEquality.{eq_iff}
use glc_v.Prelude.{
  ℕ, ◌+◌, String, ◌≡◌, refl, ap, subst, ◌≢◌, ◌⊎◌, inl, inr, Bool, ◌||◌, Option, none, some, [], ◌∷◌,
  ◌++◌, arith, Bool-cases, Option-cases, some-injective, ◌==◌, ==-refl, ℕ-Eq, String-Eq, ×-Eq,
  List-Eq, Exn, Result-cases, http, ok, raise, Time,
}
use glc_v.Prelude.Dict.{lookup}
use glc_v.Text.{Text, after_prefix, strip}
use glc_v.Glob.{codes}
use mathlib.Core.Path.{subst}
use glc_v.Security.Pairing.{PairingStore, code_ttl, format_code}
use glc_v.Security.Pairing.Laws.{issued-answer, issued-lookup}
use glc_v.Control.{
  PairRequest, PairResponse, bearer, require_token, pair, pair_confirm, presence, kill,
}

after_prefix-some : (p s r : Text) → after_prefix p s ≡ some r → s ≡ p ++ r
unfolding after_prefix
after_prefix-some [] s r e = some-injective e
after_prefix-some (p ∷ ps) [] r e = absurd (ground (arith, e))
after_prefix-some (p ∷ ps) (c ∷ cs) r e =
    ground (arith, e, ℕ-Eq.eqb_iff p c, after_prefix-some ps cs r)

after_prefix-append : (p r : Text) → after_prefix p (p ++ r) ≡ some r
unfolding after_prefix
after_prefix-append [] r = refl
after_prefix-append (p ∷ ps) r = ground (arith, ==-refl p, after_prefix-append ps r)

-- The header presents this token.
abbrev pub Presents : Option Text → Text → Type 0
Presents authorization token =
    (rest : Text) × (authorization ≡ some (codes "Bearer " ++ rest)) × (strip rest ≡ token)

-- Every handler raises the error, and the store stays as it is.
abbrev pub AllRaise : Text → PairingStore → Option Text → Exn → Type 0
AllRaise expected s authorization e =
    ((req : PairRequest) (random : ℕ) (now : Time)
      → pair expected s req authorization random now ≡ (raise e, s))
    × ((code : Text) (now paired_at : Time)
        → pair_confirm expected s code authorization now paired_at ≡ (raise e, s))
    × (presence expected s authorization ≡ (raise e, s))
    × ((remote : Bool) (client : String) → kill expected remote client authorization ≡ raise e)

raised-AllRaise :
    (expected : Text) (s : PairingStore) (authorization : Option Text) (e : Exn)
    → require_token expected authorization ≡ raise e
    → AllRaise expected s authorization e
unfolding pair pair_confirm presence kill
raised-AllRaise expected s authorization e h =
    (λ req random now. rw h, λ code now paired_at. rw h, rw h, λ remote client. rw h)

-- What `bearer` reads, or that nothing is presented.
bearer-cases :
    (authorization : Option Text)
    → ((token : Text) × (bearer authorization ≡ some token) × Presents authorization token)
      ⊎ ((bearer authorization ≡ none) × ¬ ((token : Text) × Presents authorization token))
unfolding bearer
bearer-cases none = inr (refl, λ (token, (rest, e, s)). absurd (ground (arith, e)))
bearer-cases (some header) = elim (Option-cases (after_prefix (codes "Bearer ") header)) [
  | inl n ↦ inr (
    rw n refl,
    λ (token, (rest, e, s)).
        let same = ap (after_prefix (codes "Bearer ")) (some-injective e) in
        absurd (cc (n, same, after_prefix-append (codes "Bearer ") rest)),
  )
  | inr (rest, e) ↦ inl (
    strip rest,
    rw e refl,
    (rest, ap some (after_prefix-some (codes "Bearer ") header rest e), refl),
  )
]

-- One of three holds: no bearer header is there, and every handler answers 401; or one is
-- there with another token than the installation's, and every handler answers 403; or it presents
-- the installation's token and is let in. Where it is not, the store stays as it is.
pub refused_without_token :
    (expected : Text) (s : PairingStore) (authorization : Option Text)
    → (¬ ((token : Text) × Presents authorization token)
        × AllRaise expected s authorization (http 401))
      ⊎ (((token : Text) × Presents authorization token × (token ≢ expected))
          × AllRaise expected s authorization (http 403))
      ⊎ (Presents authorization expected × (require_token expected authorization ≡ ok tt))
unfolding require_token
refused_without_token expected s authorization = elim (bearer-cases authorization) [
  | inr (n, without) ↦
      inl
        (without, raised-AllRaise expected s authorization (http 401) (rw (n, require_token) refl))
  | inl (token, b, presents) ↦ elim (Bool-cases (token == expected)) [
    | inl same ↦ inr (
        inr (
          subst (Presents authorization) ((List-Eq.eqb_iff token expected).0 same) presents,
          rw (b, require_token) (rw same refl),
        ))
    | inr other ↦ inr (
        inl (
          (token, presents, λ q. ground (arith, other, q, ==-refl expected)),
          raised-AllRaise expected s authorization (http 403)
              (rw (b, require_token) (rw other refl)),
        ))
  ]
]

-- A pair request over the control plane leads to a code for exactly the sender and the level that it
-- names, and only if that level is `user_paired` or `owner_paired`.
pub pair_issues :
    (expected : Text) (s : PairingStore) (req : PairRequest) (authorization : Option Text)
    (random : ℕ) (now : Time) (response : PairResponse)
    → (pair expected s req authorization random now).0 ≡ ok response
    → ((req.trust_level ≡ "user_paired") ⊎ (req.trust_level ≡ "owner_paired"))
      × (response.expires_at ≡ now + code_ttl)
      × (lookup response.code (pair expected s req authorization random now).1.pending_codes
          ≡ some (record {
            channel = req.channel;
            channel_user_id = req.channel_user_id;
            user_handle = req.user_handle;
            requested_trust_level = req.trust_level;
            expires_at = now + code_ttl;
          }))
unfolding pair
pair_issues expected s req authorization random now response h =
    elim (Result-cases (require_token expected authorization)) [
      | inr (e, refused) ↦ absurd (ground arith)
      | inl (_, entered) ↦
          elim (Bool-cases
            (req.trust_level == "user_paired" || req.trust_level == "owner_paired")) [
              | inr other ↦ absurd (ground arith)
              | inl level ↦
                  let issued =
                    issued-lookup s random req.channel req.channel_user_id req.user_handle
                      req.trust_level now in
                  let answer =
                    issued-answer s random req.channel req.channel_user_id req.user_handle
                      req.trust_level now in
                  (
                    ground (
                      arith,
                      eq_iff req.trust_level "user_paired",
                      eq_iff req.trust_level "owner_paired",
                    ),
                    ground (arith, answer),
                    (let code : response.code ≡ format_code random = ground (arith, answer) in
                        rw (code, entered, level) issued),
                  )
            ]
    ]
