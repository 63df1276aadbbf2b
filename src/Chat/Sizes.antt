-- ===== src/Chat/Sizes.antt =====
-- Which prompts are classified as HUGE.
use glc_v.Prelude.{
  ℕ, ◌≤◌, ◌<◌, ◌≡◌, refl, sym, ◌∙◌, subst, ◌≢◌, ◌↔◌, inl, inr, Option, none, some, List, [], ◌∷◌,
  arith, ltb, ltb→lt, ltb→ge, Bool-cases, some-injective, ◌==◌, ℕ-Eq, String-Eq, ×-Eq, list_eq_iff,
  List-Eq,
}
use glc_v.Text.{Text}
use glc_v.Chat.Classify.{
  RouterWorld, RouterDecision, estimate_tokens, large, huge, tier_from_count, parse_tier, not_huge,
  parsed, decide, ask_routers, classify_tier,
}

-- A tier below HUGE.
abbrev IsSmall : Text → Type 0
IsSmall t = t ≢ huge

large-IsSmall : IsSmall large
large-IsSmall e = ground (arith, e)

tier_from_count-IsSmall : (est : ℕ) → est ≤ 8000 → IsSmall (tier_from_count est)
unfolding tier_from_count
tier_from_count-IsSmall est le = ground (arith, le)

not_huge-IsSmall : (o : Option Text) (t : Text) → not_huge o ≡ some t → IsSmall t
not_huge-IsSmall none t e = absurd (ground (arith, e))
not_huge-IsSmall (some u) t e = elim (Bool-cases (u == huge)) [
  | inl y ↦ subst IsSmall (some-injective (sym (rw y refl) ∙ e)) large-IsSmall
  | inr n ↦ λ same. ground (arith, e, n, same, list_eq_iff u huge)
]

module _ {S : Type 0} (w : RouterWorld S) (upper : Text → Text) (scaled : ℕ → ℕ) where
  decide-IsSmall :
      (est : ℕ) (name : Text) (others : S → RouterDecision × S) (s : S) (o : Option Text)
      → ((t : Text) → o ≡ some t → IsSmall t)
      → ((s : S) → IsSmall (others s).0.tier)
      → IsSmall (decide w upper scaled est name others s o).0.tier
  decide-IsSmall est name others s none h k = k (w.log_error name s)
  decide-IsSmall est name others s (some t) h k = h t refl

  parsed-IsSmall :
      (reply : Option Text) (t : Text) → parsed w upper scaled reply ≡ some t → IsSmall t
  parsed-IsSmall none t e = absurd (ground (arith, e))
  parsed-IsSmall (some reply) t e = not_huge-IsSmall (parse_tier upper reply) t e

  ask_routers-IsSmall :
      (est : ℕ) (last : Option Text) (names : List Text) (s : S)
      → est ≤ 8000
      → IsSmall (ask_routers w upper scaled est last names s).0.tier
  unfolding ask_routers
  ask_routers-IsSmall est last [] s le = tier_from_count-IsSmall est le
  ask_routers-IsSmall est last (name ∷ names) s le =
      let (usable, t) = w.usable name s in
      let (reply, u) = w.ask name t in
      elim (Bool-cases usable) [
        | inr n ↦ rw (n, ask_routers) (ask_routers-IsSmall est last names t le)
        | inl y ↦
            rw (y, ask_routers)
              (decide-IsSmall est name (ask_routers w upper scaled est (some name) names) u
                (parsed w upper scaled reply) (parsed-IsSmall reply)
                (λ v. ask_routers-IsSmall est (some name) names v le))
      ]

  -- A prompt is classified as HUGE exactly if its estimate is over eight thousand tokens, whatever
  -- providers the router pool has and whatever they reply.
  pub classify_tier-huge :
      (names : List Text) (prompt : Text) (s : S)
      → ((classify_tier w upper scaled names prompt s).0.tier ≡ huge)
        ↔ (8000 < estimate_tokens scaled prompt)
  unfolding classify_tier
  classify_tier-huge names prompt s = elim (Bool-cases (ltb 8000 (estimate_tokens scaled prompt))) [
    | inl y ↦
        let over : 8000 < estimate_tokens scaled prompt =
          ltb→lt 8000 (estimate_tokens scaled prompt) y in
        ((λ e. over), (λ more. rw (y, classify_tier) refl))
    | inr n ↦
        let le : estimate_tokens scaled prompt ≤ 8000 =
          ltb→ge 8000 (estimate_tokens scaled prompt) n in
        let est = estimate_tokens scaled prompt in
        let small : IsSmall (classify_tier w upper scaled names prompt s).0.tier =
          rw (n, classify_tier) (ask_routers-IsSmall est none names s le) in
        ((λ e. absurd (small e)), (λ more. absurd (omega (arith, more, le))))
  ]
