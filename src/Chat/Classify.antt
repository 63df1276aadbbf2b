-- ===== src/Chat/Classify.antt =====
-- glc/routes/chat.py: the size of a prompt and its classification by the router pool. The pool, its
-- providers and the ledger are the operations of a `RouterWorld`; `upper` is the host's `str.upper`, and
-- `scaled` its product of a count and 1.4, cut to an integer.
use glc_v.Prelude.{
  ℕ, ◌+◌, ◌/◌, max, Bool, true, false, Option, none, some, List, [], ◌∷◌, ltb, leb, if◌then◌else◌,
  length, ◌==◌, ℕ-Eq, String-Eq, ×-Eq, List-Eq,
}
use glc_v.Text.{Text, is_space}
use glc_v.Glob.{codes}
use glc_v.Policy.Text.{is_part}

-- `len(text.split())`; the flag tells whether the last character was in a word
unfoldable pub count_words : Bool → Text → ℕ
unfolding is_space
count_words inside [] = 0
count_words inside (c ∷ cs) =
    let outside = count_words false cs in
    let within = count_words true cs in
    if is_space c then outside else if inside then within else 1 + within

-- `_estimate_tokens`; `scaled n` is `int(n * 1.4)` in floating-point numbers
unfoldable pub estimate_tokens : (ℕ → ℕ) → Text → ℕ
unfolding count_words
estimate_tokens scaled t = max (scaled (count_words false t)) (length t / 4)

abbrev pub tiny : Text
tiny = codes "TINY"

abbrev pub large : Text
large = codes "LARGE"

abbrev pub huge : Text
huge = codes "HUGE"

-- `_tier_from_count`
unfoldable pub tier_from_count : ℕ → Text
tier_from_count tokens = if ltb 8000 tokens then huge else if leb 1000 tokens then large else tiny

-- `_parse_tier`
unfoldable pub parse_tier : (Text → Text) → Text → Option Text
unfolding is_part
parse_tier upper reply =
    if is_part huge (upper reply)
    then some huge
    else if is_part large (upper reply)
    then some large
    else if is_part tiny (upper reply)
    then some tiny
    else none

-- What the loop calls: whether a provider can be used now, its reply to the prompt (none if it raises)
-- with the call noted, and the ledger row of an error or of a tier.
pub record RouterWorld (S : Type 0) : Type 0 where
  pub usable : Text → S → Bool × S
  pub ask : Text → S → Option Text × S
  pub log_error : Text → S → S
  pub log_tier : Text → Text → S → S

pub record RouterDecision : Type 0 where
  pub tier : Text
  pub estimated_tokens : ℕ
  pub router_provider : Option Text
  pub fallback_used : Bool

-- The router may not say HUGE of a prompt that the estimate lets through.
abbrev pub not_huge : Option Text → Option Text
not_huge none = none
not_huge (some t) = if t == huge then some large else some t

module _ {S : Type 0} (w : RouterWorld S) (upper : Text → Text) (scaled : ℕ → ℕ) where
  abbrev pub parsed : Option Text → Option Text
  parsed none = none
  parsed (some reply) = not_huge (parse_tier upper reply)

  -- What follows a reply: an error goes on with the next provider.
  abbrev pub decide : ℕ → Text → (S → RouterDecision × S) → S → Option Text → RouterDecision × S
  decide est name others s none = others (w.log_error name s)
  decide est name others s (some tier) = (
    record {
      tier = tier;
      estimated_tokens = est;
      router_provider = some name;
      fallback_used = false;
    },
    w.log_tier name tier s,
  )

  -- The loop over the router pool, with the last provider that was asked.
  unfoldable pub ask_routers : ℕ → Option Text → List Text → S → RouterDecision × S
  unfolding parse_tier tier_from_count
  ask_routers est last [] s = (
    record {
      tier = tier_from_count est;
      estimated_tokens = est;
      router_provider = last;
      fallback_used = true;
    },
    s,
  )
  ask_routers est last (name ∷ names) s =
      let (usable, t) = w.usable name s in
      let (reply, u) = w.ask name t in
      let passed = ask_routers est last names t in
      let asked = decide est name (ask_routers est (some name) names) u (parsed reply) in
      if usable then asked else passed

  -- `_classify_tier`
  unfoldable pub classify_tier : List Text → Text → S → RouterDecision × S
  unfolding estimate_tokens ask_routers
  classify_tier names prompt s =
      let est = estimate_tokens scaled prompt in
      if ltb 8000 est
      then (
        record {
          tier = huge;
          estimated_tokens = est;
          router_provider = none;
          fallback_used = true;
        },
        s,
      )
      else ask_routers est none names s
