-- ===== src/Cache/Tests.antt =====
-- A cache of at most two answers, asked and filled.
use glc_v.Prelude.{
  ℕ, ◌*◌, ◌≤◌, ◌≡◌, refl, true, false, Option, none, some, List, [], ◌∷◌, ◌++◌, map, arith,
  if◌then◌else◌, length, ◌==◌, ℕ-Eq, String-Eq, ×-Eq, List-Eq, second,
}
use glc_v.Text.{Text}
use glc_v.Glob.{codes}
use glc_v.Tiers.Samples.{hundredths}
use glc_v.Cache.{
  CacheConfig, CacheEntry, Counters, CacheStore, CacheHost, Query, CacheLookup, should_consult,
  look_up, no_vector, vector, skipped_for, miss, hit,
}
use glc_v.Cache.Table.{Storing, new_entry, store_answer}
use glc_v.Cache.Hits.{IsJustified, look_up-hit}
use glc_v.Cache.Eviction.{store_answer-bound}

abbrev join : List Text → Text
join [] = []
join (t ∷ ts) = t ++ b';' ∷ join ts

abbrev or_nothing : Option Text → Text
or_nothing none = []
or_nothing (some t) = t

-- Lengths are hundredths; the root is taken of squares only.
abbrev root : ℕ → ℕ
root n = if n == 100 then 100 else if n == 400 then 200 else n

abbrev host : CacheHost ℕ Text
host = record {
  floats = hundredths;
  sqrt = root;
  digest = λ d. join (map (λ e. e.0 ++ e.1) d);
  scope_text = λ d. join (map (λ e. e.0 ++ or_nothing e.1) d);
}

abbrev config : CacheConfig ℕ
config = record {
  enabled = true;
  default_on = false;
  threshold = 95;
  ttl_seconds = 60;
  max_entries = 2;
  namespace_fields = codes "model" ∷ [];
  max_temperature = 30;
  skip_when_tools = true;
  skip_when_stream = true;
  scope_dimensions = codes "tenant" ∷ [];
}

abbrev no_counts : Counters ℕ
no_counts = record {
  lookups = 0;
  hits = 0;
  misses = 0;
  skipped = 0;
  stores = 0;
  embed_failures = 0;
  tokens_saved = 0;
  usd_saved = 0;
  best_similarity_missed = 0;
}

abbrev empty_cache : CacheStore ℕ Text
empty_cache = record { entries = []; next_id = 1; counters = no_counts }

abbrev ask : Text → Query ℕ Text
ask tenant = record {
  query_text = codes "hi";
  request_fields = (codes "model", some (codes "m")) ∷ [];
  principal = (codes "tenant", tenant) ∷ [];
  opt_in = some true;
  temperature = 0;
  has_tools = false;
  stream = false;
}

abbrev keep_it : Text → List ℕ → Storing ℕ Text
keep_it answer vec = record {
  query_text = codes "hi";
  request_fields = (codes "model", some (codes "m")) ∷ [];
  principal = (codes "tenant", codes "acme") ∷ [];
  response = answer;
  provider = codes "groq";
  model = codes "m";
  input_tokens = 3;
  output_tokens = 4;
  usd = 1;
  embedding = some vec;
}

abbrev filled : CacheStore ℕ Text
filled =
    (store_answer host config (keep_it (codes "hello") (100 ∷ 0 ∷ [])) no_vector second
      empty_cache).1

abbrev answered_with : CacheLookup ℕ Text → Option (Text × ℕ)
answered_with (hit e sim) = some (e.response, sim)
answered_with (miss sim) = none
answered_with (skipped_for why) = none

same_tenant :
    answered_with
      (look_up host config (ask (codes "acme")) (vector (200 ∷ 0 ∷ [])) (2 * second) filled).0
    ≡ some (codes "hello", 100)
unfolding look_up store_answer
same_tenant = refl

-- Neither another tenant nor a late request gets the answer.
other_tenant :
    (look_up host config (ask (codes "evil")) (vector (100 ∷ 0 ∷ [])) (2 * second) filled).0
    ≡ miss 0
unfolding look_up store_answer
other_tenant = refl

too_late :
    (look_up host config (ask (codes "acme")) (vector (100 ∷ 0 ∷ [])) (62 * second) filled).0
    ≡ miss 0
unfolding look_up store_answer
too_late = refl

abbrev hello : CacheEntry ℕ Text
hello = new_entry host config (keep_it (codes "hello") (100 ∷ 0 ∷ [])) (100 ∷ 0 ∷ []) second 1

hello_served :
    (look_up host config (ask (codes "acme")) (vector (100 ∷ 0 ∷ [])) (2 * second) filled).0
    ≡ hit hello 100
unfolding look_up store_answer
hello_served = refl

look_up-hit_example :
    (should_consult host config (ask (codes "acme")) ≡ none)
    × IsJustified host config
        (ask (codes "acme"))
        (2 * second)
        filled
        hello
        100
        (vector (100 ∷ 0 ∷ []))
look_up-hit_example =
    look_up-hit host config (ask (codes "acme")) (2 * second) filled hello 100
      (vector (100 ∷ 0 ∷ [])) hello_served

abbrev full : CacheStore ℕ Text
full = record filled {
  entries = hello ∷ record hello { id = 2; created_at = 3 * second } ∷ [];
  next_id = 3;
}

oldest_goes :
    map
      (λ e. e.id)
      (store_answer host config
        (keep_it (codes "bye") (0 ∷ 100 ∷ []))
        no_vector
        (4 * second)
        full).1.entries
    ≡ 2 ∷ 3 ∷ []
unfolding store_answer
oldest_goes = refl

store_answer-bound_example :
    length
      (store_answer host config
        (keep_it (codes "bye") (0 ∷ 100 ∷ []))
        no_vector
        (4 * second)
        full).1.entries
    ≤ 2
store_answer-bound_example =
    store_answer-bound host config (λ e. absurd (omega (arith, e)))
      (keep_it (codes "bye") (0 ∷ 100 ∷ [])) (4 * second) no_vector full (omega arith)
