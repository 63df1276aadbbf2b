-- ===== src/Lib.antt =====
-- GLC gateway: a process that stands between messaging channels, agents and model vendors. This
-- library models the parts that decide: who is trusted, what a tool call may do, how often a sender
-- may speak, and what a caller may spend.
--
-- The parts, and the files that model them:
--
-- - `glc/security/rate_limits.py`, the sliding windows of each sender: Security/RateLimits.antt
--   (`_gc`, `_sweep_locked`, `_check`, `check_message`, `check_tool_call`). Its children hold the
--   specification without windows and the proof that the limiter implements it.
-- - `glc/policy/engine.py` and `glc/policy/schemas.py`, the rules for tool calls: Policy.antt
--   (`evaluate`, `from_yaml`, `reload`), Policy/Matchers.antt (`_matches_condition` and its matchers),
--   Policy/Text.antt (path normalisation). Policy/Globs.antt says what a pattern with two stars means.
-- - `fnmatch`, which the policy engine and the budgets use: Glob.antt writes out the pattern language
--   that the standard library documents, with the matcher.
-- - `glc/security/pairing.py` and `glc/security/trust_level.py`, the pairings and the trust they give:
--   Security/Pairing.antt. `glc/routes/control.py`, the control plane that issues and confirms pairing
--   codes behind a bearer token: Control.antt.
-- - `glc/db.py` with the principals of `glc/economics/meter.py`, the ledger of calls:
--   Economics/Ledger.antt and Economics/Principals.antt.
-- - `glc/economics/budget.py`, the ceilings on spending: Economics/Budget.antt (resolution and the
--   statuses), Economics/Budget/Decision.antt (the gate `admit`), Economics/Budget/Config.antt (budgets.yaml and the runtime limits),
--   Economics/Budget/Reports.antt (the receipts), Economics/Budget/Runs.antt (the budget step of the candidate ring of
--   `glc/routes/chat.py`, over a sequence of calls).
-- - `glc/economics/pricing.py`, the price of a model: Economics/Pricing.antt (`from_dict`, `price_for`) and
--   Economics/Pricing/Cost.antt (`cost`, `project_usd`). The projection that the budget makes of it is in
--   Economics/Budget/Estimate.antt (`BudgetController.project`).
-- - `glc/routing/core.py`, the rate state of a provider and the failover rings: Routing.antt (`RateState`),
--   Routing/Names.antt (`resolve`, `expand`) and Routing/Rings.antt (`pick` of `Router` and `RouterPool`).
-- - `glc/security/allowlists.py` and the inbound routes of `glc/routes/channels.py`: Channels.antt
--   (`allowed`, `_derive_gate`, `_verified_identity`), Channels/Ingress.antt (the checks of `channel_ws` and
--   `channel_webhook` over the pairing store and the rate limiter), Channels/Access.antt (the tokens of its routes).
-- - `glc/security/ssrf.py`, the guarded fetch of a caller's URL: Security/Ssrf.antt (`prepare_safe_target`,
--   `connect_tcp`, the redirect loop of `fetch_bytes`) and Security/Ssrf/Body.antt (the capped read).
-- - `glc/routing/policy.py`, the tiers of routing.yaml: Tiers.antt (`RoutingPolicy.__init__`), and below it
--   Ladder.antt (`rank`, `next_tier`, `tier_for`), Order.antt and Candidates.antt (`order_for`), Cascade.antt
--   (`assess`, `should_escalate`).
-- - `glc/routes/chat.py`, the candidate ring inside the cascade loop: Chat.antt, over the tiers and a `World`
--   for the router, the budget, the providers and the ledger; Chat/Classify.antt (`_classify_tier`) and
--   Chat/Schema.antt (`assert_schema_sane`), Chat/Demands.antt (`_required_caps`, `_est_tokens`),
--   Chat/Images.antt (`_resolve_image_urls`, over the guarded fetch) and Chat/Backoff.antt (`_backoff_for`).
-- - `glc/cache/semantic.py`, the cache of answers to similar prompts: Cache.antt (`should_consult`, `lookup`)
--   and Cache/Table.antt (`store`, `purge`).
-- - `glc/embedders.py`, the rate state of an embedder and the failover ring: Embedders.antt.
-- - `glc/providers.py`, the clients of the models: Providers.antt with Providers/Healing.antt (the requests of
--   `OpenAICompatProvider.chat`, over a `Server`) and Providers/Schema.antt (`_gemini_clean_schema`).
-- - `glc/audit/store.py`, the append-only audit log: Audit.antt (`append`, `query`). Channels.antt keeps the audit
--   rows of a message as a list of its own.
--
-- Each part keeps its state in a record that its operations take and return. A database table and a
-- Python dict are a `Dict` (Prelude/Dict.antt), an association list in insertion order. An exception is
-- a value (Prelude/Exceptions.antt), and the values of YAML and JSON are `Value` (Prelude/Value.antt).
-- Clock readings are microseconds and arguments of the operation that makes them. Money is a whole
-- number of one small unit in the ledger and at the gate: sums are exact where the source adds floats.
-- Elsewhere floating-point numbers are a parameter `N` with its operations (Prelude/Floats.antt). What the code takes from its
-- host (regular expressions, case folding, home directories, `float` of a configured value, the first
-- instant of a month) is an argument of the definitions, most of it in a record `Host`.
--
-- Loops recurse on the list that they walk, or on the number of turns that the source fixes. Two run on fuel:
-- the cascade loop of Chat.antt, where one unit more than the configured number of escalations is enough,
-- and the walk of Providers/Schema.antt, where the number of definitions is; a theorem states each.
--
-- Not modelled: the other parts of the providers, the embedding vendors, channel adapters, voice and
-- telemetry (input and output over libraries), the economics, observability, speech and transcription
-- routes, the handlers of `glc/routes/chat.py` and `glc/routes/channels.py` that are not named above, YAML
-- parsing, SQLite and its files, locks, process-wide singletons, HTTP framing, and in the modelled files
-- `describe` but for the policies, and the rollups of the ledger.
-- Calls that overlap are not a sequence of steps of Economics/Budget/Runs.antt: between admission and
-- recording the source reserves nothing.
pub mod Prelude
pub mod Glob
pub mod Policy
pub mod Text
pub mod Security
pub mod Control
pub mod Economics
pub mod Routing
pub mod Channels
pub mod Tiers
pub mod Chat
pub mod Cache
pub mod Embedders
pub mod Audit
pub mod Providers
