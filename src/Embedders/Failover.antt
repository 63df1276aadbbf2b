-- ===== src/Embedders/Failover.antt =====
-- Who answers when the caller pins an embedder.
use glc_v.Prelude.{
  ℕ, ◌≡◌, inl, inr, true, Option, none, some, List, [], ◌∷◌, Bool-cases, any, ◌==◌, ℕ-Eq, String-Eq,
  ×-Eq, list_eq_iff, List-Eq,
}
use glc_v.Text.{Text}
use glc_v.Embedders.{
  Embedder, EmbedWorld, EmbedRefusal, embed_gc, embed_refusal, EmbedReply, EmbedOutcome, Ran,
  is_candidate, take_reply, try_embedder, run_ring, embed_with_failover, embedded, embed_error,
  found, embedder_error, passed_error,
}

-- What was found, if anything, comes from the embedder of the name.
abbrev pub IsFrom : {V : Type 0} → Text → EmbedOutcome V → Type 0
IsFrom name (found n v) = n ≡ name
IsFrom name (embedder_error status) = Unit
IsFrom name (passed_error why) = Unit

module _ {S V : Type 0} (w : EmbedWorld S V) where
  take_reply-IsFrom :
      (name : Text) (e : Embedder) (es : List Embedder) (rest : S → Ran S V) (r : EmbedReply V)
      (s : S)
      → e.name ≡ name
      → IsFrom name (take_reply w true e es rest r s).0
  take_reply-IsFrom name e es rest (embedded v) s same = same
  take_reply-IsFrom name e es rest (embed_error why) s same = tt

  try_embedder-IsFrom :
      (name : Text) (e : Embedder) (es : List Embedder) (rest : S → Ran S V)
      (o : Option EmbedRefusal) (s : S)
      → e.name ≡ name
      → IsFrom name (try_embedder w true e es rest o s).0
  try_embedder-IsFrom name e es rest (some why) s same = tt
  try_embedder-IsFrom name e es rest none s same =
      let (reply, t) = w.ask e.name s in take_reply-IsFrom name e es rest reply t same

  run_ring-IsFrom :
      (name : Text) (es : List Embedder) (s : S) → IsFrom name (run_ring w (some name) es s).0
  unfolding run_ring
  run_ring-IsFrom name [] s = tt
  run_ring-IsFrom name (e ∷ es) s = elim (Bool-cases (e.name == name)) [
    | inr n ↦ rw (n, run_ring) (run_ring-IsFrom name es s)
    | inl y ↦
        let collected = record e { state = embed_gc (w.now s) e.state } in
        rw (y, run_ring)
          (try_embedder-IsFrom name collected es (run_ring w (some name) es)
            (embed_refusal (w.now s) collected.state) s ((list_eq_iff e.name name).0 y))
  ]

  -- An embedding for a caller who pins an embedder comes from that embedder, or not at all: whatever
  -- states the embedders are in, the ring does not fall over to another one.
  pub embed_with_failover-IsFrom :
      (c : ℕ) (cs : Text) (es : List Embedder) (s : S)
      → IsFrom (c ∷ cs) (embed_with_failover w (some (c ∷ cs)) es s).0
  unfolding embed_with_failover
  embed_with_failover-IsFrom c cs es s =
      elim (Bool-cases (any (is_candidate w (some (c ∷ cs))) es)) [
        | inl y ↦ rw y (run_ring-IsFrom (c ∷ cs) es s)
        | inr n ↦ rw n tt
      ]
