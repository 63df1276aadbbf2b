-- ===== src/Embedders/Tests.antt =====
-- Two embedders, one of which is down.
use glc_v.Prelude.{
  ℕ, ◌+◌, ◌*◌, ◌≡◌, refl, none, some, List, [], ◌∷◌, if◌then◌else◌, ◌==◌, ℕ-Eq, String-Eq, ×-Eq,
  List-Eq, second,
}
use glc_v.Glob.{codes}
use glc_v.Embedders.{
  Embedder, EmbedWorld, new_embed_state, embed_with_failover, embedded, embed_error, found,
  embedder_error, passed_error,
}

abbrev world : EmbedWorld ℕ ℕ
world = record {
  now = λ s. s * second;
  ask =
      λ name s. (if name == codes "ollama" then embed_error (codes "down") else embedded 7, s + 1);
}

abbrev both : List Embedder
both =
    record { name = codes "ollama"; state = new_embed_state 0 0 }
    ∷ record { name = codes "gemini"; state = new_embed_state 60 0 }
    ∷ []

falls_over : (embed_with_failover world none both 100).0 ≡ found (codes "gemini") 7
unfolding embed_with_failover
falls_over = refl

pinned_fails :
    (embed_with_failover world (some (codes "ollama")) both 100).0 ≡ passed_error (codes "down")
unfolding embed_with_failover
pinned_fails = refl

unknown_pin : (embed_with_failover world (some (codes "x")) both 100).0 ≡ embedder_error 400
unfolding embed_with_failover
unknown_pin = refl
