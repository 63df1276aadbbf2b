-- ===== src/Tiers/Placing.antt =====
-- The table of ladders: each rung of a ladder is placed on that ladder, once and for all.
use glc_v.Prelude.{
  ◌≡◌, sym, ap, ◌∙◌, some, List, [], ◌∷◌, arith, All, All-map, ℕ-Eq, String-Eq, ×-Eq, list_eq_iff,
  List-Eq, ok-injective, bind-ok, ok,
}
use glc_v.Prelude.Dict.{Dict, lookup, insert, lookup-insert, lookup-insert_self}
use glc_v.Text.{Text}
use glc_v.Tiers.{place_rungs, place_all}

-- A rung is placed before those behind it.
place_rungs_step :
    (name x : Text) (xs : List Text) (placed out : Dict Text Text)
    → place_rungs name (x ∷ xs) placed ≡ ok out
    → place_rungs name xs (insert x name placed) ≡ ok out
unfolding place_rungs
place_rungs_step name x xs placed out e = ground (arith, e)

place_rungs_keeps :
    (name : Text) (ts : List Text) (placed out : Dict Text Text) (t k : Text)
    → place_rungs name ts placed ≡ ok out
    → lookup t placed ≡ some k
    → lookup t out ≡ some k
unfolding place_rungs
place_rungs_keeps name [] placed out t k e h = ap (lookup t) (ok-injective (sym e)) ∙ h
place_rungs_keeps name (x ∷ xs) placed out t k e h =
    place_rungs_keeps name xs (insert x name placed) out t k
      (place_rungs_step name x xs placed out e)
      (ground (arith, e, h, lookup-insert x t name placed, list_eq_iff x t, list_eq_iff k name))

-- Every rung is placed under the name.
abbrev pub IsPlaced : Dict Text Text → Text × List Text → Type 0
IsPlaced placed (name, rungs) = All (λ t. lookup t placed ≡ some name) rungs

place_rungs-IsPlaced :
    (name : Text) (ts : List Text) (placed out : Dict Text Text)
    → place_rungs name ts placed ≡ ok out
    → IsPlaced out (name, ts)
place_rungs-IsPlaced name [] placed out e = tt
place_rungs-IsPlaced name (x ∷ xs) placed out e =
    let step = place_rungs_step name x xs placed out e in
    (
      place_rungs_keeps name xs (insert x name placed) out x name step
          (lookup-insert_self x name placed),
      place_rungs-IsPlaced name xs (insert x name placed) out step,
    )

place_all_keeps :
    (ladders : Dict Text (List Text)) (placed out : Dict Text Text) (t k : Text)
    → place_all ladders placed ≡ ok out
    → lookup t placed ≡ some k
    → lookup t out ≡ some k
unfolding place_all
place_all_keeps [] placed out t k e h = ap (lookup t) (ok-injective (sym e)) ∙ h
place_all_keeps ((name, rungs) ∷ rest) placed out t k e h =
    let (more, here, later) = bind-ok (place_rungs name rungs placed) (place_all rest) out e in
    place_all_keeps rest more out t k later (place_rungs_keeps name rungs placed more t k here h)

pub place_all-IsPlaced :
    (ladders : Dict Text (List Text)) (placed out : Dict Text Text)
    → place_all ladders placed ≡ ok out
    → All (IsPlaced out) ladders
unfolding place_all
place_all-IsPlaced [] placed out e = tt
place_all-IsPlaced ((name, rungs) ∷ rest) placed out e =
    let (more, here, later) = bind-ok (place_rungs name rungs placed) (place_all rest) out e in
    (
      All-map (λ t. lookup t more ≡ some name) (λ t. lookup t out ≡ some name) rungs
          (λ t. place_all_keeps rest more out t name later)
          (place_rungs-IsPlaced name rungs placed more here),
      place_all-IsPlaced rest more out later,
    )
