-- ===== src/Security/RateLimits/Expiry.antt =====
-- What `_gc` drops, and how it meets a second `_gc` and an append.
use glc_v.Prelude.{
  ℕ, ◌≤◌, ◌≡◌, refl, sym, ap, ◌∙◌, List, [], ◌∷◌, ◌++◌, arith, leb, length, keep, All, All-append,
  ℕ-Eq, String-Eq, ×-Eq, List-Eq, Time,
}
use glc_v.Security.RateLimits.{gc}

pub gc-gc : (l : List Time) (h k : Time) → h ≤ k → gc (gc l h) k ≡ gc l k
unfolding gc
gc-gc [] h k le = refl
gc-gc (t ∷ ts) h k le = ground (arith, gc-gc ts h k le)

pub gc-append : (l : List Time) (t h : Time) → gc (l ++ t ∷ []) h ≡ gc (gc l h ++ t ∷ []) h
unfolding gc
gc-append [] t h = refl
gc-append (x ∷ xs) t h = ground (arith, gc-append xs t h)

-- Two queues that agree from a horizon on agree after an append.
pub gc-append_congr :
    (a b : List Time) (t h : Time) → gc a h ≡ gc b h → gc (a ++ t ∷ []) h ≡ gc (b ++ t ∷ []) h
gc-append_congr a b t h e = gc-append a t h ∙ ap (λ l. gc (l ++ t ∷ []) h) e ∙ sym (gc-append b t h)

-- The number of times at or after the horizon.
abbrev pub recent : Time → List Time → ℕ
recent h ts = length (keep (λ t. leb h t) ts)

-- Each time is at least the one before it.
abbrev pub IsAscending : List Time → Type 0
IsAscending [] = Unit
IsAscending (t ∷ ts) = All (λ u. t ≤ u) ts × IsAscending ts

recent-All :
    (h : Time) (ts : List Time) (t : Time) → h ≤ t → All (λ u. t ≤ u) ts → recent h ts ≡ length ts
recent-All h [] t le a = refl
recent-All h (x ∷ xs) t le a = ground (arith, recent-All h xs t le a.1)

-- In an ascending queue `_gc` leaves exactly the recent times.
pub length-gc : (ts : List Time) (h : Time) → IsAscending ts → length (gc ts h) ≡ recent h ts
unfolding gc
length-gc [] h a = refl
length-gc (t ∷ ts) h a = ground (arith, length-gc ts h a.1, recent-All h ts t)

pub gc-recent : (ts : List Time) (h : Time) → IsAscending ts → All (λ t. h ≤ t) (gc ts h)
unfolding gc
gc-recent [] h a = tt
gc-recent (t ∷ ts) h a = ground (arith, gc-recent ts h a.1, le_all ts)
  where
    le_all : (us : List Time) → All (λ u. t ≤ u) us → h ≤ t → All (λ u. h ≤ u) us
    le_all [] b le = tt
    le_all (u ∷ us) b le = (omega arith, le_all us b.1 le)

pub append-IsAscending :
    (ts : List Time) (t : Time) → IsAscending ts → All (λ u. u ≤ t) ts → IsAscending (ts ++ t ∷ [])
append-IsAscending [] t a b = (tt, tt)
append-IsAscending (x ∷ xs) t a b =
    (All-append (λ u. x ≤ u) xs (t ∷ []) a.0 (b.0, tt), append-IsAscending xs t a.1 b.1)
