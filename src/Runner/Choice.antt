-- ===== src/Runner/Choice.antt =====
-- `_select_best_sim`.
use auto_bot_lbc_pj.Prelude.{
  true, ◌&&◌, List, [], ◌∷◌, Option, none, some, ltb, ◌≡◌, ◌<◌, ◌≤◌, arith, All, All-map,
  select_holds, select, inl, inr, subst, ◌⊎◌, refl, Option-cases, Bool-cases,
}
use auto_bot_lbc_pj.Runner.{Sim, Quotas, better, best, select_best_sim}

abbrev Chosen : Quotas → Sim → Option Sim → Sim → Type 0
Chosen quotas s o b =
    ((b ≡ s) ⊎ (o ≡ some b))
    × (quotas s.id ≤ quotas b.id)
    × ((c : Sim) → o ≡ some c → quotas c.id ≤ quotas b.id)

abbrev OfSome {ℓ κ} : {A : Type ℓ} → (A → Type κ) → Option A → Type κ
OfSome P none = Unit
OfSome P (some a) = P a

from_some {ℓ κ} : {A : Type ℓ} (P : A → Type κ) (a b : A) → some a ≡ some b → P a → P b
from_some P a b e p = subst (OfSome P) e p

-- The better of two is one of them and has the most.
better-Chosen :
    (quotas : Quotas) (s : Sim) (o : Option Sim) (b : Sim)
    → better quotas s o ≡ some b
    → Chosen quotas s o b
better-Chosen quotas s none b h =
    from_some (Chosen quotas s none) s b h (inl refl, omega arith, λ c e. cc)
better-Chosen quotas s (some c) b h = elim (Bool-cases (ltb (quotas s.id) (quotas c.id))) [
  | inl less ↦ from_some (Chosen quotas s (some c)) c b (rw less at h) (
    inr refl,
    ground (arith, less),
    λ d e. from_some (λ d. quotas d.id ≤ quotas c.id) c d e (omega arith),
  )
  | inr more ↦ from_some (Chosen quotas s (some c)) s b (rw more at h) (
    inl refl,
    omega arith,
    λ d e. from_some (λ d. quotas d.id ≤ quotas s.id) c d e (ground (arith, more)),
  )
]

best_holds {ℓ} :
    (P : Sim → Type ℓ) (quotas : Quotas) (sims : List Sim) (b : Sim)
    → All P sims
    → best quotas sims ≡ some b
    → P b
best_holds P quotas [] b all h = cc
best_holds P quotas (s ∷ rest) b all h = elim (better-Chosen quotas s (best quotas rest) b h).0 [
  | inl same ↦ rw same all.0
  | inr later ↦ best_holds P quotas rest b all.1 later
]

best_empty : (quotas : Quotas) (sims : List Sim) → best quotas sims ≡ none → sims ≡ []
best_empty quotas [] h = refl
best_empty quotas (s ∷ rest) h = elim (Option-cases (best quotas rest)) [
  | inl nothing ↦ ground (arith, nothing)
  | inr (c, there) ↦ ground (arith, there)
]

best_greatest :
    (quotas : Quotas) (sims : List Sim) (b : Sim)
    → best quotas sims ≡ some b
    → All (λ s. quotas s.id ≤ quotas b.id) sims
best_greatest quotas [] b h = tt
best_greatest quotas (s ∷ rest) b h =
    let chosen = better-Chosen quotas s (best quotas rest) b h in
    (
      chosen.1,
      elim (Option-cases (best quotas rest)) [
        | inl nothing ↦ rw (best_empty quotas rest nothing) tt
        | inr (c, there) ↦
            All-map (λ s. quotas s.id ≤ quotas c.id) (λ s. quotas s.id ≤ quotas b.id) rest
              (λ t le. omega (arith, le, chosen.2 c there)) (best_greatest quotas rest c there)
      ],
    )

-- The chosen SIM is active, has quota left, and no SIM that is active and has quota left has more.
pub select_best_sim_chosen :
    (sims : List Sim) (quotas : Quotas) (b : Sim)
    → select_best_sim sims quotas ≡ some b
    → (b.is_active ≡ true)
      × (0 < quotas b.id)
      × All (λ s. quotas s.id ≤ quotas b.id) (select (λ s. s.is_active && ltb 0 (quotas s.id)) sims)
unfolding select_best_sim
select_best_sim_chosen sims quotas b h =
    let eligible = select (λ s. s.is_active && ltb 0 (quotas s.id)) sims in
    let is =
      best_holds (λ s. (s.is_active && ltb 0 (quotas s.id)) ≡ true) quotas eligible b
        (select_holds (λ s. s.is_active && ltb 0 (quotas s.id)) sims) h in
    (ground (arith, is), ground (arith, is), best_greatest quotas eligible b h)
