-- ===== src/Apify/Order.antt =====
-- app/services/apify_normalizer.py: the phone candidates in the order of their scores.
use mathlib.Core.List.{Memᴰ}
use mathlib.Core.List.Memᴰ.{head, tail}
use auto_bot_lbc_pj.Prelude.{
  ℕ, ◌≤◌, String, List, [], ◌∷◌, ltb, ltb→lt, if◌then◌else◌, All, All-map, ◌≡◌, refl, sym, subst,
  arith, inl, inr, Bool-cases,
}
use auto_bot_lbc_pj.Apify.Candidates.{FieldCandidate}
use auto_bot_lbc_pj.Apify.Normalize.{insert_sorted, by_score}

abbrev pub Phone : Type 0
Phone = FieldCandidate String

abbrev pub AtMost : ℕ → Phone → Type 0
AtMost n c = c.2 ≤ n

abbrev pub IsSorted : List Phone → Type 0
IsSorted [] = Unit
IsSorted (c ∷ rest) = All (AtMost c.2) rest × IsSorted rest

behind :
    (x c d : Phone) (l l' : List Phone)
    → (Memᴰ x l' → Memᴰ x (c ∷ l))
    → Memᴰ x (d ∷ l')
    → Memᴰ x (c ∷ d ∷ l)
behind x c d l l' inner (head e) = tail (head e)
behind x c d l l' inner (tail m) = swapped (inner m)
  where
    swapped : Memᴰ x (c ∷ l) → Memᴰ x (c ∷ d ∷ l)
    swapped (head e) = head e
    swapped (tail k) = tail (tail k)

insert_sorted-Mem : (x c : Phone) (l : List Phone) → Memᴰ x (insert_sorted c l) → Memᴰ x (c ∷ l)
unfolding insert_sorted
insert_sorted-Mem x c [] m = m
insert_sorted-Mem x c (d ∷ rest) m = elim (Bool-cases (ltb c.2 d.2)) [
  | inl below ↦
      behind x c d rest (insert_sorted c rest) (insert_sorted-Mem x c rest)
        (rw (below, if◌then◌else◌) at m)
  | inr above ↦ rw (above, if◌then◌else◌) at m
]

Mem-map :
    (x c : Phone) (l l' : List Phone) → (Memᴰ x l → Memᴰ x l') → Memᴰ x (c ∷ l) → Memᴰ x (c ∷ l')
Mem-map x c l l' inner (head e) = head e
Mem-map x c l l' inner (tail m) = tail (inner m)

pub by_score-Mem : (x : Phone) (l : List Phone) → Memᴰ x (by_score l) → Memᴰ x l
unfolding by_score
by_score-Mem x [] m = m
by_score-Mem x (c ∷ rest) m =
    Mem-map x c (by_score rest) rest (by_score-Mem x rest) (insert_sorted-Mem x c (by_score rest) m)

module _ (P : Phone → Type 0) where
  All-insert_sorted : (c : Phone) (l : List Phone) → All P (insert_sorted c l) → P c × All P l
  unfolding insert_sorted
  All-insert_sorted c [] h = h
  All-insert_sorted c (d ∷ rest) h = elim (Bool-cases (ltb c.2 d.2)) [
    | inl below ↦
        let both = rw (below, if◌then◌else◌) at h in
        let inner = All-insert_sorted c rest both.1 in (inner.0, (both.0, inner.1))
    | inr above ↦ rw (above, if◌then◌else◌) at h
  ]

  insert_sorted-All : (c : Phone) (l : List Phone) → P c → All P l → All P (insert_sorted c l)
  unfolding insert_sorted
  insert_sorted-All c [] p h = (p, tt)
  insert_sorted-All c (d ∷ rest) p h = elim (Bool-cases (ltb c.2 d.2)) [
    | inl below ↦ rw (below, if◌then◌else◌) (h.0, insert_sorted-All c rest p h.1)
    | inr above ↦ rw (above, if◌then◌else◌) (p, h)
  ]

  pub All-by_score : (l : List Phone) → All P (by_score l) → All P l
  unfolding by_score
  All-by_score [] h = h
  All-by_score (c ∷ rest) h =
      let both = All-insert_sorted c (by_score rest) h in (both.0, All-by_score rest both.1)

insert_sorted-IsSorted : (c : Phone) (l : List Phone) → IsSorted l → IsSorted (insert_sorted c l)
unfolding insert_sorted
insert_sorted-IsSorted c [] h = (tt, tt)
insert_sorted-IsSorted c (d ∷ rest) h = elim (Bool-cases (ltb c.2 d.2)) [
  | inl below ↦
      rw (below, if◌then◌else◌)
        (
          insert_sorted-All (AtMost d.2) c rest (omega (arith, ltb→lt c.2 d.2 below)) h.0,
          insert_sorted-IsSorted c rest h.1,
        )
  | inr above ↦
      let le : d.2 ≤ c.2 = ground (arith, above) in
      rw (above, if◌then◌else◌)
        ((le, All-map (AtMost d.2) (AtMost c.2) rest (λ e b. omega arith) h.0), h)
]

pub by_score-IsSorted : (l : List Phone) → IsSorted (by_score l)
unfolding by_score
by_score-IsSorted [] = tt
by_score-IsSorted (c ∷ rest) = insert_sorted-IsSorted c (by_score rest) (by_score-IsSorted rest)

pub by_score-nil : (l : List Phone) → by_score l ≡ [] → l ≡ []
by_score-nil [] h = refl
by_score-nil (c ∷ rest) h =
    let none_in : All (λ (x : Phone). ⊥) (by_score (c ∷ rest)) =
      subst (λ (k : List Phone). All (λ (x : Phone). ⊥) k) (sym h) tt in
    absurd (All-by_score (λ x. ⊥) (c ∷ rest) none_in).0
