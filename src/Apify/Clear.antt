-- ===== src/Apify/Clear.antt =====
-- app/services/apify_normalizer.py: which phone a lead gets, from the phones that its payload holds.
use text.Mathlib.Text.{◌==◌ as str_eq}
use mathlib.Core.List.{Memᴰ}
use mathlib.Core.List.Memᴰ.{head, tail}
use auto_bot_lbc_pj.Prelude.{
  ◌||◌, ◌+◌, ◌-◌, ◌≤◌, ◌<◌, String, Bool, true, false, List, [], ◌∷◌, none, some, ltb, ltb→lt,
  if◌then◌else◌, All, All-map, ◌≡◌, refl, sym, subst, arith, inl, inr, ◌⊎◌, ◌≢◌, Bool-cases,
  str_eq_iff, str_eq_refl,
}
use auto_bot_lbc_pj.Apify.Order.{
  Phone, AtMost, IsSorted, by_score-Mem, All-by_score, by_score-IsSorted, by_score-nil,
}
use auto_bot_lbc_pj.Apify.Payload.{Flattened}
use auto_bot_lbc_pj.Apify.Candidates.{TextLibrary, Collected}
use auto_bot_lbc_pj.Apify.Normalize.{
  LeadStatus, actionable, non_actionable, rejected, exception, NormalizedApifyLead, by_score,
  unique_phones, ambiguous, has_phone_shape, ambiguous_lead, selected_lead, choose_lead, lead_of,
  lead_status,
}

-- What comes first behind a phone, among the others.
unique_phones-none :
    (v : String) (l : List Phone) → unique_phones (v ∷ []) l ≡ [] → All (λ e. e.1 ≡ v) l
unfolding unique_phones
unique_phones-none v [] h = tt
unique_phones-none v (e ∷ rest) h = elim (Bool-cases (str_eq v e.1)) [
  | inl same ↦ (
    sym ((str_eq_iff v e.1).0 same),
    unique_phones-none v rest (rw (same, ◌||◌, if◌then◌else◌) at h),
  )
  | inr other ↦ let no = rw (other, ◌||◌, if◌then◌else◌) at h in cc
]

-- The runner-up of a sorted list is another phone, and no other phone beats it.
abbrev RunnerUp : String → List Phone → Phone → Type 0
RunnerUp v l d = Memᴰ d l × (d.1 ≢ v) × All (λ (e : Phone). (e.1 ≡ v) ⊎ (e.2 ≤ d.2)) l

unique_phones-RunnerUp :
    (v : String) (l : List Phone) (d : Phone) (more : List Phone)
    → IsSorted l
    → unique_phones (v ∷ []) l ≡ d ∷ more
    → RunnerUp v l d
unfolding unique_phones
unique_phones-RunnerUp v [] d more sorted h = cc
unique_phones-RunnerUp v (e ∷ rest) d more sorted h = elim (Bool-cases (str_eq v e.1)) [
  | inl same ↦
      let after =
        unique_phones-RunnerUp v rest d more sorted.1 (rw (same, ◌||◌, if◌then◌else◌) at h) in
      (tail after.0, after.1, (inl (sym ((str_eq_iff v e.1).0 same)), after.2))
  | inr other ↦
      let here : e ≡ d = let both = rw (other, ◌||◌, if◌then◌else◌) at h in cc in
      subst (RunnerUp v (e ∷ rest)) here (
        head refl,
        (λ is.
            let yes' = str_eq_refl v in let no' = subst (λ w. str_eq v w ≡ false) is other in cc),
        (
          inr (omega arith),
          All-map (AtMost e.2) (λ (x : Phone). (x.1 ≡ v) ⊎ (x.2 ≤ e.2)) rest (λ x b. inr b)
              sorted.0,
        ),
      )
]

-- A phone of the payload that no other phone comes near, and two phones that are too close.
abbrev pub Chosen : List Phone → Phone → Type 0
Chosen phones c = Memᴰ c phones × All (λ (d : Phone). (d.1 ≡ c.1) ⊎ (d.2 + 10 ≤ c.2)) phones

abbrev pub Doubtful : List Phone → Phone → Phone → Type 0
Doubtful phones c d =
    Memᴰ c phones × Memᴰ d phones × (d.1 ≢ c.1) × (c.2 < d.2 + 10) × All (AtMost c.2) phones

-- `shape`: some text has the shape of a phone.
abbrev pub Verdict : (shape : Bool) → List Phone → NormalizedApifyLead → LeadStatus → Type 0
Verdict shape phones lead actionable =
    (c : Phone) × Chosen phones c × (lead.phone_e164 ≡ some c.1) × (lead.confidence ≡ c.2)
Verdict shape phones lead exception =
    (c : Phone) × (d : Phone) × Doubtful phones c d × (lead.phone_e164 ≡ none)
Verdict shape phones lead rejected = (phones ≡ []) × (lead.phone_e164 ≡ none) × (shape ≡ true)
Verdict shape phones lead non_actionable =
    (phones ≡ []) × (lead.phone_e164 ≡ none) × (shape ≡ false)

widen :
    (c d e : Phone) → d.2 + 10 ≤ c.2 → (e.1 ≡ c.1) ⊎ (e.2 ≤ d.2) → (e.1 ≡ c.1) ⊎ (e.2 + 10 ≤ c.2)
widen c d e gap (inl same) = inl same
widen c d e gap (inr below) = inr (omega arith)

module _ (lib : TextLibrary) (flattened : Flattened) (found : Collected) (phones : List Phone) where
  -- The verdict on what was chosen from the unique phones.
  Judged : List Phone → Type 0
  Judged unique =
      let lead = choose_lead lib flattened found unique in
      Verdict (has_phone_shape lib flattened) phones lead lead.status

  Judged-none : phones ≡ [] → Judged []
  unfolding Judged choose_lead selected_lead lead_status ambiguous
  Judged-none empty = elim (Bool-cases (has_phone_shape lib flattened)) [
    | inl shape ↦ rw shape (empty, refl, refl)
    | inr shape ↦ rw shape (empty, refl, refl)
  ]

  Judged-one : (c : Phone) → Memᴰ c phones → All (λ (e : Phone). e.1 ≡ c.1) phones → Judged (c ∷ [])
  unfolding Judged choose_lead selected_lead lead_status ambiguous
  Judged-one c m same = (
    c,
    (
      m,
      All-map (λ (e : Phone). e.1 ≡ c.1) (λ (e : Phone). (e.1 ≡ c.1) ⊎ (e.2 + 10 ≤ c.2)) phones
          (λ e s. inl s) same,
    ),
    refl,
    refl,
  )

  Judged-more :
      (c d : Phone) (more : List Phone)
      → Memᴰ c phones
      → All (AtMost c.2) phones
      → RunnerUp c.1 phones d
      → Judged (c ∷ d ∷ more)
  unfolding Judged choose_lead selected_lead lead_status ambiguous_lead ambiguous
  Judged-more c d more m top up = elim (Bool-cases (ltb (c.2 - d.2) 10)) [
    | inl close ↦
        rw (close, if◌then◌else◌)
          (c, d, (m, up.0, up.1, omega (arith, ltb→lt (c.2 - d.2) 10 close), top), refl)
    | inr far ↦
        let gap : d.2 + 10 ≤ c.2 = ground (arith, far) in
        rw (far, if◌then◌else◌)
          (
            c,
            (
              m,
              All-map (λ (e : Phone). (e.1 ≡ c.1) ⊎ (e.2 ≤ d.2))
                  (λ (e : Phone). (e.1 ≡ c.1) ⊎ (e.2 + 10 ≤ c.2)) phones (λ e. widen c d e gap)
                  up.2,
            ),
            refl,
            refl,
          )
  ]

  Judged-unique :
      (c : Phone) (rest u : List Phone)
      → unique_phones (c.1 ∷ []) rest ≡ u
      → IsSorted (c ∷ rest)
      → ((x : Phone) → Memᴰ x (c ∷ rest) → Memᴰ x phones)
      → ((P : Phone → Type 0) → All P (c ∷ rest) → All P phones)
      → Judged (c ∷ u)
  Judged-unique c rest [] e sorted into onto =
      Judged-one c (into c (head refl))
        (onto (λ (x : Phone). x.1 ≡ c.1) (refl, unique_phones-none c.1 rest e))
  Judged-unique c rest (d ∷ more) e sorted into onto =
      let up = unique_phones-RunnerUp c.1 rest d more sorted.1 e in
      Judged-more c d more (into c (head refl)) (onto (AtMost c.2) (omega arith, sorted.0))
        (into d (tail up.0), up.1, onto (λ (x : Phone). (x.1 ≡ c.1) ⊎ (x.2 ≤ d.2)) (inl refl, up.2))

  Judged-sorted : (s : List Phone) → by_score phones ≡ s → Judged (unique_phones [] s)
  unfolding unique_phones
  Judged-sorted [] e = Judged-none (by_score-nil phones e)
  Judged-sorted (c ∷ rest) e =
      Judged-unique c rest (unique_phones (c.1 ∷ []) rest) refl
        (subst IsSorted e (by_score-IsSorted phones))
        (λ x m. by_score-Mem x phones (subst (Memᴰ x) (sym e) m))
        (λ P h. All-by_score P phones (subst (All P) (sym e) h))

pub lead_of-Verdict :
    (lib : TextLibrary) (flattened : Flattened) (found : Collected)
    → let lead = lead_of lib flattened found in
      Verdict (has_phone_shape lib flattened) found.phones lead lead.status
unfolding lead_of Judged
lead_of-Verdict lib flattened found =
    Judged-sorted lib flattened found found.phones (by_score found.phones) refl
