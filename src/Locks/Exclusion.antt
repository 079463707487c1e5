-- ===== src/Locks/Exclusion.antt =====
-- While an owner's claim lasts, nobody else gets the resource.
use auto_bot_lbc_pj.Prelude.{
  ℕ, ◌+◌, ◌≤◌, String, Bool, true, false, ◌&&◌, List, [], ◌∷◌, some, ◌≡◌, refl, arith, any, All,
  All-update, update, select, length, str_eq, Bool-cases, inl, inr,
}
use auto_bot_lbc_pj.Locks.{
  Kind, Resource, is_resource, held_by, may_claim, claims, lock, claim_resource, unlock,
  release_resource,
}

pub data Call : Type 0 where
  claim : Kind → ℕ → (owner : String) → (ttl_seconds now : ℕ) → Call
  release : Kind → ℕ → (owner : String) → Call

unfoldable pub answer_call : Call → List Resource → List Resource
answer_call (claim kind id owner ttl now) rows = (claim_resource kind id owner ttl now rows).1
answer_call (release kind id owner) rows = release_resource kind id owner rows

unfoldable pub answer_all : List Call → List Resource → List Resource
answer_all [] rows = rows
answer_all (c ∷ cs) rows = answer_all cs (answer_call c rows)

-- A call of somebody else, no later than `until`.
abbrev pub Foreign : String → ℕ → Call → Type 0
Foreign owner until (claim kind id other ttl now) = (str_eq owner other ≡ false) × (now ≤ until)
Foreign owner until (release kind id other) = str_eq owner other ≡ false

-- The resource, if it is the row, is locked by the owner until that time.
abbrev pub HeldBy : Kind → ℕ → String → ℕ → Resource → Type 0
HeldBy kind id owner until r =
    is_resource kind id r ≡ true → (r.locked_until ≡ some until) × (r.locked_by ≡ some owner)

may_claim_held :
    (owner other : String) (until now : ℕ) (r : Resource)
    → str_eq owner other ≡ false
    → now ≤ until
    → r.locked_until ≡ some until
    → r.locked_by ≡ some owner
    → may_claim now other r ≡ false
may_claim_held owner other until now r differ soon locked by_owner =
    rw (locked, by_owner, differ) (ground (arith, soon))

held_by_other :
    (owner other : String) (r : Resource)
    → str_eq owner other ≡ false
    → r.locked_by ≡ some owner
    → held_by other r ≡ false
held_by_other owner other r differ by_owner = rw by_owner differ

-- Whoever satisfies a test that the held row fails leaves it as it is.
HeldBy-keep :
    (kind : Kind) (id : ℕ) (owner : String) (until : ℕ) (p q : Resource → Bool)
    (f : Resource → Resource) (r : Resource)
    → is_resource kind id (f r) ≡ is_resource kind id r
    → (r.locked_until ≡ some until → r.locked_by ≡ some owner → q r ≡ false)
    → (p r && q r) ≡ true
    → HeldBy kind id owner until r
    → HeldBy kind id owner until (f r)
HeldBy-keep kind id owner until p q f r keep fails passes held it =
    let both = held (rw keep at it) in let no = fails both.0 both.1 in ground (arith, no, passes)

answer_call-HeldBy :
    (kind : Kind) (id : ℕ) (owner : String) (until : ℕ) (c : Call) (rows : List Resource)
    → Foreign owner until c
    → All (HeldBy kind id owner until) rows
    → All (HeldBy kind id owner until) (answer_call c rows)
unfolding answer_call claim_resource release_resource
answer_call-HeldBy kind id owner until (claim k i other ttl now) rows foreign h =
    All-update (HeldBy kind id owner until) (claims k i other now) (lock (now + ttl) other) rows
      (λ r.
        HeldBy-keep kind id owner until (is_resource k i) (may_claim now other)
          (lock (now + ttl) other) r refl
          (may_claim_held owner other until now r foreign.0 foreign.1))
      h
answer_call-HeldBy kind id owner until (release k i other) rows foreign h =
    All-update (HeldBy kind id owner until) (λ r. is_resource k i r && held_by other r) unlock rows
      (λ r.
        HeldBy-keep kind id owner until (is_resource k i) (held_by other) unlock r refl
          (λ _ by_owner. held_by_other owner other r foreign by_owner))
      h

answer_all-HeldBy :
    (kind : Kind) (id : ℕ) (owner : String) (until : ℕ) (cs : List Call) (rows : List Resource)
    → All (Foreign owner until) cs
    → All (HeldBy kind id owner until) rows
    → All (HeldBy kind id owner until) (answer_all cs rows)
unfolding answer_all
answer_all-HeldBy kind id owner until [] rows foreign h = h
answer_all-HeldBy kind id owner until (c ∷ cs) rows foreign h =
    answer_all-HeldBy kind id owner until cs (answer_call c rows) foreign.1
      (answer_call-HeldBy kind id owner until c rows foreign.0 h)

none_claims :
    (kind : Kind) (id : ℕ) (owner other : String) (until now : ℕ) (rows : List Resource)
    → str_eq owner other ≡ false
    → now ≤ until
    → All (HeldBy kind id owner until) rows
    → any (claims kind id other now) rows ≡ false
none_claims kind id owner other until now [] differ soon h = refl
none_claims kind id owner other until now (r ∷ rest) differ soon h =
    let later = none_claims kind id owner other until now rest differ soon h.1 in
    elim (Bool-cases (is_resource kind id r)) [
      | inr elsewhere ↦ rw (elsewhere, later) refl
      | inl it ↦
          let (locked, by_owner) = h.0 it in
          rw (it, may_claim_held owner other until now r differ soon locked by_owner, later) refl
    ]

module _ (kind : Kind) (id : ℕ) (owner : String) (until now : ℕ) where
  abbrev locked_rows : List Resource → List Resource
  locked_rows rows = update (claims kind id owner now) (lock until owner) rows

  HeldBy-elsewhere : (r : Resource) → is_resource kind id r ≡ false → HeldBy kind id owner until r
  HeldBy-elsewhere r elsewhere it = cc

  -- Without a row of the resource a claim changes nothing.
  absent_rows :
      (rows : List Resource)
      → length (select (is_resource kind id) rows) ≡ 0
      → (any (claims kind id owner now) rows ≡ false)
        × All (HeldBy kind id owner until) (locked_rows rows)
  absent_rows [] nothing = (refl, tt)
  absent_rows (r ∷ rest) nothing = elim (Bool-cases (is_resource kind id r)) [
    | inl it ↦ let no : ⊥ = omega (arith, rw it at nothing) in elim no [ ]
    | inr elsewhere ↦
        let rest_absent = absent_rows rest (rw elsewhere at nothing) in
        rw elsewhere (rest_absent.0, (HeldBy-elsewhere r elsewhere, rest_absent.1))
  ]

  single_row :
      (rows : List Resource)
      → length (select (is_resource kind id) rows) ≤ 1
      → any (claims kind id owner now) rows ≡ true
      → All (HeldBy kind id owner until) (locked_rows rows)
  single_row [] one won = tt
  single_row (r ∷ rest) one won = elim (Bool-cases (is_resource kind id r)) [
    | inr elsewhere ↦
        rw elsewhere (
          HeldBy-elsewhere r elsewhere,
          single_row rest (rw elsewhere at one) (rw elsewhere at won),
        )
    | inl it ↦
        let none_left = absent_rows rest (omega (arith, rw it at one)) in
        elim (Bool-cases (may_claim now owner r)) [
          | inl free ↦ rw (it, free) ((λ _. (refl, refl)), none_left.1)
          | inr busy ↦ let no = rw (it, busy, none_left.0) at won in cc
        ]
  ]

-- A claim that succeeds on the one row of a resource locks it for its owner.
claim_resource-HeldBy :
    (kind : Kind) (id : ℕ) (owner : String) (ttl now : ℕ) (rows : List Resource)
    → length (select (is_resource kind id) rows) ≤ 1
    → (claim_resource kind id owner ttl now rows).0 ≡ true
    → All (HeldBy kind id owner (now + ttl)) (claim_resource kind id owner ttl now rows).1
unfolding claim_resource
claim_resource-HeldBy kind id owner ttl now rows one won =
    single_row kind id owner (now + ttl) now rows one won

-- When an owner's claim on a resource that has one row succeeds, every claim of somebody else fails until
-- the claim runs out, whatever others claim and release in between.
pub claim_resource-exclusive :
    (kind : Kind) (id : ℕ) (owner other : String) (ttl now later other_ttl : ℕ) (cs : List Call)
    (rows : List Resource)
    → length (select (is_resource kind id) rows) ≤ 1
    → (claim_resource kind id owner ttl now rows).0 ≡ true
    → All (Foreign owner (now + ttl)) cs
    → str_eq owner other ≡ false
    → later ≤ now + ttl
    → (claim_resource kind id other other_ttl later
        (answer_all cs (claim_resource kind id owner ttl now rows).1)).0
      ≡ false
unfolding claim_resource
claim_resource-exclusive kind id owner other ttl now later other_ttl cs rows one won foreign differ
      soon =
    none_claims kind id owner other (now + ttl) later _ differ soon (
      answer_all-HeldBy kind id owner (now + ttl) cs _ foreign
        (claim_resource-HeldBy kind id owner ttl now rows one won))
