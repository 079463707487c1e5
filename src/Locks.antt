-- ===== src/Locks.antt =====
-- app/services/resource_lock.py: accounts, SIMs and proxies of a sector, each claimed by one owner at a time.
mod Exclusion
mod Samples
use auto_bot_lbc_pj.Prelude.{
  ℕ, ◌+◌, String, Bool, true, false, ◌&&◌, ◌||◌, List, [], ◌∷◌, Option, none, some, ltb, ◌==◌, any,
  update, str_eq,
}

-- `_RESOURCE_TABLES`: the three tables are one list, where a row tells its kind.
pub data Kind : Type 0 where
  account sim proxy : Kind

pub record Resource : Type 0 where
  pub kind : Kind
  pub id : ℕ
  pub locked_until : Option ℕ
  pub locked_by : Option String

abbrev pub same_kind : Kind → Kind → Bool
same_kind account account = true
same_kind sim sim = true
same_kind proxy proxy = true
same_kind _ _ = false

abbrev pub is_resource : Kind → ℕ → Resource → Bool
is_resource kind id r = same_kind r.kind kind && r.id == id

abbrev pub held_by : String → Resource → Bool
held_by owner r = elim r.locked_by [ none ↦ false | some o ↦ str_eq o owner ]

-- A comparison with NULL does not hold.
abbrev pub may_claim : ℕ → String → Resource → Bool
may_claim now owner r = elim r.locked_until [
  | none ↦ true
  | some until ↦ ltb until now || held_by owner r
]

abbrev pub claims : Kind → ℕ → String → ℕ → Resource → Bool
claims kind id owner now r = is_resource kind id r && may_claim now owner r

abbrev pub lock : ℕ → String → Resource → Resource
lock until owner r = record r { locked_until = some until; locked_by = some owner }

-- The answer, and the tables after it: one UPDATE ... RETURNING.
unfoldable pub claim_resource :
    Kind → ℕ → String → (ttl_seconds now : ℕ) → List Resource → Bool × List Resource
claim_resource kind id owner ttl_seconds now rows = (
  any (claims kind id owner now) rows,
  update (claims kind id owner now) (lock (now + ttl_seconds) owner) rows,
)

abbrev pub unlock : Resource → Resource
unlock r = record r { locked_until = none; locked_by = none }

unfoldable pub release_resource : Kind → ℕ → String → List Resource → List Resource
release_resource kind id owner rows =
    update (λ r. is_resource kind id r && held_by owner r) unlock rows
