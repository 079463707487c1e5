-- ===== src/WarmUp/Health.antt =====
-- What failed actions do to an account.
use auto_bot_lbc_pj.Prelude.{
  ℕ, suc, ◌+◌, ◌-◌, ◌≤◌, ◌<◌, Bool, false, length, List, [], ◌∷◌, none, some, ◌≡◌, refl, inl, inr,
  arith, find, get, get-modify, ==_refl, Bool-cases, ◌==◌, ◌∙◌, ap,
}
use auto_bot_lbc_pj.Models.{AccountStatus}
use auto_bot_lbc_pj.Tables.{PlatformAccount, Db}
use auto_bot_lbc_pj.WarmUp.{
  health_values, set_health, is_live_account, update_account_health, degraded, is_deleted,
}

-- Failures, each at its time.
unfoldable pub fail_all : ℕ → List ℕ → Db → Db
fail_all id [] db = db
fail_all id (now ∷ rest) db = fail_all id rest (update_account_health now id false db)

-- The account stands in the table, not deleted.
abbrev pub Stands : ℕ → Db → PlatformAccount → Type 0
Stands id db a = (get (λ b. b.id) id db.accounts ≡ some a) × (is_deleted a ≡ false)

find_live :
    (id : ℕ) (rows : List PlatformAccount) (a : PlatformAccount)
    → get (λ b. b.id) id rows ≡ some a
    → is_deleted a ≡ false
    → find (is_live_account id) rows ≡ some a
find_live id [] a h live = cc
find_live id (b ∷ rest) a h live = elim (Bool-cases (b.id == id)) [
  | inl same ↦
      let is = ap (λ o. elim o [ none ↦ b | some c ↦ c ]) (rw same at h) in
      let alive = ap is_deleted is ∙ live in rw (same, alive) (rw same at h)
  | inr other ↦ rw other (find_live id rest a (rw other at h) live)
]

-- A failure writes the failed values into the account.
update_account_health-Stands :
    (now id : ℕ) (success : Bool) (db : Db) (a : PlatformAccount)
    → Stands id db a
    → Stands id
        (update_account_health now id success db)
        (set_health (health_values success a) now a)
unfolding update_account_health
update_account_health-Stands now id success db a (there, live) = (
  rw
      (
        find_live id db.accounts a there live,
        update_account_health,
        get-modify (λ b. b.id) id id (set_health (health_values success a) now) db.accounts
            (λ b. refl),
        ==_refl id,
        there,
      )
      refl,
  live,
)

degraded_blocked :
    (errors score : ℕ) (status : AccountStatus)
    → 10 ≤ errors
    → degraded errors score status ≡ AccountStatus.bloque
degraded_blocked errors score status h = ground arith

-- A failed action on a blocked account that has from four to eight errors and a score above ten sets it to
-- RALENTI, so it is no longer blocked.
pub update_account_health-unblocks :
    (now id : ℕ) (db : Db) (a : PlatformAccount)
    → Stands id db a
    → a.status ≡ AccountStatus.bloque
    → 4 ≤ a.erreurs_24h
    → a.erreurs_24h ≤ 8
    → 10 < a.score_sante
    → (b : PlatformAccount) × Stands id (update_account_health now id false db) b
      × (b.status ≡ AccountStatus.ralenti)
unfolding health_values
update_account_health-unblocks now id db a stands blocked some_errors few healthy = (
  set_health (health_values false a) now a,
  update_account_health-Stands now id false db a stands,
  ground (arith, blocked),
)

-- An account with at least ten errors after some failed actions is blocked, whatever its status and its
-- score were; the errors are those from before and one for each failure.
pub fail_all_blocks :
    (now id : ℕ) (times : List ℕ) (db : Db) (a : PlatformAccount)
    → Stands id db a
    → 10 ≤ a.erreurs_24h + suc (length times)
    → (b : PlatformAccount) × Stands id (fail_all id (now ∷ times) db) b
      × (b.status ≡ AccountStatus.bloque)
      × (b.erreurs_24h ≡ a.erreurs_24h + suc (length times))
unfolding fail_all health_values
fail_all_blocks now id [] db a stands enough = (
  set_health (health_values false a) now a,
  update_account_health-Stands now id false db a stands,
  degraded_blocked (a.erreurs_24h + 1) (a.score_sante - 10) a.status (omega (arith, enough)),
  omega arith,
)
fail_all_blocks now id (next_time ∷ times) db a stands enough =
    let failed = set_health (health_values false a) now a in
    let (b, still, blocked, errors) =
      fail_all_blocks next_time id times (update_account_health now id false db) failed
        (update_account_health-Stands now id false db a stands) (omega (arith, enough)) in
    (b, still, blocked, omega (arith, errors))
