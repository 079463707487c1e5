-- ===== src/WarmUp.antt =====
-- app/services/warm_up.py: when a new account becomes active, and the health of accounts.
mod Bounds
mod Health
mod Samples
use auto_bot_lbc_pj.Prelude.{
  ℕ, suc, ◌+◌, ◌-◌, ◌*◌, min, max, Bool, true, false, ◌&&◌, ◌||◌, List, [], ◌∷◌, Option, none, some,
  ltb, leb, ◌==◌, if◌then◌else◌, find, select, modify,
}
use auto_bot_lbc_pj.Models.{AccountStatus, DatadomeTrustLevel}
use auto_bot_lbc_pj.Tables.{PlatformAccount, Db}

abbrev pub quota_min : ℕ
quota_min = 5

abbrev pub quota_max : ℕ
quota_max = 30

abbrev quota_step : ℕ
quota_step = 5

abbrev trust_ge_medium : DatadomeTrustLevel → Bool
trust_ge_medium DatadomeTrustLevel.low = false
trust_ge_medium _ = true

abbrev pub is_deleted : PlatformAccount → Bool
is_deleted a = elim a.deleted_at [ none ↦ false | some _ ↦ true ]

abbrev pub is_warming : PlatformAccount → Bool
is_warming a =
    if is_deleted a then false else elim a.status [ AccountStatus.en_chauffe ↦ true | _ ↦ false ]

-- Ages in seconds: `hours * 3600`. An account dated in the future has age 0.
abbrev pub is_older : ℕ → ℕ → PlatformAccount → Bool
is_older hours now a = leb (hours * 3600) (now - a.date_creation)

abbrev pub can_promote : PlatformAccount → Bool
can_promote a =
    trust_ge_medium a.datadome_trust_level && (leb 70 a.score_sante && leb a.erreurs_24h 3)

pub data Decision : Type 0 where
  keep : Decision
  promote slow : ℕ → Decision

unfoldable pub decide : ℕ → PlatformAccount → Decision
decide now a =
    if is_older 48 now a
    then (if can_promote a
        then promote (min (a.quota_actuel + quota_step) quota_max)
        else if is_older 72 now a
        then slow (max (a.quota_actuel - quota_step) quota_min)
        else keep)
    else keep

abbrev pub move_to : AccountStatus → ℕ → ℕ → PlatformAccount → PlatformAccount
move_to status quota now a = record a {
  status = status;
  quota_actuel = quota;
  derniere_action = some now;
}

abbrev pub change_account : ℕ → (PlatformAccount → PlatformAccount) → Db → Db
change_account id f db = record db { accounts = modify (λ a. a.id) id f db.accounts }

abbrev pub apply_decision : ℕ → ℕ → Decision → Db → Db
apply_decision now id keep db = db
apply_decision now id (promote quota) db =
    change_account id (move_to AccountStatus.actif quota now) db
apply_decision now id (slow quota) db =
    change_account id (move_to AccountStatus.ralenti quota now) db

pub record Tally : Type 0 where
  pub promoted : ℕ
  pub kept : ℕ
  pub slowed : ℕ

abbrev pub count : Decision → Tally → Tally
count keep t = record t { kept = suc t.kept }
count (promote _) t = record t { promoted = suc t.promoted }
count (slow _) t = record t { slowed = suc t.slowed }

-- The accounts were read before the loop; each one is written in a session of its own.
unfoldable pub evaluate_all : ℕ → List PlatformAccount → Tally → Db → Tally × Db
evaluate_all now [] t db = (t, db)
evaluate_all now (a ∷ rest) t db =
    evaluate_all now rest (count (decide now a) t) (apply_decision now a.id (decide now a) db)

abbrev pub warming : Db → List PlatformAccount
warming db = select is_warming db.accounts

unfoldable pub evaluate_warmup_batch : ℕ → Db → Tally × Db
evaluate_warmup_batch now db =
    evaluate_all now (warming db) (record { promoted = 0; kept = 0; slowed = 0 }) db

abbrev pub degraded : ℕ → ℕ → AccountStatus → AccountStatus
degraded errors score status =
    if leb 10 errors || leb score 0
    then AccountStatus.bloque
    else if leb 5 errors || leb score 30
    then AccountStatus.ralenti
    else status

-- The values that the update writes, from the row that was read.
unfoldable pub health_values : Bool → PlatformAccount → (ℕ × ℕ) × AccountStatus
health_values true a = ((min (a.score_sante + 2) 100, a.erreurs_24h), a.status)
health_values false a =
    let score = a.score_sante - 10 in
    let errors = a.erreurs_24h + 1 in ((score, errors), degraded errors score a.status)

abbrev pub set_health : (ℕ × ℕ) × AccountStatus → ℕ → PlatformAccount → PlatformAccount
set_health values now a = record a {
  score_sante = values.0.0;
  erreurs_24h = values.0.1;
  status = values.1;
  derniere_action = some now;
}

abbrev pub is_live_account : ℕ → PlatformAccount → Bool
is_live_account id a = a.id == id && (if is_deleted a then false else true)

unfoldable pub update_account_health : ℕ → ℕ → Bool → Db → Db
update_account_health now id success db = elim (find (is_live_account id) db.accounts) [
  | none ↦ db
  | some a ↦ change_account id (set_health (health_values success a) now) db
]
