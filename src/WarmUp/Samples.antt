-- ===== src/WarmUp/Samples.antt =====
-- Two accounts, and the theorems at them.
use auto_bot_lbc_pj.Prelude.{ℕ, suc, ◌+◌, false, List, [], ◌∷◌, none, length, ◌≡◌, refl, arith, All}
use auto_bot_lbc_pj.Models.{AccountStatus, DatadomeTrustLevel}
use auto_bot_lbc_pj.Tables.{PlatformAccount, Db}
use auto_bot_lbc_pj.Samples.{empty_db}
use auto_bot_lbc_pj.WarmUp.{
  decide, evaluate_all, evaluate_warmup_batch, update_account_health, warming,
}
use auto_bot_lbc_pj.WarmUp.Bounds.{InRange, total, evaluate_warmup_batch-InRange}
use auto_bot_lbc_pj.WarmUp.Health.{Stands, fail_all, fail_all_blocks}

abbrev account : ℕ → AccountStatus → ℕ → DatadomeTrustLevel → PlatformAccount
account id status errors trust = record {
  id = id;
  status = status;
  score_sante = 80;
  erreurs_24h = errors;
  quota_actuel = 10;
  datadome_trust_level = trust;
  date_creation = 0;
  derniere_action = none;
  deleted_at = none;
  browser_use_profile_id = none;
  browser_use_session_id = none;
}

abbrev db : Db
db = record empty_db {
  accounts =
      account 1 AccountStatus.en_chauffe 0 DatadomeTrustLevel.high
      ∷ account 2 AccountStatus.en_chauffe 0 DatadomeTrustLevel.low
      ∷ account 3 AccountStatus.bloque 4 DatadomeTrustLevel.low
      ∷ [];
}

-- After three days the trusted account is promoted and the other one slowed.
one_each : (evaluate_warmup_batch 260_000 db).0 ≡ record { promoted = 1; kept = 0; slowed = 1 }
unfolding evaluate_warmup_batch evaluate_all decide
one_each = refl

in_range : All InRange db.accounts
in_range = (
  (omega arith, omega arith, omega arith),
  ((omega arith, omega arith, omega arith), ((omega arith, omega arith, omega arith), tt)),
)

evaluate_warmup_batch-InRange_example :
    All InRange (evaluate_warmup_batch 260_000 db).1.accounts
    × (total (evaluate_warmup_batch 260_000 db).0 ≡ length (warming db))
    × All InRange (update_account_health 260_000 3 false db).accounts
evaluate_warmup_batch-InRange_example = evaluate_warmup_batch-InRange 260_000 3 false db in_range

abbrev times : List ℕ
times = 2 ∷ 3 ∷ 4 ∷ 5 ∷ 6 ∷ 7 ∷ 8 ∷ 9 ∷ 10 ∷ []

fail_all_blocks_example :
    (b : PlatformAccount) × Stands 1 (fail_all 1 (1 ∷ times) db) b
    × (b.status ≡ AccountStatus.bloque)
    × (b.erreurs_24h ≡ 0 + suc (length times))
fail_all_blocks_example =
    fail_all_blocks 1 1 times db (account 1 AccountStatus.en_chauffe 0 DatadomeTrustLevel.high)
      (refl, refl) (omega arith)
