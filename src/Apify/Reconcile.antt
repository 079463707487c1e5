-- ===== src/Apify/Reconcile.antt =====
-- app/services/apify_runs.py: `reconcile_runs`.
use text.Mathlib.Text.{◌==◌ as str_eq}
use auto_bot_lbc_pj.Prelude.{
  ℕ, suc, String, Bool, false, List, [], ◌∷◌, none, some, if◌then◌else◌, select, length, Result, ok,
  err, ◌>>=◌, or_raise,
}
use auto_bot_lbc_pj.Apify.Rows.{ApifyAccount, ApifyRun, Store}
use auto_bot_lbc_pj.Apify.Runs.{
  RunError, secret_not_decrypted, provider_failed, queue_failed, RemoteRun, sync_remote_run,
}
use auto_bot_lbc_pj.Apify.Launch.{Apify}

pub record Reconciled : Type 0 where
  pub accounts : ℕ
  pub runs : ℕ
  pub imports_queued : ℕ

-- A step after one that has returned; what was committed stays after an exception.
abbrev pub and_then {ℓ κ} :
    {A : Type ℓ} {B : Type κ}
    → Result RunError A × Store
    → (A → Store → Result RunError B × Store)
    → Result RunError B × Store
and_then (ok a, s) f = f a s
and_then (err e, s) f = (err e, s)

-- The secrets of all the active accounts are read first.
unfoldable pub credentials : Apify → List ApifyAccount → Result RunError (List (ℕ × String))
credentials apify [] = ok []
credentials apify (a ∷ rest) = do
  token ← or_raise (apify.decrypt a.token_ciphertext) secret_not_decrypted
  later ← credentials apify rest
  ok ((a.id, token) ∷ later)

awaits_import : ApifyRun → Bool
awaits_import run = elim run.imported_at [ none ↦ str_eq run.status "SUCCEEDED" | some t ↦ false ]

unfoldable pub queue_import :
    Apify → (account_id : ℕ) → Reconciled → ApifyRun → Result RunError Reconciled
unfolding awaits_import
queue_import apify account_id c run =
    let seen = record c { runs = suc c.runs } in
    if awaits_import run
    then (if apify.delay account_id run.apify_run_id
        then ok (record seen { imports_queued = suc c.imports_queued })
        else err queue_failed)
    else ok seen

unfoldable pub reconcile_remotes :
    Apify
    → (account_id : ℕ) → List RemoteRun
    → Reconciled
    → Store
    → Result RunError Reconciled × Store
reconcile_remotes apify account_id [] c s = (ok c, s)
reconcile_remotes apify account_id (remote ∷ rest) c s =
    and_then (sync_remote_run (apify.fresh_run c.runs) account_id remote s) λ run s'.
      and_then (queue_import apify account_id c run, s') (reconcile_remotes apify account_id rest)

unfoldable pub reconcile_accounts :
    Apify → List (ℕ × String) → Reconciled → Store → Result RunError Reconciled × Store
reconcile_accounts apify [] c s = (ok c, s)
reconcile_accounts apify ((account_id, token) ∷ rest) c s = elim (apify.list_recent_runs token) [
  | none ↦ (err provider_failed, s)
  | some remotes ↦
      and_then (reconcile_remotes apify account_id remotes c s) (reconcile_accounts apify rest)
]

unfoldable pub reconcile_runs : Apify → Store → Result RunError Reconciled × Store
reconcile_runs apify s =
    elim (credentials apify (select (λ a. str_eq a.status "active") s.accounts)) [
      | err e ↦ (err e, s)
      | ok known ↦
          reconcile_accounts apify known
            (record { accounts = length known; runs = 0; imports_queued = 0 }) s
    ]
