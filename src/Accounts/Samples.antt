-- ===== src/Accounts/Samples.antt =====
-- Commands and inspections of one account, and the theorems at them.
use auto_bot_lbc_pj.Prelude.{
  ℕ, true, [], ◌∷◌, none, some, get, if◌then◌else◌, ◌==◌, ◌≡◌, refl, arith, Result, ok,
}
use auto_bot_lbc_pj.Models.{AccountStatus, WorkflowStatus, DatadomeTrustLevel}
use auto_bot_lbc_pj.Tables.{WorkflowRun, PlatformAccount, AuditEvent, Db}
use auto_bot_lbc_pj.Samples.{empty_db, run}
use auto_bot_lbc_pj.Control.Common.{Caller, Error, insert_run, timed_out}
use auto_bot_lbc_pj.Accounts.Commands.{
  Outside, AccountCommandResponse, inspect, restore, is_inspect, account_transition,
  apply_transition, account_session, account_tasks, execute_account_command, account_event,
}
use auto_bot_lbc_pj.Accounts.Creation.{reconcile_creations, reconcile_account_creation_workflows}
use auto_bot_lbc_pj.Accounts.Inspect.{Cloud, Detail, poll, inspect_account}
use auto_bot_lbc_pj.Accounts.Polling.{Justified, inspect_account-Justified}
use auto_bot_lbc_pj.Accounts.Overdue.{Reconciles}
use auto_bot_lbc_pj.Accounts.Stuck.{
  reconcile_account_creation_workflows-twice, inspect_account-stuck,
}
use auto_bot_lbc_pj.Accounts.Replay.{execute_account_command-replay}

abbrev account : PlatformAccount
account = record {
  id = 2;
  status = AccountStatus.bloque;
  score_sante = 50;
  erreurs_24h = 0;
  quota_actuel = 5;
  datadome_trust_level = DatadomeTrustLevel.low;
  date_creation = 0;
  derniere_action = none;
  deleted_at = none;
  browser_use_profile_id = some "p";
  browser_use_session_id = none;
}

abbrev inspection : WorkflowRun
inspection = record (run WorkflowStatus.pending) { workflow_type = "account.inspect" }

abbrev creation : WorkflowRun
creation = record (run WorkflowStatus.pending) { workflow_type = "account.create"; id = 8 }

abbrev db : Db
db = record empty_db { accounts = account ∷ []; workflows = inspection ∷ creation ∷ [] }

abbrev caller : Caller
caller = record { idempotency_key = "k"; actor = "ann"; role = "operator" }

abbrev outside : Outside
outside = record {
  now = 50;
  run_id = 20;
  event_id = 21;
  show = λ n. "n";
  word = λ s. 0;
  delay = λ task. some "t";
}

-- The task is final at the third question; a timeout of 10 seconds ends the loop before it.
abbrev cloud : ℕ → Cloud
cloud timeout = record {
  started = 60;
  ended = 90;
  timeout = timeout;
  interval = 5;
  create_task = some (record { id = "x"; session_id = some "s" });
  get_task_status = λ k. some (if k == 2 then "finished" else "running");
  get_task = some (record { output = "fine"; is_success = "True" });
  stop_task = true;
}

program : Unit {0}
unfolding account_transition apply_transition account_session account_tasks execute_account_command
    insert_run reconcile_creations reconcile_account_creation_workflows poll inspect_account
program = tt

inspect_account-Justified_example :
    (r : Result Error Detail × Db) × (inspect_account (cloud 30) 7 2 31 db ≡ some r)
    × Justified (cloud 30) r.0
inspect_account-Justified_example =
    inspect_account-Justified (cloud 30) 7 2 30 db (omega arith) (omega arith)

abbrev late : Db
late = record db {
  workflows =
      record inspection { status = WorkflowStatus.running; started_at = some 60 } ∷ creation ∷ [];
}

inspect_account-stuck_example :
    let (_, db'') = reconcile_account_creation_workflows (λ n. "n") 1_000_000 10 30 late in
    (left : WorkflowRun) × (get (λ w. w.id) 7 db''.workflows ≡ some left)
    × (left.status ≡ WorkflowStatus.running)
unfolding program
inspect_account-stuck_example =
    inspect_account-stuck (cloud 10) 7 2 (λ n. "n") 11 1_000_000 10 30 db late inspection timed_out
      refl refl refl

reconcile_account_creation_workflows-twice_example :
    let (n, db') = reconcile_account_creation_workflows (λ n. "n") 1_000_000 10 30 db in
    Reconciles 1_000_000 10 30 n db.workflows db'.workflows
    × (reconcile_account_creation_workflows (λ n. "n") 1_000_000 10 30 db' ≡ (0, db'))
reconcile_account_creation_workflows-twice_example =
    reconcile_account_creation_workflows-twice (λ n. "n") 1_000_000 10 30 db

-- One run was out of time.
one_failed : (reconcile_account_creation_workflows (λ n. "n") 1_000_000 10 30 db).0 ≡ 1
unfolding program
one_failed = refl

-- The account is restored under another key in between.
abbrev restored : Db
restored =
    (execute_account_command (record outside { run_id = 30 })
      (record caller { idempotency_key = "l" }) 2 restore
      (execute_account_command outside caller 2 inspect db).1).1

abbrev response : AccountCommandResponse
response = record {
  account_id = some 2;
  workflow_id = some 20;
  action = "inspect";
  status = "queued";
}

abbrev event : AuditEvent
event =
    account_event (record outside { run_id = 30 }) (record caller { idempotency_key = "l" })
      "account.restore" "account" 2 (("action", "restore") ∷ []) "completed"

execute_account_command-replay_example :
    (second : AccountCommandResponse) × (execute_account_command outside caller 2 restore restored
      ≡ (ok second, restored))
    × (response.workflow_id ≡ some outside.run_id)
    × (second.workflow_id ≡ response.workflow_id)
    × (response.status ≡ (if is_inspect inspect then "queued" else "completed"))
    × (second.status ≡ (if is_inspect inspect then "pending" else "completed"))
unfolding program
execute_account_command-replay_example =
    execute_account_command-replay outside outside caller 2 2 inspect restore db restored
      (event ∷ []) response refl refl refl
