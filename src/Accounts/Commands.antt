-- ===== src/Accounts/Commands.antt =====
-- app/services/account_control.py: `execute_account_command` and `remove_quarantined_account`.
use text.Mathlib.Text.{◌==◌ as str_eq}
use Prim.Native.String.{◌++◌ as text_append}
use auto_bot_lbc_pj.Prelude.{
  ℕ, String, Bool, true, false, ◌&&◌, List, [], ◌∷◌, Option, none, some, if◌then◌else◌, get, modify,
  Result, ok, err, ◌>>=◌, or_raise, commit,
}
use auto_bot_lbc_pj.Models.{AccountStatus, WorkflowStatus}
use auto_bot_lbc_pj.Tables.{AuditEvent, WorkflowRun, PlatformAccount, Db}
use auto_bot_lbc_pj.Control.Common.{
  Error, not_found, invalid_transition, attribute_error, dispatch_failed, no_profile,
  not_quarantined, Caller, find_audit, insert_run, insert_audit,
}

-- The command words; any other text is `other`.
pub data AccountAction : Type 0 where
  inspect quarantine restore warm : AccountAction
  other : String → AccountAction

abbrev pub account_action_text : AccountAction → String
account_action_text inspect = "inspect"
account_action_text quarantine = "quarantine"
account_action_text restore = "restore"
account_action_text warm = "warm"
account_action_text (other s) = s

-- The Celery tasks that the commands queue.
pub data Task : Type 0 where
  inspect_account_task : (workflow account : ℕ) (profile : Option String) → Task
  check_account_pool_task : Task
  create_account_task : (mode : String) (workflow : ℕ) → Task

-- Outside the repository: the clock, uuid4 for the run and the audit event, the text of an identifier, what a
-- column for identifiers holds for a word, and `delay()`, which gives a task's id or raises.
pub record Outside : Type 0 where
  pub now : ℕ
  pub run_id : ℕ
  pub event_id : ℕ
  pub show : ℕ → String
  pub word : String → ℕ
  pub delay : Task → Option String

-- `_TRANSITIONS`.
unfoldable pub account_transition : AccountStatus → AccountAction → Result Error AccountStatus
account_transition AccountStatus.actif quarantine = ok AccountStatus.quarantaine
account_transition AccountStatus.ralenti quarantine = ok AccountStatus.quarantaine
account_transition AccountStatus.bloque quarantine = ok AccountStatus.quarantaine
account_transition AccountStatus.en_chauffe quarantine = ok AccountStatus.quarantaine
account_transition AccountStatus.en_creation quarantine = ok AccountStatus.quarantaine
account_transition AccountStatus.quarantaine restore = ok AccountStatus.en_chauffe
account_transition AccountStatus.bloque restore = ok AccountStatus.en_chauffe
account_transition AccountStatus.en_creation warm = ok AccountStatus.en_chauffe
account_transition AccountStatus.ralenti warm = ok AccountStatus.en_chauffe
account_transition _ _ = err invalid_transition

abbrev pub lower_status : WorkflowStatus → String
lower_status WorkflowStatus.pending = "pending"
lower_status WorkflowStatus.running = "running"
lower_status WorkflowStatus.paused = "paused"
lower_status WorkflowStatus.completed = "completed"
lower_status WorkflowStatus.failed = "failed"
lower_status WorkflowStatus.cancelled = "cancelled"

-- `not account.browser_use_profile_id`.
abbrev pub lacks_profile : PlatformAccount → Bool
lacks_profile a = elim a.browser_use_profile_id [ none ↦ true | some p ↦ str_eq p "" ]

abbrev pub is_inspect : AccountAction → Bool
is_inspect inspect = true
is_inspect _ = false

abbrev pub is_warm : AccountAction → Bool
is_warm warm = true
is_warm _ = false

pub record AccountCommandResponse : Type 0 where
  pub account_id : Option ℕ
  pub workflow_id : Option ℕ
  pub action : String
  pub status : String

abbrev pub new_workflow :
    Outside → Caller → (type target_type : String) → ℕ → WorkflowStatus → WorkflowRun
new_workflow out caller type target_type target status = record {
  id = out.run_id;
  idempotency_key = caller.idempotency_key;
  workflow_type = type;
  target_type = some target_type;
  target_id = some target;
  status = status;
  progress_current = 0;
  progress_total = none;
  batch_number = 0;
  batch_size = none;
  celery_task_id = none;
  checkpoint = [];
  last_error_code = none;
  last_error = none;
  initiated_by = some caller.actor;
  started_at = none;
  finished_at = none;
  created_at = out.now;
}

abbrev pub account_event :
    Outside
    → Caller
    → (action target_type : String) → ℕ
    → List (String × String)
    → (result : String) → AuditEvent
account_event out caller action target_type target summary result = record {
  id = out.event_id;
  actor = caller.actor;
  role = caller.role;
  action = action;
  target_type = some target_type;
  target_id = some target;
  idempotency_key = some caller.idempotency_key;
  input_summary = summary;
  result_status = result;
  workflow_run_id = some out.run_id;
}

abbrev pub write_account : ℕ → (PlatformAccount → PlatformAccount) → Db → Db
write_account id f db = record db { accounts = modify (λ a. a.id) id f db.accounts }

abbrev pub write_workflow : ℕ → (WorkflowRun → WorkflowRun) → Db → Db
write_workflow id f db = record db { workflows = modify (λ w. w.id) id f db.workflows }

abbrev pub duplicate_response : ℕ → (action : String) → AuditEvent → AccountCommandResponse
duplicate_response account_id action event = record {
  account_id = some account_id;
  workflow_id = event.workflow_run_id;
  action = action;
  status = event.result_status;
}

module _ (out : Outside) (caller : Caller) (account_id : ℕ) (action : AccountAction) where
  abbrev pub finished_now : WorkflowRun → WorkflowRun
  finished_now w = record w { status = WorkflowStatus.completed; finished_at = some out.now }

  -- `if action != "inspect"`: the run's status, and the tables.
  unfoldable pub apply_transition : PlatformAccount → Db → Result Error (WorkflowStatus × Db)
  apply_transition account db =
      if is_inspect action
      then ok (WorkflowStatus.pending, db)
      else account_transition account.status action >>= λ next. ok (
        WorkflowStatus.completed,
        write_workflow out.run_id finished_now (
            write_account account_id
              (λ a. record a { status = next; derniere_action = some out.now }) db),
      )

  abbrev pub with_profile : PlatformAccount → Result Error PlatformAccount
  with_profile account =
      if is_inspect action && lacks_profile account then err no_profile else ok account

  -- The first session under a new key; it leaves the profile for the task.
  unfoldable pub account_session : Db → Result Error (Option String × Db)
  account_session db = do
    found ← or_raise (get (λ a. a.id) account_id db.accounts) not_found
    account ← with_profile found
    let name = text_append "account." (account_action_text action)
    added ← insert_run (new_workflow out caller name "account" account_id WorkflowStatus.pending) db
    (status, db₁) ← apply_transition account added
    let event =
        account_event out caller name "account" account_id
          (("action", account_action_text action) ∷ []) (lower_status status)
    ok (account.browser_use_profile_id, insert_audit event db₁)

  abbrev note_task : String → Db → Db
  note_task task db = write_workflow out.run_id (λ w. record w { celery_task_id = some task }) db

  -- The tasks after the commit.
  unfoldable pub account_tasks : Option String → Db → Result Error (Unit {0}) × Db
  account_tasks profile db =
      if is_inspect action
      then elim (out.delay (inspect_account_task out.run_id account_id profile)) [
        | none ↦ (err dispatch_failed, db)
        | some task ↦ elim (get (λ w. w.id) out.run_id db.workflows) [
          | none ↦ (err attribute_error, db)
          | some w ↦ (ok tt, note_task task db)
        ]
      ]
      else if is_warm action
      then elim (out.delay check_account_pool_task) [
        | none ↦ (err dispatch_failed, db)
        | some task ↦ (ok tt, db)
      ]
      else (ok tt, db)

  abbrev pub answer_tasks : Result Error (Unit {0}) × Db → Result Error AccountCommandResponse × Db
  answer_tasks (err e, db) = (err e, db)
  answer_tasks (ok _, db) = (
    ok (record {
      account_id = some account_id;
      workflow_id = some out.run_id;
      action = account_action_text action;
      status = if is_inspect action then "queued" else "completed";
    }),
    db,
  )

  abbrev pub after_session :
      Result Error (Option String) × Db → Result Error AccountCommandResponse × Db
  after_session (err e, db) = (err e, db)
  after_session (ok profile, db) = answer_tasks (account_tasks profile db)

  unfoldable pub execute_account_command : Db → Result Error AccountCommandResponse × Db
  execute_account_command db = elim (find_audit caller.idempotency_key db) [
    | some event ↦ (ok (duplicate_response account_id (account_action_text action) event), db)
    | none ↦ after_session (commit db (account_session db))
  ]

abbrev is_quarantined : AccountStatus → Bool
is_quarantined AccountStatus.quarantaine = true
is_quarantined _ = false

abbrev quarantined : PlatformAccount → Result Error PlatformAccount
quarantined a = if is_quarantined a.status then ok a else err not_quarantined

abbrev pub delete_account : ℕ → PlatformAccount → PlatformAccount
delete_account now a = record a { deleted_at = some now; derniere_action = some now }

module _ (out : Outside) (caller : Caller) (account_id : ℕ) where
  unfoldable pub remove_session : Db → Result Error (AccountCommandResponse × Db)
  remove_session db = do
    found ← or_raise (get (λ a. a.id) account_id db.accounts) not_found
    account ← quarantined found
    let run = new_workflow out caller "account.delete" "account" account_id WorkflowStatus.completed
    added ←
        insert_run (record run { started_at = some out.now; finished_at = some out.now })
          (write_account account_id (delete_account out.now) db)
    ok (
      record {
        account_id = some account_id;
        workflow_id = some out.run_id;
        action = "delete";
        status = "completed";
      },
      insert_audit
          (account_event out caller "account.delete" "account" account_id
            (("action", "delete") ∷ ("mode", "soft_delete") ∷ []) "completed")
          added,
    )

  unfoldable pub remove_quarantined_account : Db → Result Error AccountCommandResponse × Db
  remove_quarantined_account db = elim (find_audit caller.idempotency_key db) [
    | some event ↦ (ok (duplicate_response account_id "delete" event), db)
    | none ↦ commit db (remove_session db)
  ]
