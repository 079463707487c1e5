-- ===== src/Accounts/Creation.antt =====
-- app/services/account_control.py: the runs that create accounts.
use text.Mathlib.Text.{◌==◌ as str_eq}
use Prim.Native.String.{◌++◌ as text_append}
use auto_bot_lbc_pj.Prelude.{
  ℕ, suc, ◌+◌, ◌*◌, String, Bool, true, false, not, ◌&&◌, List, [], ◌∷◌, Option, none, some, ltb,
  if◌then◌else◌, get, find, Result, ok, err, ◌>>=◌, commit, lookup_text, put_text, update_texts,
}
use auto_bot_lbc_pj.Models.{WorkflowStatus}
use auto_bot_lbc_pj.Tables.{WorkflowRun, Db}
use auto_bot_lbc_pj.Control.Common.{
  Error, attribute_error, dispatch_failed, Caller, insert_run, insert_audit,
}
use auto_bot_lbc_pj.Accounts.Commands.{
  Outside, create_account_task, AccountCommandResponse, lower_status, new_workflow, account_event,
  write_workflow,
}

abbrev key_of : String → WorkflowRun → Bool
key_of key w = str_eq w.idempotency_key key

-- A text that is `None` or empty is falsy.
abbrev pub truthy : Option String → Bool
truthy none = false
truthy (some s) = not (str_eq s "")

abbrev put_if : Bool → String → Option String → List (String × String) → List (String × String)
put_if false key value d = d
put_if true key none d = d
put_if true key (some value) d = put_text key value d

-- The merged checkpoint of a run that ends.
unfoldable pub final_checkpoint :
    (account_id error : Option String) → List (String × String) → List (String × String)
final_checkpoint account_id error checkpoint =
    let previous_stage = lookup_text "stage" checkpoint in
    put_text "stage" (if truthy error then "failed" else "completed") (
      put_if (truthy error && truthy previous_stage) "last_stage" previous_stage
        (put_if (truthy account_id) "account_id" account_id checkpoint))

abbrev pub finish_creation : ℕ → (account_id error : Option String) → WorkflowRun → WorkflowRun
finish_creation now account_id error w = record w {
  status = if truthy error then WorkflowStatus.failed else WorkflowStatus.completed;
  checkpoint = final_checkpoint account_id error w.checkpoint;
  last_error = error;
  finished_at = some now;
}

unfoldable pub finish_account_creation_workflow :
    (now : ℕ) → ℕ → (account_id error : Option String) → Db → Result Error (Unit {0}) × Db
finish_account_creation_workflow now workflow_id account_id error db =
    elim (get (λ w. w.id) workflow_id db.workflows) [
      | none ↦ (err attribute_error, db)
      | some w ↦ (ok tt, write_workflow workflow_id (finish_creation now account_id error) db)
    ]

abbrev merged : Option (List (String × String)) → List (String × String) → List (String × String)
merged none old = old
merged (some new) old = update_texts old new

abbrev is_running : WorkflowStatus → Bool
is_running WorkflowStatus.running = true
is_running _ = false

abbrev started : Bool → ℕ → Option ℕ → Option ℕ
started true now none = some now
started _ now old = old

abbrev pub progress_run :
    ℕ → WorkflowStatus → Option (List (String × String)) → WorkflowRun → WorkflowRun
progress_run now status checkpoint w = record w {
  status = status;
  checkpoint = merged checkpoint w.checkpoint;
  started_at = started (is_running status) now w.started_at;
}

unfoldable pub update_account_creation_workflow :
    (now : ℕ) → ℕ → WorkflowStatus → Option (List (String × String)) → Db → Db
update_account_creation_workflow now workflow_id status checkpoint db =
    elim (get (λ w. w.id) workflow_id db.workflows) [
      | none ↦ db
      | some w ↦
          if str_eq w.workflow_type "account.create"
          then write_workflow workflow_id (progress_run now status checkpoint) db
          else db
    ]

module _ (out : Outside) (caller : Caller) (mode : String) where
  unfoldable pub create_session : Db → Result Error (Unit {0} × Db)
  create_session db = do
    added ←
        insert_run
          (new_workflow out caller "account.create" "account_pool" (out.word mode)
            WorkflowStatus.pending)
          db
    ok (
      tt,
      insert_audit
          (account_event out caller "account.create" "account_pool" (out.word mode)
            (("mode", mode) ∷ []) "queued")
          added,
    )

  abbrev creation_response : (workflow_id : ℕ) → String → AccountCommandResponse
  creation_response workflow_id status = record {
    account_id = none;
    workflow_id = some workflow_id;
    action = "create";
    status = status;
  }

  -- The dispatch; when it raises, the run is finished with the error (without the exception's own text).
  unfoldable pub dispatch_creation : Db → Result Error AccountCommandResponse × Db
  dispatch_creation db =
      let failed =
        finish_account_creation_workflow out.now out.run_id none
          (some "Account creation dispatch failed") db in
      elim (out.delay (create_account_task mode out.run_id)) [
        | none ↦ (err dispatch_failed, failed.1)
        | some task ↦ elim (get (λ w. w.id) out.run_id db.workflows) [
          | none ↦ (err attribute_error, failed.1)
          | some w ↦ (
            ok (creation_response out.run_id "queued"),
            write_workflow out.run_id (λ w. record w { celery_task_id = some task }) db,
          )
        ]
      ]

  abbrev after_creation : Result Error (Unit {0}) × Db → Result Error AccountCommandResponse × Db
  after_creation (err e, db) = (err e, db)
  after_creation (ok _, db) = dispatch_creation db

  unfoldable pub create_account_command : Db → Result Error AccountCommandResponse × Db
  create_account_command db = elim (find (key_of caller.idempotency_key) db.workflows) [
    | some w ↦ (ok (creation_response w.id (lower_status w.status)), db)
    | none ↦ after_creation (commit db (create_session db))
  ]

abbrev pub is_waiting : WorkflowStatus → Bool
is_waiting WorkflowStatus.pending = true
is_waiting WorkflowStatus.running = true
is_waiting _ = false

abbrev pub is_creation : WorkflowRun → Bool
is_creation w = str_eq w.workflow_type "account.create" && is_waiting w.status

abbrev pub was_pending : WorkflowStatus → Bool
was_pending WorkflowStatus.pending = true
was_pending _ = false

-- `workflow.started_at or workflow.created_at`.
abbrev pub reference_time : WorkflowRun → ℕ
reference_time w = elim w.started_at [ none ↦ w.created_at | some t ↦ t ]

abbrev pub minutes_for : (pending_minutes running_minutes : ℕ) → WorkflowRun → ℕ
minutes_for p r w = if was_pending w.status then p else r

-- `reference_time > now - timedelta(minutes=...)`, without the subtraction.
abbrev pub is_live : (now pending_minutes running_minutes : ℕ) → WorkflowRun → Bool
is_live now pending_minutes running_minutes w =
    ltb now (reference_time w + 60 * minutes_for pending_minutes running_minutes w)

abbrev timeout_text : String → String
timeout_text minutes =
    text_append "Workflow account.create expire : aucune progression persistée depuis "
      (text_append minutes " minutes.")

abbrev pub time_out :
    (show : ℕ → String) → (now pending_minutes running_minutes : ℕ) → WorkflowRun → WorkflowRun
time_out show now p r w = record w {
  status = WorkflowStatus.failed;
  last_error_code = some "WORKER_TIMEOUT";
  last_error = some (timeout_text (show (minutes_for p r w)));
  checkpoint = put_text "stage" "reconciled_timeout" w.checkpoint;
  finished_at = some now;
}

abbrev pub is_stale : (now pending_minutes running_minutes : ℕ) → WorkflowRun → Bool
is_stale now p r w = is_creation w && not (is_live now p r w)

-- The loop over the runs: how many were failed, and the table.
unfoldable pub reconcile_creations :
    (show : ℕ → String)
    → (now pending_minutes running_minutes : ℕ) → List WorkflowRun
    → ℕ × List WorkflowRun
reconcile_creations show now p r [] = (0, [])
reconcile_creations show now p r (w ∷ ws) =
    let (n, rest) = reconcile_creations show now p r ws in
    if is_stale now p r w then (suc n, time_out show now p r w ∷ rest) else (n, w ∷ rest)

unfoldable pub reconcile_account_creation_workflows :
    (show : ℕ → String) → (now pending_timeout_minutes running_timeout_minutes : ℕ) → Db → ℕ × Db
reconcile_account_creation_workflows show now p r db =
    let (n, workflows) = reconcile_creations show now p r db.workflows in
    (n, record db { workflows = workflows })
