-- ===== src/Control/Workflows.antt =====
-- app/services/workflow_control.py: `command_workflow` and what it calls.
pub mod Mirror
mod Samples
use Prim.Native.String.{◌++◌ as text_append}
use text.Mathlib.Text.{◌==◌ as str_eq, starts_with}
use auto_bot_lbc_pj.Prelude.{
  lookup_text, ℕ, String, Bool, true, false, List, [], ◌∷◌, Option, none, some, get, modify,
  if◌then◌else◌, Result, ok, err, ◌>>=◌, or_raise,
}
use auto_bot_lbc_pj.Models.{CampaignStatus, WorkflowStatus}
use auto_bot_lbc_pj.Tables.{AuditEvent, Campaign, PlatformAccount, WorkflowRun, Db}
use auto_bot_lbc_pj.Control.Common.{
  Action, start, pause, resume, cancel, retry, other, action_text, Error, not_found,
  invalid_transition, attribute_error, key_error, dispatch_failed, Caller, Outside, find_audit,
  insert_audit,
}

-- `_TRANSITIONS` and `workflow_transition`.
abbrev pub workflow_transition : WorkflowStatus → Action → Result Error WorkflowStatus
workflow_transition WorkflowStatus.running pause = ok WorkflowStatus.paused
workflow_transition WorkflowStatus.pending pause = ok WorkflowStatus.paused
workflow_transition WorkflowStatus.paused resume = ok WorkflowStatus.pending
workflow_transition WorkflowStatus.running cancel = ok WorkflowStatus.cancelled
workflow_transition WorkflowStatus.pending cancel = ok WorkflowStatus.cancelled
workflow_transition WorkflowStatus.paused cancel = ok WorkflowStatus.cancelled
workflow_transition WorkflowStatus.failed retry = ok WorkflowStatus.pending
workflow_transition WorkflowStatus.cancelled retry = ok WorkflowStatus.pending
workflow_transition _ _ = err invalid_transition

abbrev workflow_status_text : WorkflowStatus → String
workflow_status_text WorkflowStatus.pending = "pending"
workflow_status_text WorkflowStatus.running = "running"
workflow_status_text WorkflowStatus.paused = "paused"
workflow_status_text WorkflowStatus.completed = "completed"
workflow_status_text WorkflowStatus.failed = "failed"
workflow_status_text WorkflowStatus.cancelled = "cancelled"

-- The dictionary `{PAUSED: PAUSED, CANCELLED: CANCELLED, PENDING: RUNNING}.get(next, current)`.
abbrev pub mirror : WorkflowStatus → CampaignStatus → CampaignStatus
mirror WorkflowStatus.paused current = CampaignStatus.paused
mirror WorkflowStatus.cancelled current = CampaignStatus.cancelled
mirror WorkflowStatus.pending current = CampaignStatus.running
mirror _ current = current

-- `last_error` and `finished_at` as the command leaves them.
abbrev pub command_row : ℕ → Action → WorkflowStatus → WorkflowRun → WorkflowRun
command_row now action next run = record run {
  status = next;
  last_error = elim action [ retry ↦ none | _ ↦ run.last_error ];
  finished_at = elim next [ WorkflowStatus.cancelled ↦ some now | _ ↦ run.finished_at ];
}

-- A text that Python's `if` takes: neither `None` nor empty.
abbrev pub truthy : Option String → Option String
truthy none = none
truthy (some s) = if str_eq s "" then none else some s

abbrev pub is_campaign_run : WorkflowRun → Bool
is_campaign_run run = starts_with run.workflow_type "campaign."

-- The campaign that a run of type "campaign.*" belongs to follows the run.
pub mirror_campaign : WorkflowRun → WorkflowStatus → List Campaign → List Campaign
mirror_campaign run next campaigns =
    if is_campaign_run run
    then (elim run.target_id [
      | none ↦ campaigns
      | some target ↦
          modify (λ c. c.id) target (λ c. record c { status = mirror next c.status }) campaigns
    ])
    else campaigns

unfoldable pub workflow_event : Outside → Caller → ℕ → Action → WorkflowStatus → AuditEvent
workflow_event out caller workflow_id action next = record {
  id = out.new_id 0;
  actor = caller.actor;
  role = caller.role;
  action = text_append "workflow." (action_text action);
  target_type = some "workflow";
  target_id = some workflow_id;
  idempotency_key = some caller.idempotency_key;
  input_summary = ("action", action_text action) ∷ [];
  result_status = workflow_status_text next;
  workflow_run_id = some workflow_id;
}

-- The remote calls of `_stop_execution`: whether stopping a provider's task and revoking a Celery task
-- (killing its worker or not) succeed.
pub record Remote : Type 0 where
  pub stop_task : String → Bool
  pub revoke : (task : String) (terminate : Bool) → Bool

abbrev pub attempt : Bool → Result Error (Unit {0})
attempt true = ok tt
attempt false = err dispatch_failed

pub stop_provider : Remote → WorkflowRun → Result Error (Unit {0})
stop_provider remote run =
    if str_eq run.workflow_type "browser_use.task"
    then (elim (truthy (lookup_text "provider_task_id" run.checkpoint)) [
      | none ↦ ok tt
      | some provider_id ↦ attempt (remote.stop_task provider_id)
    ])
    else ok tt

pub revoke_task : Remote → WorkflowRun → Action → Result Error (Unit {0})
revoke_task remote run action = elim (truthy run.celery_task_id) [
  | none ↦ ok tt
  | some task ↦ attempt (remote.revoke task (elim action [ pause ↦ false | _ ↦ true ]))
]

pub stop_execution : Remote → WorkflowRun → Action → Result Error (Unit {0})
stop_execution remote run action = stop_provider remote run >>= (λ _. revoke_task remote run action)

-- `apply_async` of the task for the run's type.
abbrev queue : Outside → WorkflowRun → Result Error String
queue out run = or_raise (out.apply_async run.workflow_type run.id) dispatch_failed

-- `db.get(PlatformAccount, UUID(target))` with its profile; `UUID(None)` raises.
abbrev inspected_profile : WorkflowRun → Db → Option String
inspected_profile run db = elim run.target_id [
  | none ↦ none
  | some target ↦ elim (get (λ a. a.id) target db.accounts) [
    | none ↦ none
    | some account ↦ truthy account.browser_use_profile_id
  ]
]

pub dispatch_run : Outside → WorkflowRun → Db → Result Error String
dispatch_run out run db =
    if str_eq run.workflow_type "campaign.sms"
    then queue out run
    else if str_eq run.workflow_type "campaign.lbc_message"
    then queue out run
    else if str_eq run.workflow_type "browser_use.task"
    then or_raise (lookup_text "template_id" run.checkpoint) key_error >>= (λ _. queue out run)
    else if str_eq run.workflow_type "experimental.lab"
    then or_raise (lookup_text "engine" run.checkpoint) key_error >>= (λ _. queue out run)
    else if str_eq run.workflow_type "messaging.inbox_sync"
    then queue out run
    else if str_eq run.workflow_type "account.inspect"
    then or_raise (inspected_profile run db) attribute_error >>= (λ _. queue out run)
    else err dispatch_failed

module _ (out : Outside) (remote : Remote) (caller : Caller) (workflow_id : ℕ)
    (action : Action) where
  -- The status of the run, and what follows from it in the same transaction.
  pub apply_command : WorkflowRun → WorkflowStatus → Db → Db
  apply_command run next db = record db {
    workflows = modify (λ r. r.id) workflow_id (command_row out.now action next) db.workflows;
    campaigns = mirror_campaign run next db.campaigns;
    audit = (insert_audit (workflow_event out caller workflow_id action next) db).audit;
  }

  -- The second session of `resume` and `retry`.
  pub store_task : String → Db → Db
  store_task task db = record db {
    workflows =
        modify (λ r. r.id) workflow_id
          (λ r. record r { celery_task_id = some task; finished_at = none }) db.workflows;
  }

  -- What follows the commit: stop the execution, or start one and store its task.
  pub after_commit : WorkflowRun → Db → Result Error (Unit {0}) × Db
  after_commit run db = elim action [
    | pause ↦ (stop_execution remote run pause, db)
    | cancel ↦ (stop_execution remote run cancel, db)
    | start ↦ (ok tt, db)
    | other _ ↦ (ok tt, db)
    | _ ↦ elim (dispatch_run out run db) [
      | err e ↦ (err e, db)
      | ok task ↦ (ok tt, store_task task db)
    ]
  ]

  -- The view of the run that is read at the end.
  abbrev view : Result Error (Unit {0}) × Db → Result Error WorkflowRun × Db
  view (err e, db) = (err e, db)
  view (ok _, db) = (or_raise (get (λ r. r.id) workflow_id db.workflows) attribute_error, db)

  pub command_fresh : WorkflowRun → Db → Result Error WorkflowRun × Db
  unfolding apply_command after_commit
  command_fresh run db = elim (workflow_transition run.status action) [
    | err e ↦ (err e, db)
    | ok next ↦
        view (after_commit (command_row out.now action next run) (apply_command run next db))
  ]

  pub command_workflow : Db → Result Error WorkflowRun × Db
  unfolding command_fresh
  command_workflow db = elim (get (λ r. r.id) workflow_id db.workflows) [
    | none ↦ (err not_found, db)
    | some run ↦ elim (find_audit caller.idempotency_key db) [
      | some event ↦ (ok run, db)
      | none ↦ command_fresh run db
    ]
  ]
