-- ===== src/Control/Campaigns.antt =====
-- app/services/campaign_control.py: the transition table and `execute_campaign_command`.
mod Frame
mod Log
pub mod Replay
pub mod Statuses
mod Samples
use Prim.Native.String.{◌++◌ as text_append}
use text.Mathlib.Text.{◌==◌ as str_eq}
use auto_bot_lbc_pj.Prelude.{
  ℕ, zero, suc, String, Bool, true, false, List, [], ◌∷◌, ◌++◌, Option, none, some, get, modify,
  if◌then◌else◌, select, Result, ok, err, ◌>>=◌, or_raise,
}
use auto_bot_lbc_pj.Models.{CampaignStatus, WorkflowStatus}
use auto_bot_lbc_pj.Tables.{Campaign, WorkflowRun, AuditEvent, Db}
use auto_bot_lbc_pj.Control.Common.{
  Action, start, pause, resume, cancel, retry, action_text, Error, not_found, invalid_transition,
  attribute_error, dispatch_failed, Caller, Outside, find_audit, latest, is_active_run, insert_run,
  insert_audit,
}

-- `_TRANSITIONS` and `campaign_transition`.
abbrev pub campaign_transition : CampaignStatus → Action → Result Error CampaignStatus
campaign_transition CampaignStatus.pending start = ok CampaignStatus.running
campaign_transition CampaignStatus.running pause = ok CampaignStatus.paused
campaign_transition CampaignStatus.paused resume = ok CampaignStatus.running
campaign_transition CampaignStatus.running cancel = ok CampaignStatus.cancelled
campaign_transition CampaignStatus.paused cancel = ok CampaignStatus.cancelled
campaign_transition CampaignStatus.pending cancel = ok CampaignStatus.cancelled
campaign_transition CampaignStatus.failed retry = ok CampaignStatus.running
campaign_transition _ _ = err invalid_transition

-- `next_status.value.lower()`.
abbrev pub status_text : CampaignStatus → String
status_text CampaignStatus.pending = "pending"
status_text CampaignStatus.running = "running"
status_text CampaignStatus.paused = "paused"
status_text CampaignStatus.completed = "completed"
status_text CampaignStatus.failed = "failed"
status_text CampaignStatus.cancelled = "cancelled"

abbrev pub workflow_types : Campaign → List String
workflow_types campaign =
    if str_eq campaign.type "both"
    then "campaign.lbc_message" ∷ "campaign.sms" ∷ []
    else (if str_eq campaign.type "lbc_message" then "campaign.lbc_message" else "campaign.sms")
      ∷ []

-- f"{idempotency_key}-{index}": there are at most two types.
abbrev pub run_key : String → ℕ → String
run_key key zero = text_append key "-0"
run_key key (suc i) = text_append key "-1"

unfoldable pub new_run : Outside → Caller → ℕ → ℕ → String → WorkflowRun
new_run out caller campaign_id index type = record {
  id = out.new_id index;
  idempotency_key = run_key caller.idempotency_key index;
  workflow_type = type;
  target_type = some "campaign";
  target_id = some campaign_id;
  status = WorkflowStatus.pending;
  progress_current = 0;
  progress_total = none;
  batch_number = 0;
  batch_size = some 200;
  celery_task_id = none;
  checkpoint = [];
  last_error_code = none;
  last_error = none;
  initiated_by = some caller.actor;
  started_at = none;
  finished_at = none;
  created_at = out.now;
}

-- What `pause`, `cancel` and `resume` write into the active run.
abbrev pub command_run : ℕ → Action → WorkflowRun → WorkflowRun
command_run now pause run = record run { status = WorkflowStatus.paused }
command_run now cancel run = record run {
  status = WorkflowStatus.cancelled;
  finished_at = some now;
}
command_run now resume run = record run { status = WorkflowStatus.pending }
command_run now _ run = run

-- `action in {"start", "retry"}`.
abbrev pub makes_run : Action → Bool
makes_run start = true
makes_run retry = true
makes_run _ = false

module _ (out : Outside) (caller : Caller) (campaign_id : ℕ) (action : Action) where
  abbrev pub add_run : ℕ → String → Db → Result Error (ℕ × Db)
  add_run index type db = insert_run (new_run out caller campaign_id index type) db >>= λ db'.
      ok (out.new_id index, db')

  -- The body of the loop over the workflow types: the run's id.
  pub visit_type : ℕ → String → Db → Result Error (ℕ × Db)
  unfolding new_run insert_run
  visit_type index type db = elim (latest (select (is_active_run type campaign_id) db.workflows)) [
    | none ↦ add_run index type db
    | some run ↦
        if makes_run action
        then add_run index type db
        else ok (
          run.id,
          record db {
            workflows = modify (λ r. r.id) run.id (command_run out.now action) db.workflows;
          },
        )
  ]

  pub visit_types : ℕ → List String → Db → Result Error (List (String × ℕ) × Db)
  visit_types index [] db = ok ([], db)
  visit_types index (type ∷ types) db = do
    (run_id, db₁) ← visit_type index type db
    (rest, db₂) ← visit_types (suc index) types db₁
    ok ((type, run_id) ∷ rest, db₂)

pub record CampaignCommandResponse : Type 0 where
  pub campaign_id : ℕ
  pub workflow_id : Option ℕ
  pub status : CampaignStatus
  pub action : Action

-- `workflows[0][1].id`.
abbrev pub first_run : List (String × ℕ) → Option ℕ
first_run [] = none
first_run ((type, run_id) ∷ _) = some run_id

-- `dispatch_workflow_ids`: the runs that are handed to Celery after the commit.
abbrev pub to_dispatch : Action → List (String × ℕ) → List (String × ℕ)
to_dispatch start runs = runs
to_dispatch resume runs = runs
to_dispatch retry runs = runs
to_dispatch _ runs = []

pub command_event : Outside → Caller → ℕ → Action → CampaignStatus → Option ℕ → AuditEvent
command_event out caller campaign_id action next run_id = record {
  id = out.new_id 2;
  actor = caller.actor;
  role = caller.role;
  action = text_append "campaign." (action_text action);
  target_type = some "campaign";
  target_id = some campaign_id;
  idempotency_key = some caller.idempotency_key;
  input_summary = ("action", action_text action) ∷ [];
  result_status = status_text next;
  workflow_run_id = run_id;
}

module _ (out : Outside) (caller : Caller) (campaign_id : ℕ) (action : Action) where
  -- A key that was used before: nothing is written.
  pub duplicate_session :
      AuditEvent → Db → Result Error ((CampaignCommandResponse × List (String × ℕ)) × Db)
  duplicate_session event db = do
    campaign ← or_raise (get (λ c. c.id) campaign_id db.campaigns) attribute_error
    ok (
      (
        record {
          campaign_id = campaign_id;
          workflow_id = event.workflow_run_id;
          status = campaign.status;
          action = action;
        },
        [],
      ),
      db,
    )

  pub set_status : CampaignStatus → Db → Db
  set_status next db = record db {
    campaigns =
        modify (λ c. c.id) campaign_id (λ c. record c { status = next; last_error = none })
          db.campaigns;
  }

  pub fresh_session : Db → Result Error ((CampaignCommandResponse × List (String × ℕ)) × Db)
  unfolding command_event set_status visit_types
  fresh_session db = do
    campaign ← or_raise (get (λ c. c.id) campaign_id db.campaigns) not_found
    next ← campaign_transition campaign.status action
    (runs, db₁) ←
        visit_types out caller campaign_id action 0 (workflow_types campaign) (set_status next db)
    ok (
      (
        record {
          campaign_id = campaign_id;
          workflow_id = first_run runs;
          status = next;
          action = action;
        },
        to_dispatch action runs,
      ),
      insert_audit (command_event out caller campaign_id action next (first_run runs)) db₁,
    )

  -- The body of the first `async with get_db()`.
  pub command_session : Db → Result Error ((CampaignCommandResponse × List (String × ℕ)) × Db)
  command_session db = elim (find_audit caller.idempotency_key db) [
    | some event ↦ duplicate_session event db
    | none ↦ fresh_session db
  ]

-- The loop after the commit: a task for each run, whose id is stored by a session of its own.
pub dispatch : Outside → List (String × ℕ) → Db → Result Error (Unit {0}) × Db
dispatch out [] db = (ok tt, db)
dispatch out ((type, run_id) ∷ rest) db = elim (out.apply_async type run_id) [
  | none ↦ (err dispatch_failed, db)
  | some task ↦ elim (get (λ r. r.id) run_id db.workflows) [
    | none ↦ (err attribute_error, db)
    | some run ↦ dispatch out rest (record db {
      workflows =
          modify (λ r. r.id) run_id (λ r. record r { celery_task_id = some task }) db.workflows;
    })
  ]
]

abbrev pub answer :
    CampaignCommandResponse
    → Result Error (Unit {0}) × Db
    → Result Error CampaignCommandResponse × Db
answer response (ok _, db) = (ok response, db)
answer response (err e, db) = (err e, db)

pub execute_campaign_command :
    Outside → Caller → ℕ → Action → Db → Result Error CampaignCommandResponse × Db
unfolding command_session
execute_campaign_command out caller campaign_id action db =
    elim (command_session out caller campaign_id action db) [
      | err e ↦ (err e, db)
      | ok ((response, runs), db') ↦ answer response (dispatch out runs db')
    ]
