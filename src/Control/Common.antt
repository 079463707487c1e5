-- ===== src/Control/Common.antt =====
-- What campaign_control.py and workflow_control.py share: the commands, the exceptions, the queries on
-- runs and audit events, and what the code calls that is not in the repository.
use text.Mathlib.Text.{◌==◌ as str_eq}
use auto_bot_lbc_pj.Prelude.{
  ℕ, String, Bool, false, ◌&&◌, List, [], ◌∷◌, ◌++◌, Option, none, some, ltb, ◌==◌, if◌then◌else◌,
  find, any, Result, ok, err,
}
use auto_bot_lbc_pj.Models.{workflow_is_active}
use auto_bot_lbc_pj.Tables.{AuditEvent, WorkflowRun, Db}

-- The command words of the HTTP interface; any other text is `other`.
pub data Action : Type 0 where
  start pause resume cancel retry : Action
  other : String → Action

abbrev pub action_text : Action → String
action_text start = "start"
action_text pause = "pause"
action_text resume = "resume"
action_text cancel = "cancel"
action_text retry = "retry"
action_text (other s) = s

-- `LookupError`, `ValueError`, a violated UNIQUE constraint, and what `apply_async` raises.
pub data Error : Type 0 where
  not_found invalid_transition integrity_error attribute_error key_error dispatch_failed : Error
  no_profile not_quarantined provider_failed timed_out : Error

-- Who gives the command, under which key.
pub record Caller : Type 0 where
  pub idempotency_key : String
  pub actor : String
  pub role : String

-- Outside the repository: the clock, uuid4 (the n-th identifier drawn by one command) and Celery's
-- `apply_async` for a run of a type, which gives a task's id or raises.
pub record Outside : Type 0 where
  pub now : ℕ
  pub new_id : ℕ → ℕ
  pub apply_async : String → ℕ → Option String

abbrev pub key_is : String → AuditEvent → Bool
key_is key event = elim event.idempotency_key [ none ↦ false | some k ↦ str_eq k key ]

-- `select(AuditEvent).where(AuditEvent.idempotency_key == key)`.
abbrev pub find_audit : String → Db → Option AuditEvent
find_audit key db = find (key_is key) db.audit

abbrev pub target_is : ℕ → WorkflowRun → Bool
target_is target run = elim run.target_id [ none ↦ false | some t ↦ t == target ]

-- `.order_by(WorkflowRun.created_at.desc())`, first row.
abbrev pub latest : List WorkflowRun → Option WorkflowRun
latest [] = none
latest (run ∷ rest) = elim (latest rest) [
  | none ↦ some run
  | some best ↦ if ltb run.created_at best.created_at then some best else some run
]

abbrev pub is_active_run : String → ℕ → WorkflowRun → Bool
is_active_run type target run =
    str_eq run.workflow_type type && (target_is target run && workflow_is_active run.status)

-- `db.add(run)` and `flush`: the keys of runs are unique.
unfoldable pub insert_run : WorkflowRun → Db → Result Error Db
insert_run run db =
    if any (λ r. str_eq r.idempotency_key run.idempotency_key) db.workflows
    then err integrity_error
    else ok (record db { workflows = db.workflows ++ run ∷ [] })

abbrev pub insert_audit : AuditEvent → Db → Db
insert_audit event db = record db { audit = db.audit ++ event ∷ [] }
