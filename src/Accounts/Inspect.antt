-- ===== src/Accounts/Inspect.antt =====
-- app/services/account_control.py: `inspect_account`.
use text.Mathlib.Text.{◌==◌ as str_eq}
use auto_bot_lbc_pj.Prelude.{
  ℕ, zero, suc, ◌+◌, String, Bool, true, false, ◌||◌, List, [], ◌∷◌, Option, none, some, ltb,
  if◌then◌else◌, get, Result, ok, err, ◌>>=◌, or_raise, commit,
}
use auto_bot_lbc_pj.Models.{WorkflowStatus}
use auto_bot_lbc_pj.Tables.{WorkflowRun, PlatformAccount, Db}
use auto_bot_lbc_pj.Control.Common.{Error, attribute_error, provider_failed, timed_out}
use auto_bot_lbc_pj.Accounts.Commands.{write_account, write_workflow}

-- `task.get("id")` and its session, and the finished task's detail.
pub record CloudTask : Type 0 where
  pub id : String
  pub session_id : Option String

pub record Detail : Type 0 where
  pub output : String
  pub is_success : String

-- The client of Browser Use as one inspection meets it (`none` is an exception; the status is that of the k-th
-- question), the clock at the start and the end, and the two settings.
pub record Cloud : Type 0 where
  pub started : ℕ
  pub ended : ℕ
  pub timeout : ℕ
  pub interval : ℕ
  pub create_task : Option CloudTask
  pub get_task_status : ℕ → Option String
  pub get_task : Option Detail
  pub stop_task : Bool

abbrev pub is_final : String → Bool
is_final s = str_eq s "finished" || str_eq s "stopped"

-- How the `while` ends: at a question, by its condition, or by an exception.
pub data PollEnd : Type 0 where
  finished : (question : ℕ) → PollEnd
  expired raised : PollEnd

abbrev pub answer_poll : Option String → (question : ℕ) → (later : Option PollEnd) → Option PollEnd
answer_poll none question later = some raised
answer_poll (some s) question later = if is_final s then some (finished question) else later

-- The loop, on fuel; `none` is a loop that goes on when the fuel is used up.
unfoldable pub poll : Cloud → (fuel elapsed question : ℕ) → Option PollEnd
poll cloud zero elapsed question = none
poll cloud (suc fuel) elapsed question =
    let later = poll cloud fuel (elapsed + cloud.interval) (suc question) in
    if ltb elapsed cloud.timeout
    then answer_poll (cloud.get_task_status question) question later
    else some expired

abbrev pub start_inspection : ℕ → WorkflowRun → WorkflowRun
start_inspection now w = record w { status = WorkflowStatus.running; started_at = some now }

abbrev checkpoint_entries : CloudTask → Detail → List (String × String)
checkpoint_entries task detail =
    ("provider_task_id", task.id)
    ∷ ("session_id", elim task.session_id [ none ↦ "" | some s ↦ s ])
    ∷ ("output", detail.output)
    ∷ ("is_success", detail.is_success)
    ∷ []

abbrev pub end_inspection : Cloud → CloudTask → Detail → WorkflowRun → WorkflowRun
end_inspection cloud task detail w = record w {
  status = WorkflowStatus.completed;
  checkpoint = checkpoint_entries task detail;
  finished_at = some cloud.ended;
}

abbrev pub note_session : Cloud → CloudTask → PlatformAccount → PlatformAccount
note_session cloud task a = record a {
  browser_use_session_id = task.session_id;
  derniere_action = some cloud.ended;
}

module _ (cloud : Cloud) (workflow_id account_id : ℕ) where
  abbrev pub start_session : Db → Result Error (Unit {0} × Db)
  start_session db = do
    w ← or_raise (get (λ w. w.id) workflow_id db.workflows) attribute_error
    ok (tt, write_workflow workflow_id (start_inspection cloud.started) db)

  -- The last session.
  abbrev pub end_session : CloudTask → Detail → Db → Result Error (Detail × Db)
  end_session task detail db = do
    w ← or_raise (get (λ w. w.id) workflow_id db.workflows) attribute_error
    a ← or_raise (get (λ a. a.id) account_id db.accounts) attribute_error
    ok (
      detail,
      write_account account_id (note_session cloud task)
          (write_workflow workflow_id (end_inspection cloud task detail) db),
    )

  abbrev pub after_detail : CloudTask → Option Detail → Db → Result Error Detail × Db
  after_detail task none db = (err provider_failed, db)
  after_detail task (some detail) db = commit db (end_session task detail db)

  -- The task is stopped first, which may raise.
  abbrev pub timeout_error : (stopped : Bool) → Error
  timeout_error true = timed_out
  timeout_error false = provider_failed

  abbrev pub after_poll : CloudTask → PollEnd → Db → Result Error Detail × Db
  after_poll task (finished question) db = after_detail task cloud.get_task db
  after_poll task expired db = (err (timeout_error cloud.stop_task), db)
  after_poll task raised db = (err provider_failed, db)

  -- `none` when the fuel does not reach the end of the loop.
  abbrev pub with_poll : CloudTask → Option PollEnd → Db → Option (Result Error Detail × Db)
  with_poll task none db = none
  with_poll task (some e) db = some (after_poll task e db)

  abbrev pub after_create : (fuel : ℕ) → Option CloudTask → Db → Option (Result Error Detail × Db)
  after_create fuel none db = some (err provider_failed, db)
  after_create fuel (some task) db = with_poll task (poll cloud fuel 0 0) db

  abbrev pub after_start :
      (fuel : ℕ) → Result Error (Unit {0}) × Db → Option (Result Error Detail × Db)
  after_start fuel (err e, db) = some (err e, db)
  after_start fuel (ok _, db) = after_create fuel cloud.create_task db

  unfoldable pub inspect_account : (fuel : ℕ) → Db → Option (Result Error Detail × Db)
  inspect_account fuel db = after_start fuel (commit db (start_session db))
