-- ===== src/Control/Workflows/Mirror.antt =====
-- A command on a run moves the run, and with it the campaign that it belongs to.
use mathlib.Core.Option
use auto_bot_lbc_pj.Prelude.{
  ℕ, String, Option, none, some, get, ◌≡◌, refl, ◌∙◌, ap, inl, inr, arith, true, Result, ok, err,
  Result-cases, get-modify, ==_refl,
}
use auto_bot_lbc_pj.Models.{CampaignStatus, WorkflowStatus}
use auto_bot_lbc_pj.Tables.{Campaign, WorkflowRun, Db}
use auto_bot_lbc_pj.Control.Common.{
  Action, start, pause, resume, cancel, retry, other, Error, Caller, Outside, find_audit,
}
use auto_bot_lbc_pj.Control.Campaigns.{campaign_transition}
use auto_bot_lbc_pj.Control.Workflows.{
  workflow_transition, mirror, mirror_campaign, command_row, Remote, dispatch_run, apply_command,
  store_task, after_commit, view, command_fresh, command_workflow, is_campaign_run,
}

abbrev pub campaign_status : ℕ → Db → Option CampaignStatus
campaign_status id db = Option.map (λ c. c.status) (get (λ c. c.id) id db.campaigns)

abbrev pub run_status : ℕ → Db → Option WorkflowStatus
run_status id db = Option.map (λ r. r.status) (get (λ r. r.id) id db.workflows)

abbrev Keeps : ℕ → Db → Db → Type 0
Keeps workflow_id db db' =
    (db'.campaigns ≡ db.campaigns) × (run_status workflow_id db' ≡ run_status workflow_id db)

module _ (out : Outside) (remote : Remote) (caller : Caller) (workflow_id : ℕ) where
  store_task-Keeps :
      (action : Action) (task : String) (db : Db)
      → Keeps workflow_id db (store_task out remote caller workflow_id action task db)
  unfolding store_task
  store_task-Keeps action task db =
      let after =
        get-modify (λ r. r.id) workflow_id workflow_id
          (λ r. record r { celery_task_id = some task; finished_at = none }) db.workflows
          (λ r. refl) in
      (refl, ground (arith, after))

  -- The calls after the commit change neither the campaigns nor the run's status.
  after_commit-Keeps :
      (action : Action) (run : WorkflowRun) (db : Db)
      → Keeps workflow_id db (after_commit out remote caller workflow_id action run db).1
  unfolding after_commit
  after_commit-Keeps pause run db = (refl, refl)
  after_commit-Keeps cancel run db = (refl, refl)
  after_commit-Keeps start run db = (refl, refl)
  after_commit-Keeps (other _) run db = (refl, refl)
  after_commit-Keeps resume run db = elim (Result-cases (dispatch_run out run db)) [
    | inl (task, queued) ↦ rw (queued, after_commit) (store_task-Keeps resume task db)
    | inr (e, failed) ↦ rw (failed, after_commit) (refl, refl)
  ]
  after_commit-Keeps retry run db = elim (Result-cases (dispatch_run out run db)) [
    | inl (task, queued) ↦ rw (queued, after_commit) (store_task-Keeps retry task db)
    | inr (e, failed) ↦ rw (failed, after_commit) (refl, refl)
  ]

  view_state :
      (action : Action) (a : Result Error (Unit {0}) × Db)
      → (view out remote caller workflow_id action a).1 ≡ a.1
  view_state action (ok _, db) = refl
  view_state action (err e, db) = refl

cancelled_stuck :
    (a : Action) (t : CampaignStatus) → campaign_transition CampaignStatus.cancelled a ≡ ok t → ⊥
cancelled_stuck a t e = ground arith

module _ (out : Outside) (remote : Remote) (caller : Caller) (workflow_id : ℕ) (action : Action)
    (db : Db) (run : WorkflowRun) (next : WorkflowStatus) where
  apply_command-run_status :
      get (λ r. r.id) workflow_id db.workflows ≡ some run
      → run_status workflow_id (apply_command out remote caller workflow_id action run next db)
        ≡ some next
  unfolding apply_command
  apply_command-run_status found =
      let row =
        get-modify (λ r. r.id) workflow_id workflow_id (command_row out.now action next)
          db.workflows (λ r. refl) in
      rw (row, ==_refl workflow_id, found)

  apply_command-campaign_status :
      (target : ℕ) (campaign : Campaign)
      → is_campaign_run run ≡ true
      → run.target_id ≡ some target
      → get (λ c. c.id) target db.campaigns ≡ some campaign
      → campaign_status target (apply_command out remote caller workflow_id action run next db)
        ≡ some (mirror next campaign.status)
  unfolding apply_command mirror_campaign
  apply_command-campaign_status target campaign is_campaign targets owner =
      let camp =
        get-modify (λ c. c.id) target target (λ c. record c { status = mirror next c.status })
          db.campaigns (λ c. refl) in
      rw (is_campaign, targets) (rw (camp, ==_refl target, owner))

pub command_workflow-mirrors :
    (out : Outside) (remote : Remote) (caller : Caller) (workflow_id : ℕ) (action : Action)
    (db : Db) (run : WorkflowRun) (next : WorkflowStatus) (target : ℕ) (campaign : Campaign)
    → find_audit caller.idempotency_key db ≡ none
    → get (λ r. r.id) workflow_id db.workflows ≡ some run
    → workflow_transition run.status action ≡ ok next
    → is_campaign_run run ≡ true
    → run.target_id ≡ some target
    → get (λ c. c.id) target db.campaigns ≡ some campaign
    → let db' = (command_workflow out remote caller workflow_id action db).1 in
      (run_status workflow_id db' ≡ some next)
      × (campaign_status target db' ≡ some (mirror next campaign.status))
unfolding command_workflow command_fresh
command_workflow-mirrors out remote caller workflow_id action db run next target campaign unused
      found allowed is_campaign targets owner =
    let db₁ = apply_command out remote caller workflow_id action run next db in
    let row = command_row out.now action next run in
    let kept = after_commit-Keeps out remote caller workflow_id action row db₁ in
    let moved = apply_command-run_status out remote caller workflow_id action db run next found in
    let follows =
      apply_command-campaign_status out remote caller workflow_id action db run next target campaign
        is_campaign targets owner in
    rw (found, command_workflow)
      (rw (unused, command_workflow)
        (rw (allowed, command_fresh)
          (rw
            (view_state out remote caller workflow_id action
              (after_commit out remote caller workflow_id action row db₁))
            (
              kept.1 ∙ moved,
              ap (λ cs. Option.map (λ c. c.status) (get (λ c. c.id) target cs)) kept.0 ∙ follows,
            ))))

-- Retrying a cancelled run whose campaign was cancelled sets the campaign running again, although no
-- command on the campaign itself leads out of that status.
pub command_workflow-revives :
    (out : Outside) (remote : Remote) (caller : Caller) (workflow_id : ℕ) (db : Db)
    (run : WorkflowRun) (target : ℕ) (campaign : Campaign)
    → find_audit caller.idempotency_key db ≡ none
    → get (λ r. r.id) workflow_id db.workflows ≡ some run
    → run.status ≡ WorkflowStatus.cancelled
    → is_campaign_run run ≡ true
    → run.target_id ≡ some target
    → get (λ c. c.id) target db.campaigns ≡ some campaign
    → campaign.status ≡ CampaignStatus.cancelled
    → ((a : Action) → ¬ ((t : CampaignStatus) × (campaign_transition campaign.status a ≡ ok t)))
      × (campaign_status target (command_workflow out remote caller workflow_id retry db).1
          ≡ some CampaignStatus.running)
command_workflow-revives out remote caller workflow_id db run target campaign unused found cancelled
      is_campaign targets owner closed =
    (
      λ a (t, moved). cancelled_stuck a t (rw closed at moved),
      (command_workflow-mirrors out remote caller workflow_id retry db run WorkflowStatus.pending
          target campaign unused found (rw cancelled) is_campaign targets owner).1,
    )
