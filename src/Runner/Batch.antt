-- ===== src/Runner/Batch.antt =====
-- app/services/campaign_runner.py: `run_campaign`, its first and last session around the loop.
use auto_bot_lbc_pj.Prelude.{
  ℕ, suc, ◌+◌, Bool, true, false, ◌&&◌, List, Option, none, some, ltb, ◌==◌, if◌then◌else◌, get,
  modify, select, any, take, length, Result, ok, err,
}
use auto_bot_lbc_pj.Models.{CampaignStatus, WorkflowStatus, ListingStatus}
use auto_bot_lbc_pj.Tables.{Campaign, WorkflowRun, Listing, Db}
use auto_bot_lbc_pj.Sms.Messages.{Settings}
use auto_bot_lbc_pj.Runner.{
  Sim, Error, not_found, provider_error, World, batch_size, start_quotas, Progress, visit_all,
  campaign_to_workflow_status,
}
use auto_bot_lbc_pj.Runner.Window.{is_within_sms_window, next_sms_window_start}

abbrev pub may_run : CampaignStatus → Bool
may_run CampaignStatus.pending = true
may_run CampaignStatus.running = true
may_run _ = false

abbrev has_phone : Listing → Bool
has_phone l = elim l.phone [ none ↦ false | some _ ↦ true ]

abbrev is_new : Listing → Bool
is_new l = elim l.status [ ListingStatus.nouvelle ↦ true | _ ↦ false ]

abbrev assigned_to : ℕ → Listing → Bool
assigned_to campaign_id l = elim l.campaign_id [ none ↦ false | some c ↦ c == campaign_id ]

abbrev pub waiting_listings : ℕ → Db → List Listing
waiting_listings campaign_id db =
    let open_ones = select (λ l. has_phone l && is_new l) db.listings in
    if any (assigned_to campaign_id) db.listings
    then select (assigned_to campaign_id) open_ones
    else open_ones

abbrev pub fetched_listings : ℕ → Db → List Listing
fetched_listings campaign_id db = take (suc batch_size) (waiting_listings campaign_id db)

abbrev begin_campaign : Campaign → Campaign
begin_campaign c = record c {
  status = CampaignStatus.running;
  scheduled_at = none;
  last_error = none;
}

abbrev or_now : ℕ → Option ℕ → Option ℕ
or_now now none = some now
or_now now (some t) = some t

abbrev begin_run : ℕ → ℕ → WorkflowRun → WorkflowRun
begin_run now total r = record r {
  status = WorkflowStatus.running;
  started_at = or_now now r.started_at;
  progress_total = some total;
}

abbrev pub on_run : Option ℕ → (WorkflowRun → WorkflowRun) → Db → Db
on_run none f db = db
on_run (some w) f db = record db { workflows = modify (λ r. r.id) w f db.workflows }

unfoldable pub begin_batch : ℕ → ℕ → Option ℕ → Db → Db
begin_batch now campaign_id workflow_id db =
    on_run workflow_id (begin_run now (length (select (λ l. has_phone l && is_new l) db.listings)))
      (record db { campaigns = modify (λ c. c.id) campaign_id begin_campaign db.campaigns })

-- The status that the batch leaves, in the order of the source's tests.
unfoldable pub final_status : Progress → Bool → CampaignStatus
final_status p has_more_backlog = elim p.interrupted [
  | some status ↦ status
  | none ↦
      if p.failed_for_credit
      then CampaignStatus.failed
      else if p.paused_for_quota
      then CampaignStatus.paused
      else if has_more_backlog
      then CampaignStatus.running
      else CampaignStatus.completed
]

abbrev pub finish_campaign : Campaign → Progress → Bool → Campaign → Campaign
finish_campaign before p has_more c = record c {
  status = final_status p has_more;
  sent = before.sent + p.sent;
  failed = before.failed + p.failed;
  scheduled_at = none;
  last_error = p.last_error;
}

abbrev is_over : WorkflowStatus → Bool
is_over WorkflowStatus.completed = true
is_over WorkflowStatus.failed = true
is_over WorkflowStatus.cancelled = true
is_over _ = false

-- The checkpoint, which nothing reads, is not kept.
abbrev pub finish_run : ℕ → Progress → Bool → WorkflowRun → WorkflowRun
finish_run now p has_more r =
    let status = campaign_to_workflow_status (final_status p has_more) in
    record r {
      progress_current = r.progress_current + (p.sent + p.failed);
      batch_number = suc r.batch_number;
      status = status;
      finished_at = if is_over status then some now else r.finished_at;
    }

unfoldable pub finish_batch : ℕ → Campaign → Option ℕ → Progress → Bool → Db → Db
finish_batch now campaign workflow_id p has_more db =
    on_run workflow_id (finish_run now p has_more) (record db {
      campaigns = modify (λ c. c.id) campaign.id (finish_campaign campaign p has_more) db.campaigns;
    })

pub data RunStatus : Type 0 where
  deferred : ℕ → RunStatus
  status : CampaignStatus → RunStatus

pub record Answer : Type 0 where
  pub status : RunStatus
  pub sent : ℕ
  pub failed : ℕ

abbrev pub start_progress : List Sim → Progress
start_progress sims = record {
  sent = 0;
  failed = 0;
  quotas = start_quotas sims;
  interrupted = none;
  paused_for_quota = false;
  failed_for_credit = false;
  last_error = none;
}

abbrev pub answer_of : Progress → Bool → Answer
answer_of p has_more = record {
  status = RunStatus.status (final_status p has_more);
  sent = p.sent;
  failed = p.failed;
}

-- The sessions after the first one, whose queries gave the listings.
abbrev pub conclude :
    World → Campaign → Option ℕ → Bool → Result Error Progress × Db → Result Error Answer × Db
conclude world campaign workflow_id has_more (err e, db) = (err e, db)
conclude world campaign workflow_id has_more (ok p, db) =
    (ok (answer_of p has_more), finish_batch world.now campaign workflow_id p has_more db)

unfoldable pub run_batch : Settings → World → Campaign → Option ℕ → Db → Result Error Answer × Db
run_batch settings world campaign workflow_id db =
    let fetched = fetched_listings campaign.id db in
    let begun = begin_batch world.now campaign.id workflow_id db in
    elim world.get_sim_list [
      | none ↦ (err provider_error, begun)
      | some sims ↦ conclude world campaign workflow_id (ltb batch_size (length fetched)) (
          visit_all settings world
            (record { campaign = campaign; workflow_id = workflow_id; sims = sims })
            (take batch_size fetched) (start_progress sims) begun)
    ]

abbrev pub defer : Settings → World → ℕ → Db → Result Error Answer × Db
defer settings world campaign_id db =
    let start = world.from_paris (next_sms_window_start settings (world.to_paris world.now)) in
    (
      ok (record { status = deferred start; sent = 0; failed = 0 }),
      record db {
        campaigns =
            modify (λ c. c.id) campaign_id
              (λ c. record c { scheduled_at = some start; last_error = none }) db.campaigns;
      },
    )

unfoldable pub run_campaign : Settings → World → ℕ → Option ℕ → Db → Result Error Answer × Db
run_campaign settings world campaign_id workflow_id db =
    if is_within_sms_window settings (world.to_paris world.now)
    then (elim (get (λ c. c.id) campaign_id db.campaigns) [
      | none ↦ (err not_found, db)
      | some campaign ↦
          if may_run campaign.status then run_batch settings world campaign workflow_id db else (
            ok (record {
              status = RunStatus.status campaign.status;
              sent = campaign.sent;
              failed = campaign.failed;
            }),
            db,
          )
    ])
    else defer settings world campaign_id db
