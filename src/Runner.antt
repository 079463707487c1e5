-- ===== src/Runner.antt =====
-- app/services/campaign_runner.py: one batch of a campaign. Between two listings other processes may change
-- campaigns and runs; the log, the listings and the blacklist are this run's alone. Sleeping changes nothing.
mod Window
mod Choice
mod Sent
mod Batch
mod Outcome
mod Row
mod Samples
use auto_bot_lbc_pj.Prelude.{
  ℕ, suc, ◌+◌, ◌-◌, String, Bool, true, false, ◌&&◌, ◌||◌, List, [], ◌∷◌, ◌++◌, Option, none, some,
  ltb, ◌==◌, if◌then◌else◌, get, modify, select, any, take, length, Result, ok, err, str_eq,
}
use auto_bot_lbc_pj.Models.{
  CampaignStatus, WorkflowStatus, ListingStatus, SmsStatus, SmsDirection, SmsResult,
  campaign_is_running, sms_is_sent,
}
use auto_bot_lbc_pj.Tables.{Campaign, WorkflowRun, Listing, SmsLog, Db}
use auto_bot_lbc_pj.Sms.Blacklist.{is_blacklisted}
use auto_bot_lbc_pj.Sms.Messages.{Settings, Texts, render_sms_body}
use auto_bot_lbc_pj.Runner.Window.{is_within_sms_window, next_sms_window_start}

-- An entry of `get_sim_list`; a missing quota is `none`.
pub record Sim : Type 0 where
  pub id : String
  pub is_active : Bool
  pub quota_remaining : Option ℕ

pub data SendError : Type 0 where
  insufficient_credit : String → SendError
  other_error : String → SendError

-- `ValueError` of a missing campaign, an exception of `get_sim_list`, one of `format`.
pub data Error : Type 0 where
  not_found provider_error format_error : Error

-- Outside the repository: the clock and its time in Paris and back, the provider (the call for a listing),
-- Python's text functions, the clock that dates log rows, and what other processes do before a listing.
pub record World : Type 0 where
  pub now : ℕ
  pub to_paris : ℕ → ℕ
  pub from_paris : ℕ → ℕ
  pub get_sim_list : Option (List Sim)
  pub send_sms : (listing : ℕ) (sim phone body : String) → Result SendError SmsResult
  pub texts : Texts
  pub sent_at : (listing : ℕ) → ℕ
  pub campaigns_before : (listing : ℕ) → List Campaign → List Campaign
  pub workflows_before : (listing : ℕ) → List WorkflowRun → List WorkflowRun

abbrev pub batch_size : ℕ
batch_size = 200

-- `daily_quotas`: a SIM that is not a key has 0; of two entries with one id the later counts.
abbrev pub Quotas : Type 0
Quotas = String → ℕ

abbrev quota_or_default : Option ℕ → ℕ
quota_or_default none = 15
quota_or_default (some q) = q

abbrev pub set_quota : String → ℕ → Quotas → Quotas
set_quota id q quotas k = if str_eq id k then q else quotas k

abbrev fill_quotas : List Sim → Quotas → Quotas
fill_quotas [] quotas = quotas
fill_quotas (s ∷ rest) quotas =
    fill_quotas rest (set_quota s.id (quota_or_default s.quota_remaining) quotas)

abbrev pub start_quotas : List Sim → Quotas
start_quotas sims = fill_quotas sims (λ k. 0)

abbrev pub spend : String → Quotas → Quotas
spend id quotas = set_quota id (quotas id - 1) quotas

abbrev pub better : Quotas → Sim → Option Sim → Option Sim
better quotas s none = some s
better quotas s (some b) = if ltb (quotas s.id) (quotas b.id) then some b else some s

-- `max(eligible, key=...)`: the first of the greatest.
abbrev pub best : Quotas → List Sim → Option Sim
best quotas [] = none
best quotas (s ∷ rest) = better quotas s (best quotas rest)

unfoldable pub select_best_sim : List Sim → Quotas → Option Sim
select_best_sim sims quotas = best quotas (select (λ s. s.is_active && ltb 0 (quotas s.id)) sims)

-- `_interrupted_campaign_status`.
abbrev pub stops_campaign : CampaignStatus → Bool
stops_campaign CampaignStatus.paused = true
stops_campaign CampaignStatus.cancelled = true
stops_campaign _ = false

abbrev run_stop : WorkflowStatus → Option CampaignStatus
run_stop WorkflowStatus.paused = some CampaignStatus.paused
run_stop WorkflowStatus.cancelled = some CampaignStatus.cancelled
run_stop _ = none

unfoldable pub interrupted_campaign_status : ℕ → ℕ → Db → Option CampaignStatus
interrupted_campaign_status campaign_id workflow_id db =
    elim (get (λ c. c.id) campaign_id db.campaigns) [
      | none ↦ some CampaignStatus.cancelled
      | some c ↦ elim (get (λ r. r.id) workflow_id db.workflows) [
        | none ↦ some CampaignStatus.cancelled
        | some r ↦ if stops_campaign c.status then some c.status else run_stop r.status
      ]
    ]

abbrev pub campaign_to_workflow_status : CampaignStatus → WorkflowStatus
campaign_to_workflow_status CampaignStatus.pending = WorkflowStatus.pending
campaign_to_workflow_status CampaignStatus.running = WorkflowStatus.running
campaign_to_workflow_status CampaignStatus.paused = WorkflowStatus.paused
campaign_to_workflow_status CampaignStatus.completed = WorkflowStatus.completed
campaign_to_workflow_status CampaignStatus.failed = WorkflowStatus.failed
campaign_to_workflow_status CampaignStatus.cancelled = WorkflowStatus.cancelled

-- The loop's variables.
pub record Progress : Type 0 where
  pub sent : ℕ
  pub failed : ℕ
  pub quotas : Quotas
  pub interrupted : Option CampaignStatus
  pub paused_for_quota : Bool
  pub failed_for_credit : Bool
  pub last_error : Option String

-- What the loop reads and does not change.
pub record Job : Type 0 where
  pub campaign : Campaign
  pub workflow_id : Option ℕ
  pub sims : List Sim

abbrev pub text_or_empty : Option String → String
text_or_empty none = ""
text_or_empty (some s) = s

unfoldable pub sent_log : World → Job → Listing → Sim → String → ℕ → SmsLog
sent_log world job listing sim body cost = record {
  sim_id = sim.id;
  to_phone = text_or_empty listing.phone;
  listing_id = some listing.id;
  body = body;
  status = SmsStatus.sent;
  cost_eur = some cost;
  campaign_id = some job.campaign.id;
  contact_id = none;
  direction = SmsDirection.outbound;
  sequence_step = none;
  variant_key = none;
  classification = none;
  idempotency_key = none;
  received_at = none;
  sent_at = world.sent_at listing.id;
}

abbrev pub mark_sent : ℕ → Db → Db
mark_sent id db = record db {
  listings =
      modify (λ l. l.id) id (λ l. record l { status = ListingStatus.sms_envoye }) db.listings;
}

-- Whether the loop goes on, its variables and the database after a listing.
abbrev pub Turn : Type 0
Turn = (Bool × Progress) × Db

abbrev pub failed_turn : Progress → Db → Turn
failed_turn p db = ((true, record p { failed = suc p.failed }), db)

unfoldable pub after_send :
    World → Job → Listing → Sim → String → Progress → Db → Result SendError SmsResult → Turn
after_send world job listing sim body p db (ok result) =
    if sms_is_sent result.status
    then (
      (true, record p { sent = suc p.sent; quotas = spend sim.id p.quotas }),
      mark_sent listing.id (record db {
        sms_log = db.sms_log ++ sent_log world job listing sim body result.cost ∷ [];
      }),
    )
    else failed_turn p db
after_send world job listing sim body p db (err (insufficient_credit e)) =
    ((false, record p { failed = suc p.failed; failed_for_credit = true; last_error = some e }), db)
after_send world job listing sim body p db (err (other_error e)) =
    ((true, record p { failed = suc p.failed; last_error = some e }), db)

abbrev pub body_of : Settings → World → Job → Listing → Option String
body_of settings world job listing =
    render_sms_body settings world.texts job.campaign.message_template listing.url
      (text_or_empty listing.title)

-- A listing that is neither interrupted nor blacklisted.
unfoldable pub serve : Settings → World → Job → Listing → Progress → Db → Result Error Turn
serve settings world job listing p db = elim (select_best_sim job.sims p.quotas) [
  | none ↦ ok ((false, record p { paused_for_quota = true }), db)
  | some sim ↦ elim (body_of settings world job listing) [
    | none ↦ err format_error
    | some body ↦ ok (
        after_send world job listing sim body p db
          (world.send_sms listing.id sim.id (text_or_empty listing.phone) body))
  ]
]

abbrev pub interruption : Job → Db → Option CampaignStatus
interruption job db = elim job.workflow_id [
  | none ↦ none
  | some w ↦ interrupted_campaign_status job.campaign.id w db
]

unfoldable pub visit : Settings → World → Job → Listing → Progress → Db → Result Error Turn
visit settings world job listing p db = elim (interruption job db) [
  | some status ↦ ok ((false, record p { interrupted = some status }), db)
  | none ↦
      if is_blacklisted (text_or_empty listing.phone) db
      then ok ((true, p), db)
      else serve settings world job listing p db
]

abbrev pub meanwhile : World → ℕ → Db → Db
meanwhile world listing db = record db {
  campaigns = world.campaigns_before listing db.campaigns;
  workflows = world.workflows_before listing db.workflows;
}

unfoldable pub visit_all :
    Settings → World → Job → List Listing → Progress → Db → Result Error Progress × Db
visit_all settings world job [] p db = (ok p, db)
visit_all settings world job (listing ∷ rest) p db =
    let seen = meanwhile world listing.id db in
    elim (visit settings world job listing p seen) [
      | err e ↦ (err e, seen)
      | ok turn ↦
          let after = visit_all settings world job rest turn.0.1 turn.1 in
          if turn.0.0 then after else (ok turn.0.1, turn.1)
    ]
