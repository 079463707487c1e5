-- ===== src/Runner/Samples.antt =====
-- A batch of three listings with two SIMs, and the theorems at it.
use auto_bot_lbc_pj.Prelude.{
  ℕ, String, true, false, List, ◌∷◌, [], ◌+◌, ◌≤◌, ◌<◌, ltb, ◌&&◌, select, none, some, ◌≡◌, refl,
  ok, length, All, arith,
}
use auto_bot_lbc_pj.Models.{CampaignStatus, ListingSource, ListingStatus, SmsStatus, SmsDirection}
use auto_bot_lbc_pj.Tables.{Listing, Campaign, Db}
use auto_bot_lbc_pj.Samples.{empty_db, campaign}
use auto_bot_lbc_pj.Sms.Blacklist.{is_blacklisted}
use auto_bot_lbc_pj.Sms.Messages.{Texts, default_settings, render_sms_body, seconds_per_day}
use auto_bot_lbc_pj.Runner.{
  Sim, World, Quotas, batch_size, start_quotas, select_best_sim, visit_all, visit, serve,
  after_send, sent_log,
}
use auto_bot_lbc_pj.Runner.Batch.{
  run_campaign, run_batch, begin_batch, finish_batch, final_status, Answer, status,
}
use auto_bot_lbc_pj.Runner.Window.{
  is_within_sms_window, next_sms_window_start, next_sms_window_start-is_within_sms_window,
}
use auto_bot_lbc_pj.Runner.Choice.{select_best_sim_chosen}
use auto_bot_lbc_pj.Runner.Row.{Reported, run_batch-Reported}
use auto_bot_lbc_pj.Runner.Outcome.{Sends, run_campaign-Sends, run_batch-sent}

abbrev texts : Texts
texts = record {
  format = λ t url title. some url;
  contains = λ a b. false;
  lower = λ s. s;
  tidy = λ s. s;
}

abbrev sims : List Sim
sims =
    record { id = "a"; is_active = true; quota_remaining = some 1 }
    ∷ record { id = "b"; is_active = true; quota_remaining = some 1 }
    ∷ []

abbrev world : World
world = record {
  now = 36_000;
  to_paris = λ t. t;
  from_paris = λ t. t;
  get_sim_list = some sims;
  send_sms = λ l sim phone body. ok (record { status = SmsStatus.sent; cost = 5 });
  texts = texts;
  sent_at = λ l. 36_000 + l;
  campaigns_before = λ l cs. cs;
  workflows_before = λ l rs. rs;
}

abbrev listing : ℕ → String → Listing
listing id phone = record {
  id = id;
  source = ListingSource.lbc;
  url = "https://example.org/1";
  sector_id = none;
  contact_id = none;
  title = some "Car";
  price = none;
  km = none;
  location = none;
  phone = some phone;
  raw_data = none;
  make = none;
  model = none;
  year = none;
  status = ListingStatus.nouvelle;
  campaign_id = none;
  created_at = 0;
}

abbrev db : Db
db = record empty_db {
  campaigns = campaign CampaignStatus.pending ∷ [];
  listings = listing 1 "x" ∷ listing 2 "y" ∷ listing 3 "z" ∷ [];
}

abbrev answer : Answer
answer = record { status = status CampaignStatus.paused; sent = 2; failed = 0 }

program : Unit {0}
unfolding run_campaign run_batch begin_batch finish_batch final_status visit_all visit serve
    after_send sent_log select_best_sim render_sms_body is_blacklisted
program = tt

-- Two SIMs with one message each serve two of the three listings, and the campaign is paused.
quota_ends_the_batch :
    (run_batch default_settings world (campaign CampaignStatus.pending) none db).0 ≡ ok answer
unfolding program
quota_ends_the_batch = refl

run_campaign-Sends_example : Sends sims db (run_campaign default_settings world 1 none db).1
run_campaign-Sends_example = run_campaign-Sends default_settings world 1 none db sims refl

run_batch-sent_example :
    (length (run_batch default_settings world (campaign CampaignStatus.pending) none db).1.sms_log
      ≡ length db.sms_log + answer.sent)
    × (answer.sent + answer.failed ≤ batch_size)
run_batch-sent_example =
    run_batch-sent default_settings world (campaign CampaignStatus.pending) none db sims answer refl
      quota_ends_the_batch

abbrev cancelled_db : Db
cancelled_db = record db { campaigns = campaign CampaignStatus.cancelled ∷ [] }

abbrev quotas : Quotas
quotas = start_quotas (record { id = "c"; is_active = false; quota_remaining = some 9 } ∷ sims)

abbrev first : Sim
first = record { id = "a"; is_active = true; quota_remaining = some 1 }

a_is_chosen : select_best_sim sims quotas ≡ some first
unfolding select_best_sim
a_is_chosen = refl

select_best_sim_chosen_example :
    (first.is_active ≡ true)
    × (0 < quotas first.id)
    × All
        (λ s. quotas s.id ≤ quotas first.id)
        (select (λ s. s.is_active && ltb 0 (quotas s.id)) sims)
select_best_sim_chosen_example = select_best_sim_chosen sims quotas first a_is_chosen

next_sms_window_start-is_within_sms_window_example :
    (75_600 < next_sms_window_start default_settings 75_600)
    × (next_sms_window_start default_settings 75_600 ≤ 75_600 + seconds_per_day)
    × (is_within_sms_window default_settings (next_sms_window_start default_settings 75_600) ≡ true)
next_sms_window_start-is_within_sms_window_example =
    next_sms_window_start-is_within_sms_window default_settings 75_600 (omega arith) (omega arith)
      refl

abbrev sent_db : Db
sent_db = (run_campaign default_settings world 1 none db).1

two_sent : length sent_db.sms_log ≡ 2
unfolding program
two_sent = refl

abbrev logged_db : Db
logged_db = record db {
  sms_log =
      record {
        sim_id = "a";
        to_phone = "x";
        listing_id = none;
        body = "hello";
        status = SmsStatus.sent;
        cost_eur = none;
        campaign_id = none;
        contact_id = none;
        direction = SmsDirection.outbound;
        sequence_step = none;
        variant_key = none;
        classification = none;
        idempotency_key = none;
        received_at = none;
        sent_at = 36_000;
      }
      ∷ [];
}

-- Another process cancels the campaign before the first listing; the batch has no run that it could ask.
abbrev cancelling : World
cancelling = record world { campaigns_before = λ l cs. campaign CampaignStatus.cancelled ∷ [] }

abbrev paused_row : Campaign
paused_row = record (campaign CampaignStatus.cancelled) {
  status = CampaignStatus.paused;
  sent = 2;
  failed = 0;
  scheduled_at = none;
  last_error = none;
}

-- The cancellation is overwritten.
run_batch-Reported_example : Reported (campaign CampaignStatus.pending) answer paused_row
unfolding program
run_batch-Reported_example =
    run_batch-Reported cancelling (campaign CampaignStatus.pending) none default_settings db answer
      paused_row refl refl
