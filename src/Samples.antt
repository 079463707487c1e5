-- ===== src/Samples.antt =====
-- Small rows and databases on which the tests run.
use auto_bot_lbc_pj.Prelude.{ℕ, String, true, [], none, some}
use auto_bot_lbc_pj.Models.{CampaignStatus, WorkflowStatus, ContactStatus, SequenceStatus}
use auto_bot_lbc_pj.Tables.{
  Campaign, CampaignMessageTemplate, WorkflowRun, Contact, SmsSequence, Db,
}

abbrev pub empty_db : Db
empty_db = record {
  campaigns = [];
  templates = [];
  workflows = [];
  audit = [];
  contacts = [];
  sequences = [];
  sms_log = [];
  blacklist = [];
  listings = [];
  sector_sims = [];
  webhook_events = [];
  activations = [];
  accounts = [];
}

abbrev pub campaign : CampaignStatus → Campaign
campaign status = record {
  id = 1;
  type = "both";
  message_template = "{title} {url}";
  quota_per_sim = 2;
  search_criteria = [];
  status = status;
  sent = 0;
  failed = 0;
  scheduled_at = none;
  last_error = none;
  created_at = 0;
}

abbrev pub run : WorkflowStatus → WorkflowRun
run status = record {
  id = 7;
  idempotency_key = "first-0";
  workflow_type = "campaign.sms";
  target_type = some "campaign";
  target_id = some 1;
  status = status;
  progress_current = 0;
  progress_total = none;
  batch_number = 0;
  batch_size = some 200;
  celery_task_id = none;
  checkpoint = [];
  last_error_code = none;
  last_error = none;
  initiated_by = some "operator";
  started_at = none;
  finished_at = none;
  created_at = 0;
}

abbrev pub contact : Contact
contact = record {
  id = 3;
  phone_e164 = "+33612345678";
  status = ContactStatus.active;
  last_classification = none;
  last_inbound_at = none;
}

abbrev pub sequence : SmsSequence
sequence = record {
  id = 5;
  contact_id = 3;
  listing_id = none;
  campaign_id = some 1;
  next_step = 0;
  next_due_at = some 1_000_000;
  status = SequenceStatus.active;
  context_json = [];
  created_at = 1_000_000;
}

abbrev pub template : ℕ → String → CampaignMessageTemplate
template id key = record {
  id = id;
  campaign_id = 1;
  channel = "sms";
  step = 1;
  variant_key = key;
  delay_days = 7;
  send_hour = 10;
  send_minute = 0;
  body = "{title} {url}";
  enabled = true;
}
