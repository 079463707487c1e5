-- ===== src/Tables.antt =====
-- app/tables.py: the rows that the modelled services read and write, and the database as their
-- tables. A UUID is a number (its text, where a column holds that, is the same number); a time is in
-- seconds since the epoch; `NULL` is `none`. JSON columns that are only stored are association lists.
use auto_bot_lbc_pj.Prelude.{ℕ, ℤ, String, Bool, List, Option}
use auto_bot_lbc_pj.Models.{
  CampaignStatus, WorkflowStatus, ContactStatus, SequenceStatus, SmsStatus, SmsDirection,
  SmsClassification, ListingSource, ListingStatus, PhoneActivationStatus, PhoneActivationOrigin,
  AccountStatus, DatadomeTrustLevel,
}

pub record Campaign : Type 0 where
  pub id : ℕ
  pub type : String
  pub message_template : String
  pub quota_per_sim : ℕ
  pub search_criteria : List (String × String)
  pub status : CampaignStatus
  pub sent : ℕ
  pub failed : ℕ
  pub scheduled_at : Option ℕ
  pub last_error : Option String
  pub created_at : ℕ

pub record CampaignMessageTemplate : Type 0 where
  pub id : ℕ
  pub campaign_id : ℕ
  pub channel : String
  pub step : ℕ
  pub variant_key : String
  pub delay_days : ℕ
  -- `send_time`, "HH:MM", as its two numbers.
  pub send_hour : ℕ
  pub send_minute : ℕ
  pub body : String
  pub enabled : Bool

pub record WorkflowRun : Type 0 where
  pub id : ℕ
  pub idempotency_key : String
  pub workflow_type : String
  pub target_type : Option String
  pub target_id : Option ℕ
  pub status : WorkflowStatus
  pub progress_current : ℕ
  pub progress_total : Option ℕ
  pub batch_number : ℕ
  pub batch_size : Option ℕ
  pub celery_task_id : Option String
  pub checkpoint : List (String × String)
  pub last_error_code : Option String
  pub last_error : Option String
  pub initiated_by : Option String
  pub started_at : Option ℕ
  pub finished_at : Option ℕ
  pub created_at : ℕ

pub record AuditEvent : Type 0 where
  pub id : ℕ
  pub actor : String
  pub role : String
  pub action : String
  pub target_type : Option String
  pub target_id : Option ℕ
  pub idempotency_key : Option String
  pub input_summary : List (String × String)
  pub result_status : String
  pub workflow_run_id : Option ℕ

pub record Contact : Type 0 where
  pub id : ℕ
  pub phone_e164 : String
  pub status : ContactStatus
  pub last_classification : Option SmsClassification
  pub last_inbound_at : Option ℕ

-- `next_step` is the source's `current_step + 1`: its initial -1 is 0 here.
pub record SmsSequence : Type 0 where
  pub id : ℕ
  pub contact_id : ℕ
  pub listing_id : Option ℕ
  pub campaign_id : Option ℕ
  pub next_step : ℕ
  pub next_due_at : Option ℕ
  pub status : SequenceStatus
  pub context_json : List (String × String)
  pub created_at : ℕ

-- The keys that the services write: f"sequence:{sequence}:{step}" and f"inbound:{event_key}".
pub data SmsKey : Type 0 where
  sequence_key : ℕ → ℕ → SmsKey
  inbound_key : String → SmsKey

pub record SmsLog : Type 0 where
  pub sim_id : String
  pub to_phone : String
  pub listing_id : Option ℕ
  pub body : String
  pub status : SmsStatus
  pub cost_eur : Option ℕ
  pub campaign_id : Option ℕ
  pub contact_id : Option ℕ
  pub direction : SmsDirection
  pub sequence_step : Option ℕ
  pub variant_key : Option String
  pub classification : Option SmsClassification
  pub idempotency_key : Option SmsKey
  pub received_at : Option ℕ
  pub sent_at : ℕ

pub record BlacklistEntry : Type 0 where
  pub phone : String
  pub source_sim : String
  pub source_project : String

pub record Listing : Type 0 where
  pub id : ℕ
  pub source : ListingSource
  pub url : String
  pub sector_id : Option ℕ
  pub contact_id : Option ℕ
  pub title : Option String
  pub price : Option ℤ
  pub km : Option ℤ
  pub location : Option String
  pub phone : Option String
  pub raw_data : Option String
  pub make : Option String
  pub model : Option String
  pub year : Option ℤ
  pub status : ListingStatus
  pub campaign_id : Option ℕ
  pub created_at : ℕ

pub record SectorSim : Type 0 where
  pub sector_id : ℕ
  pub sim_id : String
  pub daily_limit : ℕ

-- An item of the provider's list (`SmsToolsWebhookItem` with its `SmsToolsMessage`), and the payloads that the SMS
-- webhook accepts: that list, or a dictionary, whose values are taken as texts (a falsy one is empty).
pub record SmsWebhookItem : Type 0 where
  pub webhook_id : String
  pub webhook_type : String
  pub id : String
  pub date_utc : String
  pub sender : String
  pub receiver : String
  pub content : String

pub data Payload : Type 0 where
  items : List SmsWebhookItem → Payload
  fields : List (String × String) → Payload

-- A stored item is a JSON object: its texts by their keys, and those of the object under "message".
pub record StoredItem : Type 0 where
  pub texts : List (String × String)
  pub message : List (String × String)

pub data StoredPayload : Type 0 where
  stored_items : List StoredItem → StoredPayload
  stored_fields : List (String × String) → StoredPayload

pub record WebhookEvent : Type 0 where
  pub event_key : String
  pub source : String
  pub processed : Bool
  pub payload : StoredPayload
  pub created_at : ℕ

pub record PhoneActivation : Type 0 where
  pub id : ℕ
  pub provider_order_id : String
  pub phone_e164 : String
  pub country : String
  pub service : String
  pub cost : ℕ
  pub status : PhoneActivationStatus
  pub origin : PhoneActivationOrigin
  pub platform_account_id : Option ℕ
  pub workflow_id : Option String
  pub expires_at : ℕ
  pub received_at : Option ℕ
  pub used_at : Option ℕ
  pub received_sms : Option String
  pub received_code : Option String
  pub last_error : Option String
  pub created_at : ℕ
  pub updated_at : ℕ

-- The columns that warm_up.py and workflow_control.py use.
pub record PlatformAccount : Type 0 where
  pub id : ℕ
  pub status : AccountStatus
  pub score_sante : ℕ
  pub erreurs_24h : ℕ
  pub quota_actuel : ℕ
  pub datadome_trust_level : DatadomeTrustLevel
  pub date_creation : ℕ
  pub derniere_action : Option ℕ
  pub deleted_at : Option ℕ
  pub browser_use_profile_id : Option String
  pub browser_use_session_id : Option String

pub record Db : Type 0 where
  pub campaigns : List Campaign
  pub templates : List CampaignMessageTemplate
  pub workflows : List WorkflowRun
  pub audit : List AuditEvent
  pub contacts : List Contact
  pub sequences : List SmsSequence
  pub sms_log : List SmsLog
  pub blacklist : List BlacklistEntry
  pub listings : List Listing
  pub sector_sims : List SectorSim
  pub webhook_events : List WebhookEvent
  pub activations : List PhoneActivation
  pub accounts : List PlatformAccount
