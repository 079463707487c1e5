-- ===== src/Models.antt =====
-- app/models.py: the enumerations that the services store and compare, and the tests on them.
-- A member that stands alone in a comparison of the source has its test here, by clauses.
use auto_bot_lbc_pj.Prelude.{Bool, true, false, ℕ, String}

pub data CampaignStatus : Type 0 where
  pending running paused completed failed cancelled : CampaignStatus

pub data WorkflowStatus : Type 0 where
  pending running paused completed failed cancelled : WorkflowStatus

pub data ContactStatus : Type 0 where
  active paused converted invalid do_not_contact : ContactStatus

pub data SequenceStatus : Type 0 where
  active paused completed cancelled : SequenceStatus

pub data SmsStatus : Type 0 where
  sent failed queued received : SmsStatus

pub data SmsDirection : Type 0 where
  outbound inbound : SmsDirection

pub data SmsClassification : Type 0 where
  positive negative stop information ambiguous invalid : SmsClassification

pub data ListingStatus : Type 0 where
  nouvelle sms_envoye reponse traite archive : ListingStatus

pub data PhoneActivationStatus : Type 0 where
  reserved waiting received used cancelled expired refunded failed : PhoneActivationStatus

pub data PhoneActivationOrigin : Type 0 where
  automatic manual : PhoneActivationOrigin

pub data AccountStatus : Type 0 where
  en_creation en_chauffe actif ralenti bloque quarantaine : AccountStatus

pub data DatadomeTrustLevel : Type 0 where
  low medium high : DatadomeTrustLevel

-- `SmsResult`: what `boundaries.send_sms` answers. A cost is only stored, in a fixed unit.
pub record SmsResult : Type 0 where
  pub status : SmsStatus
  pub cost : ℕ

-- `ActivationOrder`: what `boundaries.buy_number` answers; `expires` is a unix time, 0 if unknown.
pub record ActivationOrder : Type 0 where
  pub id : String
  pub phone : String
  pub country : String
  pub service : String
  pub cost : ℕ
  pub expires : ℕ

abbrev pub campaign_is_running : CampaignStatus → Bool
campaign_is_running CampaignStatus.running = true
campaign_is_running _ = false

-- The statuses of a run that still counts as active.
pub data ListingSource : Type 0 where
  lbc la_centrale : ListingSource

abbrev pub source_value : ListingSource → String
source_value lbc = "leboncoin"
source_value la_centrale = "la_centrale"

abbrev pub workflow_is_active : WorkflowStatus → Bool
workflow_is_active WorkflowStatus.pending = true
workflow_is_active WorkflowStatus.running = true
workflow_is_active WorkflowStatus.paused = true
workflow_is_active _ = false

abbrev pub contact_is_active : ContactStatus → Bool
contact_is_active ContactStatus.active = true
contact_is_active _ = false

abbrev pub sequence_is_active : SequenceStatus → Bool
sequence_is_active SequenceStatus.active = true
sequence_is_active _ = false

abbrev pub sms_is_sent : SmsStatus → Bool
sms_is_sent SmsStatus.sent = true
sms_is_sent _ = false

abbrev pub is_outbound : SmsDirection → Bool
is_outbound SmsDirection.outbound = true
is_outbound SmsDirection.inbound = false

-- `TERMINAL_STATUSES` and `ACTIVE_STATUSES` of phone_operations.py.
abbrev pub activation_is_terminal : PhoneActivationStatus → Bool
activation_is_terminal PhoneActivationStatus.reserved = false
activation_is_terminal PhoneActivationStatus.waiting = false
activation_is_terminal PhoneActivationStatus.received = false
activation_is_terminal _ = true

abbrev pub activation_is_active : PhoneActivationStatus → Bool
activation_is_active PhoneActivationStatus.reserved = true
activation_is_active PhoneActivationStatus.waiting = true
activation_is_active _ = false

abbrev pub activation_is_received : PhoneActivationStatus → Bool
activation_is_received PhoneActivationStatus.received = true
activation_is_received _ = false
