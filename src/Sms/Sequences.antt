-- ===== src/Sms/Sequences.antt =====
-- app/services/sms_sequence.py: `run_due_sms_sequences`, which sends the due step of each sequence.
use text.Mathlib.Text.{◌==◌ as str_eq}
use auto_bot_lbc_pj.Prelude.{
  lookup_text, ℕ, zero, suc, ◌*◌, ◌/◌, ◌%◌, min, String, Bool, true, false, ◌&&◌, List, [], ◌∷◌,
  Option, none, some, leb, ltb, ◌==◌, if◌then◌else◌, length, select, modify, Result, ok, err,
}
use auto_bot_lbc_pj.Models.{SequenceStatus, SmsResult, sequence_is_active, is_outbound}
use auto_bot_lbc_pj.Tables.{
  Campaign, CampaignMessageTemplate, Listing, SectorSim, SmsKey, sequence_key, inbound_key, SmsLog,
  SmsSequence, Db,
}
use auto_bot_lbc_pj.Sms.Messages.{
  Texts, seconds_per_day, step_count, next_due_at, template_due, choose_sms_variant,
}

-- Equality of keys: the prefix and every part agree.
abbrev pub key_eq : SmsKey → SmsKey → Bool
key_eq (sequence_key s i) (sequence_key t j) = s == t && i == j
key_eq (inbound_key a) (inbound_key b) = str_eq a b
key_eq _ _ = false

-- An entry of `boundaries.get_sim_list()`.
pub record Sim : Type 0 where
  pub id : String
  pub status : Option String

-- Outside the repository, for one run: the Paris hour of a time (zoneinfo), the provider's answers while a
-- sequence is served (`none` when the call raises), sha256, Python's text functions and the
-- database's clock, which dates the rows of `sms_log`.
pub record World : Type 0 where
  pub paris_hour : ℕ → ℕ
  pub get_sim_list : (sequence : ℕ) → Option (List Sim)
  pub send_sms : (sequence : ℕ) (sim phone body : String) → Option SmsResult
  pub digest_byte : (sequence step : ℕ) → ℕ
  pub texts : Texts
  pub db_now : ℕ

-- What leaves `run_due_sms_sequences`: `MultipleResultsFound`, an exception of the provider, or one of
-- `format`.
pub data Error : Type 0 where
  multiple_results provider_error format_error : Error

abbrev pub is_due : ℕ → SmsSequence → Bool
is_due current s =
    sequence_is_active s.status
    && (elim s.next_due_at [ none ↦ false | some due ↦ leb due current ])

-- The enabled SMS templates of a campaign for a step.
abbrev pub templates_for : ℕ → ℕ → Db → List CampaignMessageTemplate
templates_for campaign_id step db =
    select
      (λ t.
        t.campaign_id == campaign_id && (str_eq t.channel "sms" && (t.step == step && t.enabled)))
      db.templates

-- `scalar_one_or_none()`.
abbrev pub one_or_none {ℓ} : {A : Type ℓ} → List A → Result Error (Option A)
one_or_none [] = ok none
one_or_none (x ∷ []) = ok (some x)
one_or_none (x ∷ y ∷ _) = err multiple_results

abbrev pub nth? {ℓ} : {A : Type ℓ} → List A → ℕ → Option A
nth? [] i = none
nth? (x ∷ xs) zero = some x
nth? (x ∷ xs) (suc i) = nth? xs i

-- The key and the text of the message of a step: a template of the campaign, or a stock variant.
unfoldable pub choose_template : (byte step : ℕ) → List CampaignMessageTemplate → String × String
choose_template byte step custom = elim (nth? custom (byte % length custom)) [
  | some t ↦ (t.variant_key, t.body)
  | none ↦ choose_sms_variant step byte
]

-- `value or default`.
abbrev pub or_default : Option String → String → String
or_default none d = d
or_default (some s) d = if str_eq s "" then d else s

unfoldable pub message_title : SmsSequence → Option Listing → String
message_title s (some l) = or_default (some (or_default l.title "votre vehicule")) "votre demande"
message_title s none = or_default (lookup_text "title" s.context_json) "votre demande"

unfoldable pub message_url : SmsSequence → Option Listing → String
message_url s (some l) = l.url
message_url s none = or_default (lookup_text "url" s.context_json) ""

abbrev pub limits : List SectorSim → List (String × ℕ)
limits [] = []
limits (r ∷ rs) = (r.sim_id, r.daily_limit) ∷ limits rs

-- `{row.sim_id: row.daily_limit ...}` for the listing's sector.
abbrev pub allowed_sims : Option Listing → Db → List (String × ℕ)
allowed_sims none db = []
allowed_sims (some l) db = elim l.sector_id [
  | none ↦ []
  | some sector ↦ limits (select (λ r. r.sector_id == sector) db.sector_sims)
]

abbrev pub lookup_limit : String → List (String × ℕ) → Option ℕ
lookup_limit key [] = none
lookup_limit key ((k, v) ∷ rest) = if str_eq k key then some v else lookup_limit key rest

-- `current.replace(hour=0, minute=0, second=0, microsecond=0)`.
abbrev pub day_start : ℕ → ℕ
day_start current = current / seconds_per_day * seconds_per_day

abbrev pub sent_today : String → ℕ → SmsLog → Bool
sent_today sim_id today l =
    str_eq l.sim_id sim_id && (is_outbound l.direction && leb today l.sent_at)

abbrev pub used_today : String → ℕ → List SmsLog → ℕ
used_today sim_id today log = length (select (sent_today sim_id today) log)

-- `min(campaign.quota_per_sim, allowed.get(item["id"], campaign.quota_per_sim))`.
abbrev pub sim_quota : Campaign → List (String × ℕ) → String → ℕ
sim_quota campaign allowed sim_id = elim (lookup_limit sim_id allowed) [
  | none ↦ campaign.quota_per_sim
  | some limit ↦ min campaign.quota_per_sim limit
]

abbrev pub sim_is_active : Sim → Bool
sim_is_active sim = elim sim.status [ none ↦ false | some s ↦ str_eq s "active" ]

-- `allowed and item["id"] not in allowed` does not exclude the SIM.
abbrev pub is_allowed : List (String × ℕ) → String → Bool
is_allowed [] sim_id = true
is_allowed (a ∷ rest) sim_id = elim (lookup_limit sim_id (a ∷ rest)) [
  | none ↦ false
  | some _ ↦ true
]

-- The test by which a SIM enters `eligible_sims`.
unfoldable pub is_eligible : Campaign → List (String × ℕ) → ℕ → List SmsLog → Sim → Bool
is_eligible campaign allowed today log sim =
    sim_is_active sim
    && (is_allowed allowed sim.id
        && ltb (used_today sim.id today log) (sim_quota campaign allowed sim.id))

abbrev pub key_is : SmsKey → SmsLog → Bool
key_is key l = elim l.idempotency_key [ none ↦ false | some k ↦ key_eq k key ]

-- `sequence.current_step = step` alone.
abbrev pub with_step : ℕ → SmsSequence → SmsSequence
with_step step s = record s { next_step = suc step }

-- The three assignments that end a step, `next_due_at` from the template of the next step, if any.
unfoldable pub finish_step : ℕ → Option CampaignMessageTemplate → ℕ → SmsSequence → SmsSequence
unfolding next_due_at template_due
finish_step step next_template created_at s = elim next_template [
  | some t ↦ record s {
    next_step = suc step;
    next_due_at = some (template_due t created_at);
    status = SequenceStatus.active;
  }
  | none ↦
      if ltb (suc step) step_count
      then record s {
        next_step = suc step;
        next_due_at = some (next_due_at (suc step) created_at);
        status = SequenceStatus.active;
      }
      else record s { next_step = suc step; next_due_at = none; status = SequenceStatus.completed }
]

-- The query for the next step's template, made only if there is a next step.
abbrev pub next_template : Campaign → ℕ → Db → Result Error (Option CampaignMessageTemplate)
next_template campaign step db =
    if ltb (suc step) step_count
    then one_or_none (templates_for campaign.id (suc step) db)
    else ok none

-- What one sequence adds to the counters.
pub data Tally : Type 0 where
  stopped sent skipped : Tally

abbrev pub write_sequence : ℕ → (SmsSequence → SmsSequence) → Db → Db
write_sequence id f db = record db { sequences = modify (λ s. s.id) id f db.sequences }

abbrev pub stop_sequence : SmsSequence → SequenceStatus → Db → Result Error (Tally × Db)
stop_sequence s status db = ok (stopped, write_sequence s.id (λ r. record r { status = status }) db)
