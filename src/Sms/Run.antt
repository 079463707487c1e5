-- ===== src/Sms/Run.antt =====
-- app/services/sms_sequence.py: the loop of `run_due_sms_sequences`.
pub mod Effect
pub mod Safety
mod Induct
pub mod Once
pub mod Quota
mod Samples
use auto_bot_lbc_pj.Prelude.{
  ℕ, zero, suc, ◌+◌, ◌%◌, String, Bool, true, false, not, ◌&&◌, ◌||◌, List, [], ◌∷◌, ◌++◌, Option,
  none, some, leb, ltb, ◌==◌, if◌then◌else◌, length, take, any, find, select, get, modify, Result,
  ok, err, ◌>>=◌, or_raise, commit,
}
use auto_bot_lbc_pj.Models.{
  SequenceStatus, SmsStatus, SmsDirection, SmsResult, contact_is_active, sms_is_sent,
}
use auto_bot_lbc_pj.Tables.{
  Campaign, CampaignMessageTemplate, Contact, Listing, sequence_key, SmsLog, SmsSequence, Db,
}
use auto_bot_lbc_pj.Sms.Blacklist.{is_blacklisted}
use auto_bot_lbc_pj.Sms.Messages.{Settings, within_window, render_sms_body, step_count}
use auto_bot_lbc_pj.Sms.Sequences.{
  Sim, World, Error, provider_error, format_error, is_due, templates_for, choose_template,
  message_title, message_url, allowed_sims, day_start, is_eligible, key_is, with_step, finish_step,
  next_template, Tally, sent, skipped, stopped, write_sequence, stop_sequence,
}

-- What a step needs once its sequence, contact and campaign are known to be good.
pub record Step : Type 0 where
  pub sequence : SmsSequence
  pub contact : Contact
  pub campaign : Campaign
  pub listing : Option Listing
  pub sim : Sim
  pub variant_key : String
  pub body : String

abbrev pub listing_id : Option Listing → Option ℕ
listing_id none = none
listing_id (some l) = some l.id

-- The row that a sent message leaves.
unfoldable pub sent_log : World → Step → ℕ → SmsLog
sent_log world p cost = record {
  sim_id = p.sim.id;
  to_phone = p.contact.phone_e164;
  listing_id = listing_id p.listing;
  body = p.body;
  status = SmsStatus.sent;
  cost_eur = some cost;
  campaign_id = some p.campaign.id;
  contact_id = some p.contact.id;
  direction = SmsDirection.outbound;
  sequence_step = some p.sequence.next_step;
  variant_key = some p.variant_key;
  classification = none;
  idempotency_key = some (sequence_key p.sequence.id p.sequence.next_step);
  received_at = none;
  sent_at = world.db_now;
}

module _ (settings : Settings) (world : World) (current : ℕ) where
  -- The branch for a step whose message is already in the log: an exception leaves the loop.
  pub resume_step : Step → Db → Result Error (Tally × Db)
  resume_step p db = do
    template ← next_template p.campaign p.sequence.next_step db
    ok (
      skipped,
      write_sequence p.sequence.id (finish_step p.sequence.next_step template p.sequence.created_at)
          db,
    )

  -- After the message went out: the log row, the step, then the query for the next template, whose
  -- exception the `except` takes with what was assigned before it.
  pub record_sent : Step → ℕ → Db → Tally × Db
  record_sent p cost db =
      let logged = record db { sms_log = db.sms_log ++ sent_log world p cost ∷ [] } in
      elim (next_template p.campaign p.sequence.next_step db) [
        | err _ ↦ (skipped, write_sequence p.sequence.id (with_step p.sequence.next_step) logged)
        | ok template ↦ (
          sent,
          write_sequence p.sequence.id
              (finish_step p.sequence.next_step template p.sequence.created_at) logged,
        )
      ]

  pub send_step : Step → Db → Tally × Db
  unfolding record_sent
  send_step p db = elim (world.send_sms p.sequence.id p.sim.id p.contact.phone_e164 p.body) [
    | none ↦ (skipped, db)
    | some result ↦
        if sms_is_sent result.status then record_sent p result.cost db else (skipped, db)
  ]

  -- From the SIM on: nothing, what a logged step left undone, or the message.
  pub deliver : Step → Db → Result Error (Tally × Db)
  unfolding resume_step send_step
  deliver p db =
      if any (key_is (sequence_key p.sequence.id p.sequence.next_step)) db.sms_log
      then resume_step p db
      else ok (send_step p db)

  abbrev pub render : SmsSequence → Option Listing → String → Result Error String
  render s listing template = do
    body ←
        or_raise
          (render_sms_body settings world.texts template (message_url s listing)
            (message_title s listing))
          format_error
    ok (world.texts.tidy body)

  -- `eligible_sims[0]`, if any.
  pub with_sim : (Sim → Step) → Option Sim → Db → Result Error (Tally × Db)
  unfolding deliver
  with_sim step none db = ok (skipped, db)
  with_sim step (some sim) db = deliver (step sim) db

  -- The text, then the SIM: no eligible SIM leaves the sequence for a later run.
  pub prepare : SmsSequence → Contact → Campaign → Option Listing → Db → Result Error (Tally × Db)
  unfolding with_sim
  prepare s contact campaign listing db = do
    let chosen =
        choose_template (world.digest_byte s.id s.next_step) s.next_step
          (templates_for campaign.id s.next_step db)
    body ← render s listing chosen.1
    sims ← or_raise (world.get_sim_list s.id) provider_error
    with_sim
        (λ sim. record {
          sequence = s;
          contact = contact;
          campaign = campaign;
          listing = listing;
          sim = sim;
          variant_key = chosen.0;
          body = body;
        })
        (find (is_eligible campaign (allowed_sims listing db) (day_start current) db.sms_log) sims)
        db

  abbrev pub listing_of : SmsSequence → Db → Option Listing
  listing_of s db = elim s.listing_id [ none ↦ none | some id ↦ get (λ l. l.id) id db.listings ]

  abbrev pub campaign_of : SmsSequence → Db → Option Campaign
  campaign_of s db = elim s.campaign_id [ none ↦ none | some id ↦ get (λ c. c.id) id db.campaigns ]

  -- The body of the loop for a sequence whose contact and campaign exist.
  pub visit_known : SmsSequence → Contact → Campaign → Db → Result Error (Tally × Db)
  unfolding prepare
  visit_known s contact campaign db =
      if not (contact_is_active contact.status) || is_blacklisted contact.phone_e164 db
      then stop_sequence s SequenceStatus.cancelled db
      else if leb step_count s.next_step
      then stop_sequence s SequenceStatus.completed db
      else prepare s contact campaign (listing_of s db) db

  pub visit : SmsSequence → Db → Result Error (Tally × Db)
  unfolding visit_known
  visit s db = elim (get (λ c. c.id) s.contact_id db.contacts) [
    | none ↦ stop_sequence s SequenceStatus.cancelled db
    | some contact ↦ elim (campaign_of s db) [
      | none ↦ stop_sequence s SequenceStatus.cancelled db
      | some campaign ↦ visit_known s contact campaign db
    ]
  ]

  pub visit_all : List SmsSequence → Db → Result Error (List Tally × Db)
  visit_all [] db = ok ([], db)
  visit_all (s ∷ rest) db = do
    (tally, db₁) ← visit s db
    (tallies, db₂) ← visit_all rest db₁
    ok (tally ∷ tallies, db₂)

-- The answer: its status, then how many sequences were processed, sent to and stopped.
pub record RunResult : Type 0 where
  pub outside_window : Bool
  pub processed : ℕ
  pub sent : ℕ
  pub stopped : ℕ

abbrev pub is_sent : Tally → Bool
is_sent sent = true
is_sent _ = false

abbrev pub is_stopped : Tally → Bool
is_stopped stopped = true
is_stopped _ = false

abbrev pub run_result : List Tally → RunResult
run_result tallies = record {
  outside_window = false;
  processed = length tallies;
  sent = length (select is_sent tallies);
  stopped = length (select is_stopped tallies);
}

abbrev pub outside_result : RunResult
outside_result = record { outside_window = true; processed = 0; sent = 0; stopped = 0 }

pub run_due_sms_sequences :
    Settings → World → (current limit : ℕ) → Db → Result Error RunResult × Db
unfolding visit_all
run_due_sms_sequences settings world current limit db =
    if within_window settings (world.paris_hour current)
    then commit db (
        visit_all settings world current (take limit (select (is_due current) db.sequences)) db
        >>= λ (tallies, db'). ok (run_result tallies, db'))
    else (ok outside_result, db)
