-- ===== src/Sms/Run/Effect.antt =====
-- What serving one sequence may do to the database: change sequences, and log one message that was sent
-- under all the guards of the loop.
use auto_bot_lbc_pj.Prelude.{
  ℕ, String, Bool, true, false, List, [], ◌∷◌, ◌++◌, Option, some, find, get, ◌≡◌, refl, inl, inr,
  arith, any, Bool-cases, Option-cases, Result-cases, Returns, find_holds, ◌<◌, leb,
}
use auto_bot_lbc_pj.Models.{sms_is_sent, contact_is_active}
use auto_bot_lbc_pj.Tables.{Campaign, Contact, Listing, sequence_key, SmsSequence, Db}
use auto_bot_lbc_pj.Sms.Blacklist.{is_blacklisted}
use auto_bot_lbc_pj.Sms.Messages.{Settings, step_count}
use auto_bot_lbc_pj.Sms.Sequences.{
  Sim, World, templates_for, choose_template, allowed_sims, day_start, is_eligible, key_is,
  next_template, Tally,
}
use auto_bot_lbc_pj.Sms.Run.{
  Step, sent_log, resume_step, record_sent, send_step, deliver, with_sim, render, prepare,
  listing_of, campaign_of, visit_known, visit,
}

module _ (world : World) (current : ℕ) where
  -- The SIM was eligible, and the step is one of the eight and was not logged before.
  pub record Guarded (p : Step) (db : Db) : Type 0 where
    pub receiver : get (λ c. c.id) p.sequence.contact_id db.contacts ≡ some p.contact
    pub owner : (id : ℕ) × (get (λ c. c.id) id db.campaigns ≡ some p.campaign)
    pub active : contact_is_active p.contact.status ≡ true
    pub unlisted : is_blacklisted p.contact.phone_e164 db ≡ false
    pub eligible :
        is_eligible p.campaign (allowed_sims p.listing db) (day_start current) db.sms_log p.sim
        ≡ true
    pub within : p.sequence.next_step < step_count
    pub unlogged : any (key_is (sequence_key p.sequence.id p.sequence.next_step)) db.sms_log ≡ false

  pub data Effect (db db' : Db) : Type 0 where
    quiet : (seqs : List SmsSequence) → db' ≡ record db { sequences = seqs } → Effect db db'
    logs :
        (seqs : List SmsSequence) (p : Step) (cost : ℕ)
        → Guarded p db
        → db' ≡ record db { sequences = seqs; sms_log = db.sms_log ++ sent_log world p cost ∷ [] }
        → Effect db db'

module _ (settings : Settings) (world : World) (current : ℕ) where
  abbrev Effects : Db → Tally → Db → Type 0
  Effects db _ db' = Effect world current db db'

  resume_step-Effect :
      (p : Step) (db : Db) → Returns (Effects db) (resume_step settings world current p db)
  unfolding resume_step
  resume_step-Effect p db = elim (Result-cases (next_template p.campaign p.sequence.next_step db)) [
    | inl (t, e) ↦ rw (e, resume_step) (quiet _ refl)
    | inr (x, e) ↦ rw (e, resume_step) tt
  ]

  record_sent-Effect :
      (p : Step) (cost : ℕ) (db : Db)
      → Guarded world current p db
      → Effect world current db (record_sent settings world current p cost db).1
  unfolding record_sent
  record_sent-Effect p cost db g =
      elim (Result-cases (next_template p.campaign p.sequence.next_step db)) [
        | inl (t, e) ↦ rw (e, record_sent) (logs _ p cost g refl)
        | inr (x, e) ↦ rw (e, record_sent) (logs _ p cost g refl)
      ]

  send_step-Effect :
      (p : Step) (db : Db)
      → Guarded world current p db
      → Effect world current db (send_step settings world current p db).1
  unfolding send_step
  send_step-Effect p db g =
      elim (Option-cases (world.send_sms p.sequence.id p.sim.id p.contact.phone_e164 p.body)) [
        | inl e ↦ rw (e, send_step) (quiet db.sequences refl)
        | inr (r, e) ↦
            rw (e, send_step)
              elim (Bool-cases (sms_is_sent r.status)) [
                | inl sent ↦ rw sent (record_sent-Effect p r.cost db g)
                | inr unsent ↦ rw unsent (quiet db.sequences refl)
              ]
      ]

  deliver-Effect :
      (p : Step) (db : Db)
      → (any (key_is (sequence_key p.sequence.id p.sequence.next_step)) db.sms_log ≡ false
          → Guarded world current p db)
      → Returns (Effects db) (deliver settings world current p db)
  unfolding deliver
  deliver-Effect p db g =
      elim (Bool-cases
        (any (key_is (sequence_key p.sequence.id p.sequence.next_step)) db.sms_log)) [
          | inl logged ↦ rw logged (resume_step-Effect p db)
          | inr new ↦ rw new (send_step-Effect p db (g new))
        ]

  with_sim-Effect :
      (step : Sim → Step) (p : Sim → Bool) (sims : List Sim) (db : Db)
      → ((sim : Sim)
          → p sim ≡ true
          → any
              (key_is (sequence_key (step sim).sequence.id (step sim).sequence.next_step))
              db.sms_log
            ≡ false
          → Guarded world current (step sim) db)
      → Returns (Effects db) (with_sim settings world current step (find p sims) db)
  unfolding with_sim
  with_sim-Effect step p sims db g = elim (Option-cases (find p sims)) [
    | inl nobody ↦ rw nobody (quiet db.sequences refl)
    | inr (sim, first) ↦
        rw first (deliver-Effect (step sim) db (g sim (find_holds p sims sim first)))
  ]

  -- `prepare` for a sequence whose contact passed the guards and whose step exists.
  prepare-Effect :
      (s : SmsSequence) (contact : Contact) (campaign : Campaign) (listing : Option Listing)
      (db : Db)
      → get (λ c. c.id) s.contact_id db.contacts ≡ some contact
      → (id : ℕ) × (get (λ c. c.id) id db.campaigns ≡ some campaign)
      → contact_is_active contact.status ≡ true
      → is_blacklisted contact.phone_e164 db ≡ false
      → s.next_step < step_count
      → Returns (Effects db) (prepare settings world current s contact campaign listing db)
  unfolding prepare
  prepare-Effect s contact campaign listing db row owner active unlisted within =
      elim (Result-cases (render settings world current s listing chosen.1)) [
        | inr (e, raised) ↦ rw raised tt
        | inl (body, rendered) ↦ rw rendered elim (Option-cases (world.get_sim_list s.id)) [
          | inl e ↦ rw e tt
          | inr (sims, e) ↦ rw e (
              with_sim-Effect _ eligible sims db (λ sim first. λ new. record {
                receiver = row;
                owner = owner;
                active = active;
                unlisted = unlisted;
                eligible = first;
                within = within;
                unlogged = new;
              }))
        ]
      ]
    where
      chosen : String × String
      chosen =
          choose_template (world.digest_byte s.id s.next_step) s.next_step
            (templates_for campaign.id s.next_step db)

      eligible : Sim → Bool
      eligible = is_eligible campaign (allowed_sims listing db) (day_start current) db.sms_log

  visit_known-Effect :
      (s : SmsSequence) (contact : Contact) (campaign : Campaign) (db : Db)
      → get (λ c. c.id) s.contact_id db.contacts ≡ some contact
      → (id : ℕ) × (get (λ c. c.id) id db.campaigns ≡ some campaign)
      → Returns (Effects db) (visit_known settings world current s contact campaign db)
  unfolding visit_known
  visit_known-Effect s contact campaign db row owner =
      elim (Bool-cases (contact_is_active contact.status)) [
        | inr inactive ↦ rw inactive (quiet _ refl)
        | inl active ↦ rw active elim (Bool-cases (is_blacklisted contact.phone_e164 db)) [
          | inl listed ↦ rw listed (quiet _ refl)
          | inr unlisted ↦ rw unlisted elim (Bool-cases (leb step_count s.next_step)) [
            | inl over ↦ rw over (quiet _ refl)
            | inr within ↦ rw within (
                prepare-Effect s contact campaign (listing_of settings world current s db) db row
                  owner active unlisted (ground arith))
          ]
        ]
      ]

  campaign_of-get :
      (s : SmsSequence) (db : Db) (campaign : Campaign)
      → campaign_of settings world current s db ≡ some campaign
      → (id : ℕ) × (get (λ c. c.id) id db.campaigns ≡ some campaign)
  campaign_of-get s db campaign e = elim (Option-cases s.campaign_id) [
    | inl none_set ↦ let bad = rw none_set at e in cc bad
    | inr (id, given) ↦ (id, rw given at e)
  ]

  pub visit-Effect :
      (s : SmsSequence) (db : Db) → Returns (Effects db) (visit settings world current s db)
  unfolding visit
  visit-Effect s db = elim (Option-cases (get (λ c. c.id) s.contact_id db.contacts)) [
    | inl nobody ↦ rw (nobody, visit) (quiet _ refl)
    | inr (contact, row) ↦
        rw (row, visit)
          elim (Option-cases (campaign_of settings world current s db)) [
            | inl orphan ↦ rw (orphan, visit) (quiet _ refl)
            | inr (campaign, owner) ↦
                rw (owner, visit)
                  (visit_known-Effect s contact campaign db row
                    (campaign_of-get s db campaign owner))
          ]
  ]
