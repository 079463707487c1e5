-- ===== src/Sms/Run/Safety.antt =====
-- To whom `run_due_sms_sequences` writes.
use auto_bot_lbc_pj.Prelude.{
  ℕ, suc, String, true, false, List, [], ◌∷◌, ◌++◌, some, get, ◌≡◌, refl, sym, ◌∙◌, ap, inl, inr,
  arith, Bool-cases, Returns, Returns->>=, All, All-append, All-map, ◌<◌, select, take, commit_ind,
  get_id, length, ◌+◌, ◌≤◌, length-append, length-take_le,
}
use mathlib.Core.List.{append_assoc, append-nil}
use auto_bot_lbc_pj.Models.{contact_is_active}
use auto_bot_lbc_pj.Tables.{Contact, sequence_key, SmsLog, SmsSequence, Db}
use auto_bot_lbc_pj.Sms.Blacklist.{is_blacklisted}
use auto_bot_lbc_pj.Sms.Messages.{Settings, step_count, within_window}
use auto_bot_lbc_pj.Sms.Sequences.{World, is_due}
use auto_bot_lbc_pj.Sms.Run.{sent_log, visit, visit_all, run_due_sms_sequences}
use auto_bot_lbc_pj.Sms.Run.Effect.{Effect, quiet, logs, visit-Effect}

-- The message went to an active contact, at its number, which is not on the blacklist, and carries the key of
-- one of the eight steps of a sequence of that contact.
pub record Allowed (db : Db) (l : SmsLog) : Type 0 where
  pub contact_id : ℕ
  pub contact : Contact
  pub row : get (λ c. c.id) contact_id db.contacts ≡ some contact
  pub to_contact : l.to_phone ≡ contact.phone_e164
  pub addressed : l.contact_id ≡ some contact_id
  pub active : contact_is_active contact.status ≡ true
  pub unlisted : is_blacklisted l.to_phone db ≡ false
  pub sequence : ℕ
  pub step : ℕ
  pub within : step < step_count
  pub keyed : l.idempotency_key ≡ some (sequence_key sequence step)

-- At most `n` messages were logged, all of them allowed; nobody's status and no entry of the blacklist changed.
pub record Outcome (n : ℕ) (db db' : Db) : Type 0 where
  pub contacts : db'.contacts ≡ db.contacts
  pub blacklist : db'.blacklist ≡ db.blacklist
  pub new : List SmsLog
  pub logged : db'.sms_log ≡ db.sms_log ++ new
  pub allowed : All (Allowed db) new
  pub bounded : length new ≤ n

is_blacklisted-cong :
    (phone : String) (db db' : Db)
    → db'.blacklist ≡ db.blacklist
    → is_blacklisted phone db' ≡ is_blacklisted phone db
unfolding is_blacklisted
is_blacklisted-cong phone db db' e = rw e

Allowed-cong :
    (db db' : Db) (l : SmsLog)
    → db'.contacts ≡ db.contacts
    → db'.blacklist ≡ db.blacklist
    → Allowed db' l
    → Allowed db l
Allowed-cong db db' l cs bl a = record {
  contact_id = a.contact_id;
  contact = a.contact;
  row = ap (get (λ c. c.id) a.contact_id) (sym cs) ∙ a.row;
  to_contact = a.to_contact;
  addressed = a.addressed;
  active = a.active;
  unlisted = sym (is_blacklisted-cong l.to_phone db db' bl) ∙ a.unlisted;
  sequence = a.sequence;
  step = a.step;
  within = a.within;
  keyed = a.keyed;
}

Outcome-refl : (db : Db) → Outcome 0 db db
Outcome-refl db = record {
  contacts = refl;
  blacklist = refl;
  new = [];
  logged = sym (append-nil db.sms_log);
  allowed = tt;
  bounded = omega arith;
}

Outcome-trans : (m n : ℕ) (a b c : Db) → Outcome m a b → Outcome n b c → Outcome (m + n) a c
Outcome-trans m n a b c p q = record {
  contacts = q.contacts ∙ p.contacts;
  blacklist = q.blacklist ∙ p.blacklist;
  new = p.new ++ q.new;
  logged = q.logged ∙ ap (λ l. l ++ q.new) p.logged ∙ append_assoc a.sms_log p.new q.new;
  allowed = All-append (Allowed a) p.new q.new p.allowed (
      All-map (Allowed b) (Allowed a) q.new (λ l. Allowed-cong a b l p.contacts p.blacklist)
        q.allowed);
  bounded = omega (arith, length-append p.new q.new, p.bounded, q.bounded);
}

weaken : (m n : ℕ) (db db' : Db) → m ≤ n → Outcome m db db' → Outcome n db db'
weaken m n db db' h o = record {
  contacts = o.contacts;
  blacklist = o.blacklist;
  new = o.new;
  logged = o.logged;
  allowed = o.allowed;
  bounded = omega (arith, o.bounded);
}

module _ (settings : Settings) (world : World) (current : ℕ) where
  Effect-Outcome : (db db' : Db) → Effect world current db db' → Outcome 1 db db'
  unfolding sent_log is_blacklisted
  Effect-Outcome db db' (quiet seqs e) = rw e (record {
    contacts = refl;
    blacklist = refl;
    new = [];
    logged = sym (append-nil db.sms_log);
    allowed = tt;
    bounded = omega arith;
  })
  Effect-Outcome db db' (logs seqs p cost g e) = rw e (record {
    contacts = refl;
    blacklist = refl;
    new = sent_log world p cost ∷ [];
    logged = refl;
    allowed = (
      record {
        contact_id = p.sequence.contact_id;
        contact = p.contact;
        row = g.receiver;
        to_contact = refl;
        addressed =
            ap some (get_id (λ c. c.id) p.sequence.contact_id db.contacts p.contact g.receiver);
        active = g.active;
        unlisted = g.unlisted;
        sequence = p.sequence.id;
        step = p.sequence.next_step;
        within = g.within;
        keyed = refl;
      },
      tt,
    );
    bounded = omega arith;
  })

  visit_all-Outcome :
      (ss : List SmsSequence) (db : Db)
      → Returns (λ _. Outcome (length ss) db) (visit_all settings world current ss db)
  unfolding visit_all
  visit_all-Outcome [] db = Outcome-refl db
  visit_all-Outcome (s ∷ ss) db =
      Returns->>= (λ _. Effect world current db) (λ _. Outcome (suc (length ss)) db)
        (visit settings world current s db) _ (visit-Effect settings world current s db)
        λ tally db₁ e₁.
          Returns->>= (λ _. Outcome (length ss) db₁) (λ _. Outcome (suc (length ss)) db)
            (visit_all settings world current ss db₁) _ (visit_all-Outcome ss db₁)
            λ tallies db₂ o₂.
              let o = Outcome-trans 1 (length ss) db db₁ db₂ (Effect-Outcome db db₁ e₁) o₂ in
              weaken (1 + length ss) (suc (length ss)) db db₂ (omega arith) o

abbrev due : (current limit : ℕ) → Db → List SmsSequence
due current limit db = take limit (select (is_due current) db.sequences)

-- A run leaves contacts and blacklist as they are, logs at most `limit` messages, each to an active contact
-- that is not blacklisted and under the key of one of the eight steps, and logs none outside the window.
pub run_due_sms_sequences-allowed :
    (settings : Settings) (world : World) (current limit : ℕ) (db : Db)
    → let db' = (run_due_sms_sequences settings world current limit db).1 in
      Outcome limit db db'
      × ((within_window settings (world.paris_hour current) ≡ false) → db' ≡ db)
unfolding run_due_sms_sequences
run_due_sms_sequences-allowed settings world current limit db =
    elim (Bool-cases (within_window settings (world.paris_hour current))) [
      | inr closed ↦ rw closed (weaken 0 limit db db (omega arith) (Outcome-refl db), λ _. refl)
      | inl open_now ↦ rw open_now (
        commit_ind (Outcome limit db) db _ (weaken 0 limit db db (omega arith) (Outcome-refl db)) (
            Returns->>= (λ _. Outcome (length (due current limit db)) db) (λ _. Outcome limit db)
              (visit_all settings world current (due current limit db) db) _
              (visit_all-Outcome settings world current (due current limit db) db)
              (λ _ db' o.
                weaken (length (due current limit db)) limit db db' (length-take_le limit _) o)),
        λ closed. cc,
      )
    ]
