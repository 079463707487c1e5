-- ===== src/Sms/Run/Samples.antt =====
-- Runs of the sequences on a small database, and the theorems at them.
use Prim.Native.String.{◌++◌ as text_append}
use auto_bot_lbc_pj.Prelude.{ℕ, false, [], ◌∷◌, none, some, ◌≡◌, refl, arith, length}
use auto_bot_lbc_pj.Models.{CampaignStatus, SmsStatus, SmsResult}
use auto_bot_lbc_pj.Tables.{Db}
use auto_bot_lbc_pj.Samples.{empty_db, campaign, contact, sequence, template}
use auto_bot_lbc_pj.Sms.Blacklist.{is_blacklisted}
use auto_bot_lbc_pj.Sms.Messages.{
  Texts, default_settings, within_window, render_sms_body, choose_sms_variant, next_due_at,
  template_due,
}
use auto_bot_lbc_pj.Sms.Sequences.{
  Sim, World, day_start, is_eligible, choose_template, message_title, message_url, finish_step,
}
use auto_bot_lbc_pj.Sms.Run.{Step, sent_log, visit_all, run_due_sms_sequences, visit}
use auto_bot_lbc_pj.Sms.Run.Safety.{Outcome, run_due_sms_sequences-allowed}
use auto_bot_lbc_pj.Sms.Run.Once.{LoggedOnce, run_due_sms_sequences-once}
use auto_bot_lbc_pj.Sms.Run.Quota.{WithinQuota, run_due_sms_sequences-WithinQuota}

abbrev texts : Texts
texts = record {
  format = λ template url title. some (text_append title url);
  contains = λ text part. false;
  lower = λ s. s;
  tidy = λ s. s;
}

abbrev sim : Sim
sim = record { id = "sim-1"; status = some "active" }

-- The provider sends everything; it is ten o'clock in Paris.
abbrev world : World
world = record {
  paris_hour = λ t. 10;
  get_sim_list = λ s. some (sim ∷ []);
  send_sms = λ s sim phone body. some (record { status = SmsStatus.sent; cost = 4 });
  digest_byte = λ s step. 0;
  texts = texts;
  db_now = 1_000_100;
}

abbrev db : Db
db = record empty_db {
  campaigns = campaign CampaignStatus.running ∷ [];
  contacts = contact ∷ [];
  sequences = sequence ∷ [];
}

abbrev run_at : ℕ → Db → Db
run_at now d = (run_due_sms_sequences default_settings world now 100 d).1

program : Unit {0}
unfolding run_due_sms_sequences visit_all visit is_blacklisted choose_template message_title
    message_url render_sms_body choose_sms_variant is_eligible finish_step sent_log next_due_at
    template_due
program = tt

first_step_sent : length (run_at 1_000_100 db).sms_log ≡ 1
unfolding program
first_step_sent = refl

-- The next step is due seven days later, not in the same hour.
not_twice : length (run_at 1_003_000 (run_at 1_000_100 db)).sms_log ≡ 1
unfolding program
not_twice = refl

second_step_sent : length (run_at 1_604_800 (run_at 1_000_100 db)).sms_log ≡ 2
unfolding program
second_step_sent = refl

-- With two templates for the second step it goes out at once.
abbrev variants_db : Db
variants_db = record db { templates = template 1 "a" ∷ template 2 "b" ∷ [] }

both_at_once : length (run_at 1_003_000 (run_at 1_000_100 variants_db)).sms_log ≡ 2
unfolding program
both_at_once = refl

run_due_sms_sequences-allowed_example :
    Outcome 100 db (run_at 1_000_100 db)
    × (within_window default_settings 10 ≡ false → run_at 1_000_100 db ≡ db)
run_due_sms_sequences-allowed_example =
    run_due_sms_sequences-allowed default_settings world 1_000_100 100 db

run_due_sms_sequences-once_example : LoggedOnce (run_at 1_000_100 db).sms_log
run_due_sms_sequences-once_example =
    run_due_sms_sequences-once default_settings world 1_000_100 100 db (λ s i. omega arith)

run_due_sms_sequences-WithinQuota_example :
    WithinQuota 2 (day_start 1_000_100) (run_at 1_000_100 db)
run_due_sms_sequences-WithinQuota_example =
    run_due_sms_sequences-WithinQuota default_settings world 1_000_100 100 2 db
      (record { quotas = (omega arith, tt); sent = λ s. omega arith })

abbrev step : Step
step = record {
  sequence = sequence;
  contact = contact;
  campaign = campaign CampaignStatus.running;
  listing = none;
  sim = sim;
  variant_key = "a";
  body = "hello";
}

abbrev delivered : SmsResult
delivered = record { status = SmsStatus.sent; cost = 4 }
