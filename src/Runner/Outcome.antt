-- ===== src/Runner/Outcome.antt =====
-- What `run_campaign` leaves: the messages, the counts and the campaign's status.
use mathlib.Core.List.{append-nil}
use auto_bot_lbc_pj.Prelude.{
  ℕ, ◌+◌, ◌≤◌, Bool, String, List, [], ◌++◌, Option, none, some, length, take, length-append,
  length-take_le, Result, ok, err, ◌≡◌, ◌∙◌, refl, sym, ap, subst, arith, inl, inr, All, All-map,
  Option-cases, Bool-cases, get, ltb,
}
use auto_bot_lbc_pj.Tables.{Campaign, SmsLog, Db}
use auto_bot_lbc_pj.Sms.Messages.{Settings}
use auto_bot_lbc_pj.Runner.{Sim, Error, World, batch_size, start_quotas, Progress, visit_all}
use auto_bot_lbc_pj.Runner.Batch.{
  run_campaign, run_batch, conclude, Answer, begin_batch, finish_batch, start_progress,
  fetched_listings, may_run, answer_of,
}
use auto_bot_lbc_pj.Runner.Sent.{
  sent_from, Unlisted, Unlisted-blacklist, Effect, Ends, visit_all-Effect,
}
use auto_bot_lbc_pj.Runner.Window.{is_within_sms_window}

-- Messages that a batch may have logged.
pub record Sends (sims : List Sim) (db db' : Db) : Type 0 where
  pub logged : List SmsLog
  pub log : db'.sms_log ≡ db.sms_log ++ logged
  pub unlisted : All (Unlisted db) logged
  pub few : length logged ≤ batch_size
  pub quotas : (sim : String) → sent_from sim logged ≤ start_quotas sims sim

nothing_sent : (sims : List Sim) (db db' : Db) → db'.sms_log ≡ db.sms_log → Sends sims db db'
nothing_sent sims db db' same = record {
  logged = [];
  log = same ∙ sym (append-nil db.sms_log);
  unlisted = tt;
  few = omega arith;
  quotas = λ sim. omega arith;
}

begin_batch-sms_log :
    (now id : ℕ) (w : Option ℕ) (db : Db)
    → ((begin_batch now id w db).sms_log ≡ db.sms_log)
      × ((begin_batch now id w db).blacklist ≡ db.blacklist)
unfolding begin_batch
begin_batch-sms_log now id none db = (refl, refl)
begin_batch-sms_log now id (some w) db = (refl, refl)

finish_batch-sms_log :
    (now : ℕ) (c : Campaign) (w : Option ℕ) (p : Progress) (more : Bool) (db : Db)
    → (finish_batch now c w p more db).sms_log ≡ db.sms_log
unfolding finish_batch
finish_batch-sms_log now c none p more db = refl
finish_batch-sms_log now c (some w) p more db = refl

conclude-sms_log :
    (world : World) (c : Campaign) (w : Option ℕ) (more : Bool) (r : Result Error Progress × Db)
    → (conclude world c w more r).1.sms_log ≡ r.1.sms_log
conclude-sms_log world c w more (err e, db) = refl
conclude-sms_log world c w more (ok p, db) = finish_batch-sms_log world.now c w p more db

conclude_ok :
    (world : World) (c : Campaign) (w : Option ℕ) (more : Bool) (r : Result Error Progress × Db)
    (a : Answer)
    → (conclude world c w more r).0 ≡ ok a
    → (p : Progress) × (r.0 ≡ ok p) × (a ≡ answer_of p more)
conclude_ok world c w more (err e, db) a h = cc
conclude_ok world c w more (ok p, db) a h = (p, refl, cc)

-- The loop's effect, from the database that the first session left.
module _ (settings : Settings) (world : World) (c : Campaign) (w : Option ℕ) (db : Db)
    (sims : List Sim) where
  abbrev looped : Result Error Progress × Db
  looped =
      visit_all settings world (record { campaign = c; workflow_id = w; sims = sims })
        (take batch_size (fetched_listings c.id db)) (start_progress sims)
        (begin_batch world.now c.id w db)

  looped-Effect :
      (p : Progress) × Effect
        (length (take batch_size (fetched_listings c.id db)))
        (start_progress sims)
        (begin_batch world.now c.id w db)
        p
        looped.1
      × Ends looped.0 p
  looped-Effect =
      visit_all-Effect settings world (record { campaign = c; workflow_id = w; sims = sims })
        (take batch_size (fetched_listings c.id db)) (start_progress sims)
        (begin_batch world.now c.id w db)

  conclude-Sends : (more : Bool) → Sends sims db (conclude world c w more looped).1
  conclude-Sends more =
      let begun = begin_batch-sms_log world.now c.id w db in
      let e = looped-Effect.1 in
      record {
        logged = e.logged;
        log = conclude-sms_log world c w more looped ∙ e.log ∙ ap (λ l. l ++ e.logged) begun.0;
        unlisted =
            All-map (Unlisted (begin_batch world.now c.id w db)) (Unlisted db) e.logged
              (λ r. Unlisted-blacklist db (begin_batch world.now c.id w db) r begun.1) e.unlisted;
        few =
            omega (arith, e.counted, e.tried, length-take_le batch_size (fetched_listings c.id db));
        quotas = λ sim. omega (arith, e.quotas sim);
      }

  conclude-sent :
      (more : Bool) (a : Answer)
      → (conclude world c w more looped).0 ≡ ok a
      → (length (conclude world c w more looped).1.sms_log ≡ length db.sms_log + a.sent)
        × (a.sent + a.failed ≤ batch_size)
  conclude-sent more a returned =
      let (p, done, is) = conclude_ok world c w more looped a returned in
      let (q, e, ends) = looped-Effect in
      let same = subst (λ r. Ends r q) done ends in
      let begun = begin_batch-sms_log world.now c.id w db in
      let log = conclude-sms_log world c w more looped ∙ e.log ∙ ap (λ l. l ++ e.logged) begun.0 in
      let sent = ap (λ a. a.sent) is ∙ ap (λ p. p.sent) same in
      let failed = ap (λ a. a.failed) is ∙ ap (λ p. p.failed) same in
      let few = length-take_le batch_size (fetched_listings c.id db) in
      (
        omega (arith, ap length log, length-append db.sms_log e.logged, e.counted, sent),
        omega (arith, e.tried, sent, failed, few),
      )

run_batch-Sends :
    (settings : Settings) (world : World) (c : Campaign) (w : Option ℕ) (db : Db) (sims : List Sim)
    → world.get_sim_list ≡ some sims
    → Sends sims db (run_batch settings world c w db).1
unfolding run_batch
run_batch-Sends settings world c w db sims listed =
    rw (listed, run_batch)
      (conclude-Sends settings world c w db sims
        (ltb batch_size (length (fetched_listings c.id db))))

-- If the provider lists its SIMs, a run of a campaign only adds messages to the log: at most as many as a
-- batch has listings, none to a number on the blacklist, and from each SIM no more than it had left,
-- whatever the provider answers, whatever other processes do to campaigns and runs, and also when the run
-- raises.
pub run_campaign-Sends :
    (settings : Settings) (world : World) (campaign_id : ℕ) (workflow_id : Option ℕ) (db : Db)
    (sims : List Sim)
    → world.get_sim_list ≡ some sims
    → Sends sims db (run_campaign settings world campaign_id workflow_id db).1
unfolding run_campaign
run_campaign-Sends settings world id w db sims listed =
    elim (Bool-cases (is_within_sms_window settings (world.to_paris world.now))) [
      | inr closed ↦ rw (closed, run_campaign) (nothing_sent sims db _ refl)
      | inl within ↦ elim (Option-cases (get (λ c. c.id) id db.campaigns)) [
        | inl missing ↦ rw (within, missing, run_campaign) (nothing_sent sims db db refl)
        | inr (c, there) ↦ elim (Bool-cases (may_run c.status)) [
          | inl open_ ↦
              rw (within, there, open_, run_campaign)
                (run_batch-Sends settings world c w db sims listed)
          | inr over ↦ rw (within, there, over, run_campaign) (nothing_sent sims db db refl)
        ]
      ]
    ]

-- If the provider lists its SIMs and a batch returns, then what it answers as sent is what it has added to
-- the log, and with the failures that is at most the size of a batch.
pub run_batch-sent :
    (settings : Settings) (world : World) (c : Campaign) (w : Option ℕ) (db : Db) (sims : List Sim)
    (a : Answer)
    → world.get_sim_list ≡ some sims
    → (run_batch settings world c w db).0 ≡ ok a
    → (length (run_batch settings world c w db).1.sms_log ≡ length db.sms_log + a.sent)
      × (a.sent + a.failed ≤ batch_size)
unfolding run_batch
run_batch-sent settings world c w db sims a listed returned =
    let more = ltb batch_size (length (fetched_listings c.id db)) in
    rw (listed, run_batch)
      (conclude-sent settings world c w db sims more a (rw (listed, run_batch) at returned))
