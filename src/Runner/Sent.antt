-- ===== src/Runner/Sent.antt =====
-- What the loop of a batch sends.
use mathlib.Core.List.{append_assoc, append-nil}
use auto_bot_lbc_pj.Prelude.{
  ℕ, suc, ◌+◌, ◌≤◌, ◌<◌, String, false, List, [], ◌∷◌, ◌++◌, select, length, Result, ok, err, ◌≡◌,
  refl, sym, ap, subst, ◌∙◌, arith, inl, inr, All, All-append, All-map, str_eq, str_eq_iff,
  Bool-cases, Option-cases, Result-cases, length-append, length-select-append,
}
use auto_bot_lbc_pj.Models.{SmsResult, sms_is_sent}
use auto_bot_lbc_pj.Tables.{Listing, SmsLog, Db}
use auto_bot_lbc_pj.Sms.Blacklist.{is_blacklisted}
use auto_bot_lbc_pj.Sms.Messages.{Settings}
use auto_bot_lbc_pj.Runner.{
  Sim, SendError, insufficient_credit, other_error, Error, World, Quotas, Progress, Job, sent_log,
  spend, Turn, after_send, serve, visit, visit_all, select_best_sim, body_of, interruption,
  meanwhile, text_or_empty,
}
use auto_bot_lbc_pj.Runner.Choice.{select_best_sim_chosen}

abbrev pub sent_from : String → List SmsLog → ℕ
sent_from sim log = length (select (λ r. str_eq r.sim_id sim) log)

abbrev pub Unlisted : Db → SmsLog → Type 0
Unlisted db r = is_blacklisted r.to_phone db ≡ false

-- From one state of the loop to a later one, over `n` listings: the messages that were logged.
pub record Effect (n : ℕ) (p : Progress) (db : Db) (p' : Progress) (db' : Db) : Type 0 where
  pub logged : List SmsLog
  pub log : db'.sms_log ≡ db.sms_log ++ logged
  pub blacklist : db'.blacklist ≡ db.blacklist
  pub unlisted : All (Unlisted db) logged
  pub counted : p'.sent ≡ p.sent + length logged
  pub tried : p'.sent + p'.failed ≤ p.sent + p.failed + n
  pub quotas : (sim : String) → sent_from sim logged + p'.quotas sim ≤ p.quotas sim

pub Unlisted-blacklist :
    (a b : Db) (r : SmsLog) → b.blacklist ≡ a.blacklist → Unlisted b r → Unlisted a r
unfolding is_blacklisted
Unlisted-blacklist a b r e h = rw (sym e) h

-- Nothing was logged, and the count of failures grew by at most one.
Effect-quiet :
    (n : ℕ) (p : Progress) (db : Db) (p' : Progress) (db' : Db)
    → db'.sms_log ≡ db.sms_log
    → db'.blacklist ≡ db.blacklist
    → p'.sent ≡ p.sent
    → p'.failed ≤ p.failed + n
    → p'.quotas ≡ p.quotas
    → Effect n p db p' db'
Effect-quiet n p db p' db' log listed sent failed quotas = record {
  logged = [];
  log = log ∙ sym (append-nil db.sms_log);
  blacklist = listed;
  unlisted = tt;
  counted = omega (arith, sent);
  tried = omega (arith, sent, failed);
  quotas = λ sim. rw quotas (omega arith);
}

Effect-trans :
    (k n m : ℕ) (p : Progress) (a : Db) (q : Progress) (b : Db) (r : Progress) (c : Db)
    → Effect n p a q b
    → Effect m q b r c
    → k ≡ n + m
    → Effect k p a r c
Effect-trans k n m p a q b r c f g total = record {
  logged = f.logged ++ g.logged;
  log = g.log ∙ ap (λ l. l ++ g.logged) f.log ∙ append_assoc a.sms_log f.logged g.logged;
  blacklist = g.blacklist ∙ f.blacklist;
  unlisted = All-append (Unlisted a) f.logged g.logged f.unlisted (
      All-map (Unlisted b) (Unlisted a) g.logged (λ r. Unlisted-blacklist a b r f.blacklist)
        g.unlisted);
  counted = omega (arith, f.counted, g.counted, length-append f.logged g.logged);
  tried = omega (arith, f.tried, g.tried, total);
  quotas = λ sim. omega (
    arith,
    f.quotas sim,
    g.quotas sim,
    length-select-append (λ r. str_eq r.sim_id sim) f.logged g.logged,
  );
}

abbrev TurnEffect : Progress → Db → Turn → Type 0
TurnEffect p db turn = Effect 1 p db turn.0.1 turn.1

-- A message counts for its SIM alone, and takes one from what that SIM has left.
spend_pays :
    (r : SmsLog) (quotas : Quotas) (k : String)
    → 0 < quotas r.sim_id
    → sent_from k (r ∷ []) + spend r.sim_id quotas k ≤ quotas k
spend_pays r quotas k left = elim (Bool-cases (str_eq r.sim_id k)) [
  | inl same ↦
      let as_k = ap quotas ((str_eq_iff r.sim_id k).0 same) in rw same (omega (arith, as_k, left))
  | inr other ↦ rw other (omega arith)
]

after_send-Effect :
    (world : World) (job : Job) (listing : Listing) (sim : Sim) (body : String) (p : Progress)
    (db : Db) (answer : Result SendError SmsResult)
    → is_blacklisted (text_or_empty listing.phone) db ≡ false
    → 0 < p.quotas sim.id
    → TurnEffect p db (after_send world job listing sim body p db answer)
unfolding after_send sent_log
after_send-Effect world job listing sim body p db (ok result) free left =
    elim (Bool-cases (sms_is_sent result.status)) [
      | inl sent ↦ rw sent (record {
        logged = sent_log world job listing sim body result.cost ∷ [];
        log = refl;
        blacklist = refl;
        unlisted = (free, tt);
        counted = omega arith;
        tried = omega arith;
        quotas = λ k. spend_pays (sent_log world job listing sim body result.cost) p.quotas k left;
      })
      | inr unsent ↦ rw unsent (Effect-quiet 1 p db _ db refl refl refl (omega arith) refl)
    ]
after_send-Effect world job listing sim body p db (err (insufficient_credit e)) free left =
    Effect-quiet 1 p db _ db refl refl refl (omega arith) refl
after_send-Effect world job listing sim body p db (err (other_error e)) free left =
    Effect-quiet 1 p db _ db refl refl refl (omega arith) refl

abbrev Turns : Progress → Db → Result Error Turn → Type 0
Turns p db (ok turn) = TurnEffect p db turn
Turns p db (err e) = Unit

serve-Effect :
    (settings : Settings) (world : World) (job : Job) (listing : Listing) (p : Progress) (db : Db)
    → is_blacklisted (text_or_empty listing.phone) db ≡ false
    → Turns p db (serve settings world job listing p db)
unfolding serve
serve-Effect settings world job listing p db free =
    elim (Option-cases (select_best_sim job.sims p.quotas)) [
      | inl nobody ↦ rw (nobody, serve) (Effect-quiet 1 p db _ db refl refl refl (omega arith) refl)
      | inr (sim, chosen) ↦ elim (Option-cases (body_of settings world job listing)) [
        | inl broken ↦ rw (chosen, broken, serve) tt
        | inr (body, written) ↦
            rw (chosen, written, serve)
              (after_send-Effect world job listing sim body p db _ free
                (select_best_sim_chosen job.sims p.quotas sim chosen).1)
      ]
    ]

visit-Effect :
    (settings : Settings) (world : World) (job : Job) (listing : Listing) (p : Progress) (db : Db)
    → Turns p db (visit settings world job listing p db)
unfolding visit
visit-Effect settings world job listing p db = elim (Option-cases (interruption job db)) [
  | inr (status, stopped) ↦
      rw (stopped, visit) (Effect-quiet 1 p db _ db refl refl refl (omega arith) refl)
  | inl free_to_go ↦ elim (Bool-cases (is_blacklisted (text_or_empty listing.phone) db)) [
    | inl listed ↦
        rw (free_to_go, listed, visit) (Effect-quiet 1 p db p db refl refl refl (omega arith) refl)
    | inr free ↦ rw (free_to_go, free, visit) (serve-Effect settings world job listing p db free)
  ]
]

-- The variables that the loop returns, if it returns.
abbrev pub Ends : Result Error Progress → Progress → Type 0
Ends (ok q) p = q ≡ p
Ends (err e) p = Unit

abbrev pub LoopEffect : ℕ → Progress → Db → Result Error Progress × Db → Type 0
LoopEffect n p db out = (p' : Progress) × Effect n p db p' out.1 × Ends out.0 p'

meanwhile-Effect :
    (world : World) (id : ℕ) (p : Progress) (db : Db) → Effect 0 p db p (meanwhile world id db)
meanwhile-Effect world id p db = Effect-quiet 0 p db p _ refl refl refl (omega arith) refl

pub visit_all-Effect :
    (settings : Settings) (world : World) (job : Job) (listings : List Listing) (p : Progress)
    (db : Db)
    → LoopEffect (length listings) p db (visit_all settings world job listings p db)
unfolding visit_all
visit_all-Effect settings world job [] p db =
    (p, Effect-quiet 0 p db p db refl refl refl (omega arith) refl, refl)
visit_all-Effect settings world job (listing ∷ rest) p db =
    let seen = meanwhile world listing.id db in
    let waited = meanwhile-Effect world listing.id p db in
    elim (Result-cases (visit settings world job listing p seen)) [
      | inr (e, failed) ↦
          rw (failed, visit_all)
            (p, Effect-quiet (suc (length rest)) p db p seen refl refl refl (omega arith) refl, tt)
      | inl (turn, served) ↦
          let here = subst (Turns p seen) served (visit-Effect settings world job listing p seen) in
          let first = Effect-trans 1 0 1 p db p seen turn.0.1 turn.1 waited here (omega arith) in
          let n = length rest in
          let (q, later, ends) = visit_all-Effect settings world job rest turn.0.1 turn.1 in
          let idle =
            Effect-quiet n turn.0.1 turn.1 turn.0.1 turn.1 refl refl refl (omega arith) refl in
          elim (Bool-cases turn.0.0) [
            | inl on ↦
                rw (served, on, visit_all)
                  (
                    q,
                    Effect-trans (suc n) 1 n p db turn.0.1 turn.1 q _ first later (omega arith),
                    ends,
                  )
            | inr off ↦
                rw (served, off, visit_all)
                  (
                    turn.0.1,
                    Effect-trans (suc n) 1 n p db turn.0.1 turn.1 turn.0.1 turn.1 first idle
                        (omega arith),
                    refl,
                  )
          ]
    ]
