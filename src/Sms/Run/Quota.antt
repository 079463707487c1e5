-- ===== src/Sms/Run/Quota.antt =====
-- How many messages a day go out through a SIM.
use auto_bot_lbc_pj.Prelude.{
  ℕ, ◌≤◌, ◌<◌, String, Bool, true, List, [], ◌∷◌, ◌++◌, length-select-snoc, ◌≡◌, arith, Bool-cases,
  inl, inr, All, find-All, ltb→lt, ◌==◌, ◌&&◌, str_eq_iff, str_eq,
}
use auto_bot_lbc_pj.Tables.{Campaign, Db}
use auto_bot_lbc_pj.Sms.Messages.{Settings}
use auto_bot_lbc_pj.Sms.Sequences.{
  World, used_today, sent_today, day_start, is_eligible, sim_quota, allowed_sims, sim_is_active,
  is_allowed,
}
use auto_bot_lbc_pj.Sms.Run.{Step, sent_log, run_due_sms_sequences}
use auto_bot_lbc_pj.Sms.Run.Effect.{Effect, quiet, logs, Guarded}
use auto_bot_lbc_pj.Sms.Run.Induct.{run_ind}

sim_quota-le :
    (c : Campaign) (allowed : List (String × ℕ)) (sim : String)
    → sim_quota c allowed sim ≤ c.quota_per_sim
sim_quota-le c allowed sim = ground arith

and_right : (a b c : Bool) → (a && (b && c)) ≡ true → c ≡ true
and_right a b c h = ground arith

eligible_below_quota :
    (world : World) (current : ℕ) (p : Step) (db : Db)
    → Guarded world current p db
    → used_today p.sim.id (day_start current) db.sms_log < p.campaign.quota_per_sim
unfolding is_eligible
eligible_below_quota world current p db g = omega (
  arith,
  ltb→lt (used_today p.sim.id (day_start current) db.sms_log)
      (sim_quota p.campaign (allowed_sims p.listing db) p.sim.id)
      (and_right (sim_is_active p.sim) (is_allowed (allowed_sims p.listing db) p.sim.id) _
        g.eligible),
  sim_quota-le p.campaign (allowed_sims p.listing db) p.sim.id,
)

-- No campaign has a quota above `most`, and no SIM sent more than `most` messages today.
pub record WithinQuota (most today : ℕ) (db : Db) : Type 0 where
  pub quotas : All (λ c. c.quota_per_sim ≤ most) db.campaigns
  pub sent : (sim : String) → used_today sim today db.sms_log ≤ most

snoc_within :
    (world : World) (current most : ℕ) (p : Step) (cost : ℕ) (db : Db) (sim : String)
    → used_today p.sim.id (day_start current) db.sms_log < most
    → used_today sim (day_start current) db.sms_log ≤ most
    → used_today sim (day_start current) (db.sms_log ++ sent_log world p cost ∷ []) ≤ most
unfolding sent_log
snoc_within world current most p cost db sim room old = elim (Bool-cases (str_eq p.sim.id sim)) [
  | inr other ↦
      rw
        (
          length-select-snoc (sent_today sim (day_start current)) db.sms_log
              (sent_log world p cost),
          other,
        )
        (omega (arith, old))
  | inl same ↦
      let free = rw ((str_eq_iff p.sim.id sim).0 same) at room in
      rw
        (
          length-select-snoc (sent_today sim (day_start current)) db.sms_log
              (sent_log world p cost),
          same,
        )
        (ground arith)
]

Effect-WithinQuota :
    (world : World) (current most : ℕ) (db db' : Db)
    → Effect world current db db'
    → WithinQuota most (day_start current) db
    → WithinQuota most (day_start current) db'
Effect-WithinQuota world current most db db' (quiet seqs e) w =
    rw e (record { quotas = w.quotas; sent = w.sent })
Effect-WithinQuota world current most db db' (logs seqs p cost g e) w = rw e (record {
  quotas = w.quotas;
  sent = λ sim. snoc_within world current most p cost db sim room (w.sent sim);
})
  where
    quota_small : p.campaign.quota_per_sim ≤ most
    quota_small =
        find-All (λ c. c.quota_per_sim ≤ most) (λ c. c.id == g.owner.0) db.campaigns p.campaign
          w.quotas g.owner.1

    room : used_today p.sim.id (day_start current) db.sms_log < most
    room = omega (arith, eligible_below_quota world current p db g, quota_small)

-- If no campaign's quota is above `most` and no SIM has sent more than `most` messages since midnight, so it
-- is after a run, over all the campaigns and sequences that share the SIMs.
pub run_due_sms_sequences-WithinQuota :
    (settings : Settings) (world : World) (current limit most : ℕ) (db : Db)
    → WithinQuota most (day_start current) db
    → WithinQuota most (day_start current) (run_due_sms_sequences settings world current limit db).1
run_due_sms_sequences-WithinQuota settings world current limit most db w =
    run_ind settings world current (WithinQuota most (day_start current))
      (Effect-WithinQuota world current most) limit db w
