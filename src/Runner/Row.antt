-- ===== src/Runner/Row.antt =====
-- What the last session of a batch writes into the campaign's row, beside what `run_campaign` answers.
use mathlib.Core.Option
use auto_bot_lbc_pj.Prelude.{
  ℕ, ◌+◌, Bool, Option, none, some, length, ltb, get, get-modify, ==_refl, Result, ok, err, ◌≡◌,
  refl, sym, ◌∙◌, subst, inl, inr, Option-cases,
}
use auto_bot_lbc_pj.Tables.{Campaign, Db}
use auto_bot_lbc_pj.Sms.Messages.{Settings}
use auto_bot_lbc_pj.Runner.{Error, World, batch_size, Progress}
use auto_bot_lbc_pj.Runner.Batch.{
  run_batch, conclude, Answer, RunStatus, finish_batch, finish_campaign, fetched_listings,
  answer_of,
}

-- The row says what the answer says: its status, and the counts of the batch added to those that the campaign had
-- when the batch began.
pub record Reported (before : Campaign) (a : Answer) (c : Campaign) : Type 0 where
  pub status : a.status ≡ RunStatus.status c.status
  pub sent : c.sent ≡ before.sent + a.sent
  pub failed : c.failed ≡ before.failed + a.failed
  pub not_scheduled : c.scheduled_at ≡ none

finish_batch-row :
    (now : ℕ) (before : Campaign) (w : Option ℕ) (p : Progress) (more : Bool) (db : Db)
    → get (λ c. c.id) before.id (finish_batch now before w p more db).campaigns
      ≡ Option.map (finish_campaign before p more) (get (λ c. c.id) before.id db.campaigns)
unfolding finish_batch
finish_batch-row now before none p more db =
    get-modify (λ c. c.id) before.id before.id (finish_campaign before p more) db.campaigns
      (λ c. refl)
    ∙ rw (==_refl before.id) refl
finish_batch-row now before (some w) p more db =
    get-modify (λ c. c.id) before.id before.id (finish_campaign before p more) db.campaigns
      (λ c. refl)
    ∙ rw (==_refl before.id) refl

module _ (world : World) (before : Campaign) (w : Option ℕ) where
  conclude-Reported :
      (more : Bool) (r : Result Error Progress × Db) (a : Answer) (c : Campaign)
      → (conclude world before w more r).0 ≡ ok a
      → get (λ c. c.id) before.id (conclude world before w more r).1.campaigns ≡ some c
      → Reported before a c
  conclude-Reported more (err e, db) a c returned there = cc
  conclude-Reported more (ok p, db) a c returned there =
      let answered : answer_of p more ≡ a = cc in
      let row = sym (finish_batch-row world.now before w p more db) ∙ there in
      elim (Option-cases (get (λ c. c.id) before.id db.campaigns)) [
        | inl gone ↦ let no = rw gone at row in cc
        | inr (old, found) ↦
            let made : finish_campaign before p more old ≡ c = let it = rw found at row in cc in
            subst (λ (b : Answer). Reported before b c) answered
              (subst (Reported before (answer_of p more)) made
                (record { status = refl; sent = refl; failed = refl; not_scheduled = refl }))
      ]

  -- When a batch returns and the row of its campaign is still there, the row has the status that the batch answers and
  -- the answered counts added to those from before the batch, whatever the provider answered and whatever other
  -- processes have written into the row in the meantime, a cancellation included.
  pub run_batch-Reported :
      (settings : Settings) (db : Db) (a : Answer) (c : Campaign)
      → (run_batch settings world before w db).0 ≡ ok a
      → get (λ c. c.id) before.id (run_batch settings world before w db).1.campaigns ≡ some c
      → Reported before a c
  unfolding run_batch
  run_batch-Reported settings db a c returned there = elim (Option-cases world.get_sim_list) [
    | inl raised ↦ let no = rw (raised, run_batch) at returned in cc
    | inr (sims, listed) ↦
        conclude-Reported (ltb batch_size (length (fetched_listings before.id db))) _ a c
          (rw (listed, run_batch) at returned) (rw (listed, run_batch) at there)
  ]
