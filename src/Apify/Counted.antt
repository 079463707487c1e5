-- ===== src/Apify/Counted.antt =====
-- app/services/apify_ingestion.py: an import goes through all the items, and counts each of them once.
use auto_bot_lbc_pj.Prelude.{
  ℕ, suc, ◌+◌, ◌≤◌, Bool, false, not, ◌&&◌, List, [], ◌∷◌, some, ltb, if◌then◌else◌, length, get,
  get_id, Result, ok, err, ◌≡◌, ◌⊎◌, refl, sym, subst, ap, ◌∙◌, arith, inl, inr, Bool-cases, true,
  All,
}
use auto_bot_lbc_pj.Apify.Payload.{Json}
use auto_bot_lbc_pj.Apify.Rows.{ApifyRun, Store}
use auto_bot_lbc_pj.Apify.Items.{
  Env, RunContext, can_store, OutcomeStatus, actionable, exception, ignored, outcome,
}
use auto_bot_lbc_pj.Apify.Ingestion.{import_one_item}
use auto_bot_lbc_pj.Apify.Import.{
  ImportError, dispatch_failed, Counters, no_counters, count_item, write_progress,
  save_run_progress, import_items, finish_import, load_run_context, import_from, import_run,
}
use auto_bot_lbc_pj.Apify.Pages.{
  Paged, Paged-trans, Paged-covered, Paged-there, save_page-PagesOnly, save_page_ok,
}
use auto_bot_lbc_pj.Apify.Rerun.{import_one_item-Recorded}
use auto_bot_lbc_pj.Apify.Again.{import_items-step}
use auto_bot_lbc_pj.Apify.Context.{IfOk, context_from-found, written, written_there}

abbrev Fits : Counters → Type 0
Fits c = c.actionable + c.exceptions ≤ c.read

count_item-Fits :
    (status : OutcomeStatus) (created : Bool) (c : Counters)
    → Fits c
    → Fits (count_item (outcome status created) c)
count_item-Fits actionable created c h = omega arith
count_item-Fits exception created c h = omega arith
count_item-Fits ignored created c h = omega arith

-- The loop over a dataset that is read to its end.
record Looped (env : Env) (context : RunContext) (index : ℕ) (payloads : List Json) (c : Counters)
    (s : Store) : Type 0 where
  counters : Counters
  store : Store
  returned : import_items env context index payloads false c s ≡ (ok counters, store)
  read : counters.read ≡ c.read + length payloads
  fits : Fits c → Fits counters
  paged : Paged context.id s.runs store.runs

import_items-Looped :
    (env : Env) (context : RunContext) (index : ℕ) (payloads : List Json) (c : Counters) (s : Store)
    (run : ApifyRun)
    → All (λ payload. can_store env payload ≡ true) payloads
    → get (λ r. r.id) context.id s.runs ≡ some run
    → Looped env context index payloads c s
unfolding import_items
import_items-Looped env context index [] c s run fine there = record {
  counters = c;
  store = s;
  returned = refl;
  read = omega arith;
  fits = λ h. h;
  paged = inl refl;
}
import_items-Looped env context index (payload ∷ rest) c s run fine there =
    let done = import_one_item env context index payload s in
    let same = (import_one_item-Recorded env context index payload s).same in
    let there1 = ap (get (λ r. r.id) context.id) same.runs ∙ there in
    let (b, page) = save_page_ok env context (count_item done.0 c) done.1 run there1 in
    let pages = save_page-PagesOnly env context (count_item done.0 c) done.1 b page in
    let (run2, there2) = Paged-there context.id (done.1).runs b.runs run pages.paged there1 in
    let later =
      import_items-Looped env context (suc index) rest (count_item done.0 c) b run2 fine.1 there2 in
    record {
      counters = later.counters;
      store = later.store;
      returned =
          import_items-step env context index payload rest false c s done.0 done.1 b fine.0 refl
            page
          ∙ later.returned;
      read = omega (arith, later.read);
      fits = λ h. later.fits (count_item-Fits (done.0).status (done.0).sequence_created c h);
      paged =
          Paged-trans context.id s.runs b.runs later.store.runs
            (Paged-trans context.id s.runs (done.1).runs b.runs (inl same.runs) pages.paged)
            later.paged;
    }

-- The end of an import whose run is there.
finish_import-there :
    (env : Env) (context : RunContext) (c : Counters) (s : Store) (run : ApifyRun)
    → get (λ r. r.id) context.id s.runs ≡ some run
    → let after = finish_import env context (ok c, s) in
      ((after.0 ≡ ok c) ⊎ (after.0 ≡ err dispatch_failed))
      × (after.1.runs ≡ written context.id env.now c s.runs)
unfolding finish_import save_run_progress
finish_import-there env context c s run there =
    elim (Bool-cases (ltb 0 c.sequences_created && not env.delay)) [
      | inl lost ↦
          rw (there, finish_import, save_run_progress, lost, if◌then◌else◌) (inr refl, refl)
      | inr sent ↦
          rw (there, finish_import, save_run_progress, sent, if◌then◌else◌) (inl refl, refl)
    ]

-- What an import that could be started comes to.
abbrev pub Counted :
    Env
    → (run_id : ℕ) → RunContext
    → Store
    → Result ImportError Counters × Store
    → Counters
    → Type 0
Counted env run_id context s after c =
    ((after.0 ≡ ok c) ⊎ (after.0 ≡ err dispatch_failed))
    × (c.read ≡ length (env.dataset context.token context.dataset_id).0)
    × (c.actionable + c.exceptions ≤ c.read)
    × ((run : ApifyRun) × (get (λ r. r.id) run_id after.1.runs
          ≡ some (write_progress (some env.now) c run))
        × (get (λ r. r.id) run_id s.runs ≡ some run))

import_run-loaded :
    (env : Env) (run_id : ℕ) (context : RunContext) (s : Store)
    → load_run_context env run_id s ≡ ok context
    → import_run env run_id s ≡ import_from env context s
unfolding import_run
import_run-loaded env run_id context s good = rw (good, import_run)

-- If a run can be imported, the client yields its dataset to the end, and each item can be encoded and stored, then
-- the import returns its counters, or all that fails is the task for the new sequences: no exception in the processing
-- of an item stops it. It has read every item, has counted each as at most one of actionable and exceptional, and the
-- counters are in the row of the run.
pub import_run-Counted :
    (env : Env) (run_id : ℕ) (context : RunContext) (s : Store)
    → load_run_context env run_id s ≡ ok context
    → (env.dataset context.token context.dataset_id).1 ≡ false
    → All (λ payload. can_store env payload ≡ true) (env.dataset context.token context.dataset_id).0
    → (c : Counters) × Counted env run_id context s (import_run env run_id s) c
import_run-Counted env run_id context s good whole fine =
    let payloads = (env.dataset context.token context.dataset_id).0 in
    let (is, (run, there)) =
      subst
        (IfOk (λ k. (k.id ≡ run_id) × ((r : ApifyRun) × (get (λ r. r.id) run_id s.runs ≡ some r))))
        good
        (context_from-found env s run_id (get (λ r. r.id) run_id s.runs)
          (λ r e. get_id (λ r. r.id) run_id s.runs r e)) in
    let there0 = ap (λ (k : ℕ). get (λ r. r.id) k s.runs) is ∙ there in
    let looped = import_items-Looped env context 0 payloads no_counters s run fine there0 in
    let (run1, there1) = Paged-there context.id s.runs looped.store.runs run looped.paged there0 in
    let (result, runs) = finish_import-there env context looped.counters looped.store run1 there1 in
    let loop =
      (λ i. finish_import env context (import_items env context 0 payloads (whole i) no_counters s))
      ∙ ap (finish_import env context) looped.returned in
    let row =
      ap (get (λ r. r.id) run_id) (
        runs
        ∙ Paged-covered context.id env.now looped.counters s.runs looped.store.runs looped.paged)
      ∙ ap (λ (k : ℕ). get (λ r. r.id) run_id (written k env.now looped.counters s.runs)) is
      ∙ written_there run_id env.now looped.counters s.runs _ run refl there in
    (
      looped.counters,
      subst
          (λ (after : Result ImportError Counters × Store).
            Counted env run_id context s after looped.counters)
          (sym (import_run-loaded env run_id context s good ∙ loop))
          (result, looped.read ∙ omega arith, looped.fits (omega arith), (run, row, there)),
    )
