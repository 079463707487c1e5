-- ===== src/Apify/Twice.antt =====
-- app/services/apify_ingestion.py: `import_run` after `import_run`.
use auto_bot_lbc_pj.Prelude.{
  ℕ, suc, Bool, true, false, List, [], ◌∷◌, some, ==_refl, if◌then◌else◌, find, get, modify,
  get-modify, get_id, ok, ◌≡◌, refl, sym, subst, ap, ◌∙◌, inl, inr, Result-cases,
}
use auto_bot_lbc_pj.Apify.Payload.{Json}
use auto_bot_lbc_pj.Apify.Rows.{ApifyRun, Store}
use auto_bot_lbc_pj.Apify.Items.{Env, RunContext, payload_hash, item_is}
use auto_bot_lbc_pj.Apify.Ingestion.{import_one_item}
use auto_bot_lbc_pj.Apify.Import.{
  Counters, no_counters, count_item, write_progress, import_items, finish_import, import_from,
  context_from, load_run_context, import_run,
}
use auto_bot_lbc_pj.Apify.Pages.{Paged-covered, Paged-there}
use auto_bot_lbc_pj.Apify.Rerun.{import_one_item-Recorded}
use auto_bot_lbc_pj.Apify.Again.{
  SameSource, without_new, Extends, Extends-trans, step-Extends, import_items-inv, Replays,
  Replays-step,
}
use auto_bot_lbc_pj.Apify.Context.{
  context_from-write_progress, IfOk, context_from-found, finish_import-inv, finish_import_ok,
  written, written_again, written_there,
}
use auto_bot_lbc_pj.Apify.Pages.{save_page-PagesOnly}

module _ (env env' : Env) (source : SameSource env env') (context : RunContext) where
  import_items-again :
      (index : ℕ) (payloads : List Json) (raises : Bool) (c c1 : Counters) (s s1 : Store)
      → import_items env context index payloads raises c s ≡ (ok c1, s1)
      → Extends context.id s s1 × Replays env' context index payloads raises c c1 s1
  unfolding import_items Replays
  import_items-again index [] true c c1 s s1 h = cc
  import_items-again index [] false c c1 s s1 h =
      let same : s1 ≡ s = cc in
      let counts : c ≡ c1 = cc in
      (
        subst (Extends context.id s) (sym same) (record {
          accounts = refl;
          bindings = refl;
          profiles = refl;
          paged = inl refl;
          older = λ p r e. e;
        }),
        λ s2 run older there. (
          s2,
          ap (λ (k : Counters). (ok (without_new k), s2)) counts,
          record { rest = refl; paged = inl refl },
        ),
      )
  import_items-again index (payload ∷ rest) raises c c1 s s1 h =
      let done = import_one_item env context index payload s in
      let recorded = import_one_item-Recorded env context index payload s in
      let (fine, b, page, loop) =
        import_items-inv env context index payload rest raises c s c1 s1 h in
      let pages = save_page-PagesOnly env context (count_item done.0 c) done.1 b page in
      let (later, next) =
        import_items-again (suc index) rest raises (count_item done.0 c) c1 b s1 loop in
      let here = later.older (item_is context index (payload_hash env payload)) recorded.row (
        ap (λ (x : Store). find (item_is context index (payload_hash env payload)) x.items)
          pages.rest
        ∙ recorded.found) in
      (
        Extends-trans context.id s b s1
            (step-Extends context index (payload_hash env payload) s done.1 b done.0 recorded pages)
            later,
        Replays-step env env' source context index payload rest raises c c1 s1 done.0 recorded.row
            fine here recorded.reported next,
      )

-- The time of the last import of a run.
abbrev pub imported_at : (run_id now : ℕ) → Store → Store
imported_at run_id now s = record s {
  runs = modify (λ r. r.id) run_id (λ r. record r { imported_at = some now }) s.runs;
}

-- What an import has changed of what an import reads, and what the next one gives.
record Repeats (env env' : Env) (context : RunContext) (c : Counters) (s s' : Store) : Type 0 where
  runs : s'.runs ≡ written context.id env.now c s.runs
  accounts : s'.accounts ≡ s.accounts
  bindings : s'.bindings ≡ s.bindings
  profiles : s'.profiles ≡ s.profiles
  again : import_from env' context s' ≡ (ok (without_new c), imported_at context.id env'.now s')

module _ (env env' : Env) (source : SameSource env env') (context : RunContext) (c : Counters) where
  import_from-again :
      (s s' : Store) (run : ApifyRun)
      → get (λ r. r.id) context.id s.runs ≡ some run
      → import_from env context s ≡ (ok c, s')
      → Repeats env env' context c s s'
  unfolding Replays
  import_from-again s s' run there h =
      let fetched = env.dataset context.token context.dataset_id in
      let (s1, loop, last) =
        finish_import-inv env context (import_items env context 0 fetched.0 fetched.1 no_counters s)
          c s' h in
      let (ext, next) =
        import_items-again env env' source context 0 fetched.0 fetched.1 no_counters c s s1 loop in
      let runs =
        ap (λ (x : Store). x.runs) last
        ∙ Paged-covered context.id env.now c s.runs s1.runs ext.paged in
      let there' = written_there context.id env.now c s.runs s'.runs run runs there in
      let (s3, loop', pages) =
        next s' (write_progress (some env.now) c run)
          (λ p r e. ap (λ (x : Store). find p x.items) last ∙ e) there' in
      let (run3, there3) =
        Paged-there context.id s'.runs s3.runs (write_progress (some env.now) c run) pages.paged
          there' in
      record {
        runs = runs;
        accounts = ap (λ (x : Store). x.accounts) last ∙ ext.accounts;
        bindings = ap (λ (x : Store). x.bindings) last ∙ ext.bindings;
        profiles = ap (λ (x : Store). x.profiles) last ∙ ext.profiles;
        again =
            (λ i.
              let f = source.dataset i context.token context.dataset_id in
              finish_import env' context (import_items env' context 0 f.0 f.1 no_counters s'))
            ∙ ap (finish_import env' context) loop'
            ∙ finish_import_ok env' context c s3 run3 there3
            ∙ ap
                (λ (x : Store).
                  (ok (without_new c), record x { runs = written context.id env'.now c s3.runs }))
                pages.rest
            ∙ ap (λ (l : List ApifyRun). (ok (without_new c), record s' { runs = l }))
                (written_again context.id env.now env'.now c s'.runs s3.runs s.runs runs
                  pages.paged);
      }

-- A run that was imported to its end and is imported again, from the same dataset but at any time, with any
-- other answers of the language model, gives the same counters and no new sequence, and changes nothing but
-- the time of the import in its row.
pub import_run-again :
    (env env' : Env) (run_id : ℕ) (c : Counters) (s s' : Store)
    → SameSource env env'
    → import_run env run_id s ≡ (ok c, s')
    → import_run env' run_id s' ≡ (ok (without_new c), imported_at run_id env'.now s')
unfolding import_run
import_run-again env env' run_id c s s' source h =
    elim (Result-cases (load_run_context env run_id s)) [
      | inr (e, bad) ↦ let f = rw (bad, import_run) at h in let no : ⊥ = cc in elim no [ ]
      | inl (context, good) ↦
          let (is, (run, there)) =
            subst
              (IfOk (λ k.
                (k.id ≡ run_id) × ((r : ApifyRun) × (get (λ r. r.id) run_id s.runs ≡ some r))))
              good
              (context_from-found env s run_id (get (λ r. r.id) run_id s.runs)
                (λ r e. get_id (λ r. r.id) run_id s.runs r e)) in
          let there' = ap (λ (k : ℕ). get (λ r. r.id) k s.runs) is ∙ there in
          let rep =
            import_from-again env env' source context c s s' run there'
              (rw (good, import_run) at h) in
          let found =
            ap (get (λ r. r.id) run_id) rep.runs
            ∙ ap (λ (k : ℕ). get (λ r. r.id) run_id (written k env.now c s.runs)) is
            ∙ get-modify (λ r. r.id) run_id run_id (write_progress (some env.now) c) s.runs
                (λ r. refl)
            ∙ rw (==_refl run_id, if◌then◌else◌) in
          let loaded : load_run_context env' run_id s' ≡ ok context =
            (λ i.
              context_from (source.decrypt i) (rep.accounts i) (rep.bindings i) (rep.profiles i)
                (found i))
            ∙ context_from-write_progress env s (some env.now) c (get (λ r. r.id) run_id s.runs)
            ∙ good in
          rw (loaded, import_run)
            (rep.again ∙ ap (λ (k : ℕ). (ok (without_new c), imported_at k env'.now s')) is)
    ]
