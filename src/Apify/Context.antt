-- ===== src/Apify/Context.antt =====
-- app/services/apify_ingestion.py: what an import reads of its run, and what it writes at its end.
use auto_bot_lbc_pj.Prelude.{
  ℕ, Bool, true, false, not, ◌&&◌, List, Option, none, some, ==_refl, ltb, if◌then◌else◌, get,
  modify, get-modify, modify-modify, Result, ok, err, or_raise, ◌>>=◌, ◌≡◌, refl, sym, ap, ◌∙◌, inl,
  inr, Option-cases,
}
use mathlib.Core.Option.{map as map_option}
use auto_bot_lbc_pj.Apify.Rows.{ApifyRun, Store}
use auto_bot_lbc_pj.Apify.Items.{Env, RunContext}
use auto_bot_lbc_pj.Apify.Import.{
  Counters, write_progress, save_run_progress, finish_import, context_from, ImportError,
  check_importable, binding_campaign_required, secret_not_decrypted, run_not_found, dispatch_failed,
}
use auto_bot_lbc_pj.Apify.Pages.{Paged, Paged-covered}
use auto_bot_lbc_pj.Apify.Again.{without_new}

-- The context of a run does not depend on its counters, and it is that of a run in the table.
pub context_from-write_progress :
    (env : Env) (s : Store) (t : Option ℕ) (c : Counters) (found : Option ApifyRun)
    → context_from env.decrypt s.accounts s.bindings s.profiles
        (map_option (write_progress t c) found)
      ≡ context_from env.decrypt s.accounts s.bindings s.profiles found
unfolding context_from
context_from-write_progress env s t c none = refl
context_from-write_progress env s none c (some run) = refl
context_from-write_progress env s (some now) c (some run) = refl

abbrev pub IfOk : (RunContext → Type 0) → Result ImportError RunContext → Type 0
IfOk P (ok context) = P context
IfOk P (err e) = Unit

pub IfOk->>= :
    {A : Type 0} (P : RunContext → Type 0) (m : Result ImportError A)
    (f : A → Result ImportError RunContext)
    → ((a : A) → IfOk P (f a))
    → IfOk P (m >>= f)
IfOk->>= P (ok a) f rest = rest a
IfOk->>= P (err e) f rest = tt

pub context_from-found :
    (env : Env) (s : Store) (run_id : ℕ) (found : Option ApifyRun)
    → ((run : ApifyRun) → found ≡ some run → run.id ≡ run_id)
    → IfOk
        (λ context. (context.id ≡ run_id) × ((run : ApifyRun) × (found ≡ some run)))
        (context_from env.decrypt s.accounts s.bindings s.profiles found)
unfolding context_from
context_from-found env s run_id none id = tt
context_from-found env s run_id (some run) id =
    let P = λ (context : RunContext).
      (context.id ≡ run_id) × ((r : ApifyRun) × (◌≡◌ {A = Option ApifyRun} (some run) (some r))) in
    IfOk->>= P (or_raise (get (λ a. a.id) run.account_id s.accounts) run_not_found) _ λ account.
      IfOk->>= P (or_raise (get (λ b. b.id) run.binding_id s.bindings) run_not_found) _ λ binding.
        IfOk->>= P (check_importable run) _ λ u.
          IfOk->>= P (or_raise binding.campaign_id binding_campaign_required) _ λ campaign.
            IfOk->>= P (or_raise (env.decrypt account.token_ciphertext) secret_not_decrypted) _
              λ token. (id run refl, (run, refl))

unless_ok :
    (b : Bool) (e : ImportError) (k c : Counters)
    → ◌≡◌ {A = Result ImportError Counters} (if b then err e else ok k) (ok c)
    → k ≡ c
unless_ok true e k c h = cc
unless_ok false e k c h = cc

-- What a finished import returned: the loop returned, and the row of the run has its counters.
pub finish_import-inv :
    (env : Env) (context : RunContext) (r : Result ImportError Counters × Store) (c : Counters)
    (s' : Store)
    → finish_import env context r ≡ (ok c, s')
    → (s1 : Store) × (r ≡ (ok c, s1))
      × (s' ≡ record s1 {
        runs = modify (λ r. r.id) context.id (write_progress (some env.now) c) s1.runs;
      })
unfolding finish_import save_run_progress
finish_import-inv env context (err e, s) c s' h = cc
finish_import-inv env context (ok k, s) c s' h =
    elim (Option-cases (get (λ r. r.id) context.id s.runs)) [
      | inl gone ↦
          let f = rw (gone, finish_import, save_run_progress) at h in let no : ⊥ = cc in elim no [ ]
      | inr (run, there) ↦
          let f = rw (there, finish_import, save_run_progress) at h in
          let counts =
            unless_ok (ltb 0 k.sequences_created && not env.delay) dispatch_failed k c
              (ap (λ (p : Result ImportError Counters × Store). p.0) f) in
          let store = ap (λ (p : Result ImportError Counters × Store). p.1) f in
          (
            s,
            ap (λ (n : Counters). (ok n, s)) counts,
            sym store
                ∙ ap
                    (λ (n : Counters). record s {
                      runs = modify (λ r. r.id) context.id (write_progress (some env.now) n) s.runs;
                    })
                    counts,
          )
    ]

-- Without new sequences the last update is all that is left to do.
pub finish_import_ok :
    (env : Env) (context : RunContext) (c : Counters) (s : Store) (run : ApifyRun)
    → get (λ r. r.id) context.id s.runs ≡ some run
    → finish_import env context (ok (without_new c), s) ≡ (
      ok (without_new c),
      record s { runs = modify (λ r. r.id) context.id (write_progress (some env.now) c) s.runs },
    )
unfolding finish_import save_run_progress
finish_import_ok env context c s run there = rw (there, finish_import, save_run_progress)

abbrev pub written : ℕ → ℕ → Counters → List ApifyRun → List ApifyRun
written id now c runs = modify (λ r. r.id) id (write_progress (some now) c) runs

-- A later update with the same counters only moves the time.
pub written_again :
    (id now now' : ℕ) (c : Counters) (before after runs : List ApifyRun)
    → before ≡ written id now c runs
    → Paged id before after
    → written id now' c after
      ≡ modify (λ r. r.id) id (λ r. record r { imported_at = some now' }) before
written_again id now now' c before after runs e paged =
    let stamp = λ (r : ApifyRun). record r { imported_at = some now' } in
    Paged-covered id now' c before after paged
    ∙ ap (written id now' c) e
    ∙ modify-modify (λ r. r.id) id (write_progress (some now') c) (write_progress (some now) c) runs
        (λ r. refl)
    ∙ sym (modify-modify (λ r. r.id) id stamp (write_progress (some now) c) runs (λ r. refl))
    ∙ ap (modify (λ r. r.id) id stamp) (sym e)

pub written_there :
    (id now : ℕ) (c : Counters) (runs after : List ApifyRun) (run : ApifyRun)
    → after ≡ written id now c runs
    → get (λ r. r.id) id runs ≡ some run
    → get (λ r. r.id) id after ≡ some (write_progress (some now) c run)
written_there id now c runs after run e there =
    ap (get (λ r. r.id) id) e
    ∙ get-modify (λ r. r.id) id id (write_progress (some now) c) runs (λ r. refl)
    ∙ rw (==_refl id, there, if◌then◌else◌)
