-- ===== src/Apify/History.antt =====
-- app/services/apify_runs.py: any sequence of launches, webhooks, look-ups and reconciliations.
use auto_bot_lbc_pj.Prelude.{
  ℕ, String, Bool, true, false, List, [], ◌∷◌, Option, some, get, find, Result, ok, err, or_raise,
  Returns, Returns->>=, Returns->>=_pure, Returns_ok, commit_ind, sym, subst, inl, inr,
  Option-cases, Result-cases,
}
use auto_bot_lbc_pj.Tables.{StoredPayload, Db}
use auto_bot_lbc_pj.Apify.Rows.{ApifyAccount, ApifyRun, Store}
use auto_bot_lbc_pj.Apify.Runs.{
  RunError, remote_run_id_required, account_not_found, secret_not_decrypted, invalid_webhook_secret,
  RemoteRun, run_is, sync_remote_run_in_session,
}
use auto_bot_lbc_pj.Apify.Launch.{
  Apify, Started, guard, prepare_launch, undo_launch, launch_audit, record_launch, start_launch,
  launch_binding, fetch_run, get_or_sync_remote_run,
}
use auto_bot_lbc_pj.Apify.Hook.{
  insert_event, webhook_key, sync_if_new, accept_session, accept_webhook,
}
use auto_bot_lbc_pj.Apify.Reconcile.{reconcile_runs}
use auto_bot_lbc_pj.Apify.Failure.{Prepared, prepare_launch-Prepared}
use auto_bot_lbc_pj.Apify.Requests.{
  UniqueRuns, in_session-UniqueRuns, sync_remote_run-UniqueRuns, reconcile_runs-UniqueRuns,
}

pub data Request : Type 0 where
  launch : Apify → (locked : Bool) (binding_id : ℕ) (trigger : String) → Request
  look_up : Apify → (account_id : ℕ) (remote_run_id : String) → Request
  webhook :
      Apify
      → (account_id : ℕ) (event_type : String) → RemoteRun
      → StoredPayload
      → (authorization : Option String) → Request
  reconcile : Apify → Request

unfoldable pub respond : Request → Store → Store
respond (launch apify locked id trigger) s = (launch_binding apify locked id trigger s).1
respond (look_up apify account_id remote_id) s =
    (get_or_sync_remote_run apify account_id remote_id s).1
respond (webhook apify account_id type resource payload authorization) s =
    (accept_webhook apify account_id type resource payload authorization s).1
respond (reconcile apify) s = (reconcile_runs apify s).1

unfoldable pub respond_all : List Request → Store → Store
respond_all [] s = s
respond_all (r ∷ rs) s = respond_all rs (respond r s)

record_launch-UniqueRuns :
    (apify : Apify) (id : ℕ) (trigger : String) (r : Result RunError ApifyRun × Store)
    → UniqueRuns r.1
    → UniqueRuns (record_launch apify id trigger r).1
unfolding record_launch launch_audit
record_launch-UniqueRuns apify id trigger (err e, s) u = u
record_launch-UniqueRuns apify id trigger (ok a, s) u = u

undo_launch-UniqueRuns :
    (apify : Apify) (id : ℕ) (trigger error : String) (t : Option ℕ) (s : Store)
    → UniqueRuns s
    → UniqueRuns (undo_launch apify id trigger error t s)
unfolding undo_launch launch_audit
undo_launch-UniqueRuns apify id trigger error t s u =
    elim (Option-cases (get (λ b. b.id) id s.bindings)) [
      | inl gone ↦ rw (gone, undo_launch) u
      | inr (b, there) ↦ rw (there, undo_launch) u
    ]

start_launch-UniqueRuns :
    (apify : Apify) (id : ℕ) (trigger : String) (started : Started) (s : Store)
    → UniqueRuns s
    → UniqueRuns (start_launch apify id trigger started s).1
unfolding start_launch
start_launch-UniqueRuns apify id trigger started s u =
    elim (Result-cases (
      apify.start started.token started.binding.resource_type started.binding.resource_id
        started.input)) [
          | inr (error, failed) ↦
              rw (failed, start_launch)
                (undo_launch-UniqueRuns apify id trigger error started.binding.next_run_at s u)
          | inl (remote, done) ↦
              rw (done, start_launch)
                (record_launch-UniqueRuns apify id trigger _ (
                  sync_remote_run-UniqueRuns (apify.fresh_run 0) started.account.id
                    (record remote { binding_id = some id }) s u))
        ]

launch_binding-UniqueRuns :
    (apify : Apify) (locked : Bool) (id : ℕ) (trigger : String) (s : Store)
    → UniqueRuns s
    → UniqueRuns (launch_binding apify locked id trigger s).1
unfolding launch_binding
launch_binding-UniqueRuns apify locked id trigger s u =
    elim (Result-cases (prepare_launch apify locked id s)) [
      | inr (e, bad) ↦ rw (bad, launch_binding) u
      | inl ((started, s1), good) ↦
          let (there, (t, written)) =
            Returns_ok (Prepared id s) (prepare_launch apify locked id s) started s1 good
              (prepare_launch-Prepared apify locked id s) in
          rw (good, launch_binding)
            (start_launch-UniqueRuns apify id trigger started s1 (subst UniqueRuns (sym written) u))
    ]

look_up-UniqueRuns :
    (apify : Apify) (account_id : ℕ) (remote_id : String) (s : Store)
    → UniqueRuns s
    → UniqueRuns (get_or_sync_remote_run apify account_id remote_id s).1
unfolding get_or_sync_remote_run
look_up-UniqueRuns apify account_id remote_id s u =
    elim (Option-cases (find (run_is account_id remote_id) s.runs)) [
      | inr (r, there) ↦ rw (there, get_or_sync_remote_run) u
      | inl fresh ↦ elim (Result-cases (fetch_run apify account_id remote_id s)) [
        | inr (e, bad) ↦ rw (fresh, get_or_sync_remote_run, bad) u
        | inl (remote, good) ↦
            rw (fresh, get_or_sync_remote_run, good)
              (sync_remote_run-UniqueRuns (apify.fresh_run 0) account_id remote s u)
      ]
    ]

sync_if_new-UniqueRuns :
    (apify : Apify) (account : ApifyAccount) (resource : RemoteRun) (stored : Bool × Db) (s : Store)
    → UniqueRuns s
    → Returns (λ _. UniqueRuns) (sync_if_new apify account resource stored s)
unfolding sync_if_new
sync_if_new-UniqueRuns apify account resource (false, db) s u = u
sync_if_new-UniqueRuns apify account resource (true, db) s u =
    Returns->>= (λ _. UniqueRuns) (λ _. UniqueRuns)
      (sync_remote_run_in_session (apify.fresh_run 0) account resource (record s { db = db })) _
      (in_session-UniqueRuns (apify.fresh_run 0) account resource (record s { db = db }) u)
      λ r s' u'. u'

accept_webhook-UniqueRuns :
    (apify : Apify) (account_id : ℕ) (type : String) (resource : RemoteRun)
    (payload : StoredPayload) (authorization : Option String) (s : Store)
    → UniqueRuns s
    → UniqueRuns (accept_webhook apify account_id type resource payload authorization s).1
unfolding accept_webhook accept_session
accept_webhook-UniqueRuns apify account_id type resource payload authorization s u =
    let P = λ (b : Bool). UniqueRuns in
    commit_ind UniqueRuns s (accept_session apify account_id type resource payload authorization s)
      u
      (Returns->>=_pure P (guard _ remote_run_id_required) _ λ named.
        Returns->>=_pure P (or_raise (get (λ a. a.id) account_id s.accounts) account_not_found) _
          λ account.
            Returns->>=_pure P
              (or_raise (apify.decrypt account.webhook_secret_ciphertext) secret_not_decrypted) _
              λ secret.
                Returns->>=_pure P (or_raise authorization invalid_webhook_secret) _ λ given.
                  Returns->>=_pure P (guard _ invalid_webhook_secret) _ λ same.
                    sync_if_new-UniqueRuns apify account resource
                      (insert_event apify (webhook_key apify account_id type resource) payload s.db)
                      s u)

respond-UniqueRuns : (r : Request) (s : Store) → UniqueRuns s → UniqueRuns (respond r s)
unfolding respond
respond-UniqueRuns (launch apify locked id trigger) s u =
    launch_binding-UniqueRuns apify locked id trigger s u
respond-UniqueRuns (look_up apify account_id remote_id) s u =
    look_up-UniqueRuns apify account_id remote_id s u
respond-UniqueRuns (webhook apify account_id type resource payload authorization) s u =
    accept_webhook-UniqueRuns apify account_id type resource payload authorization s u
respond-UniqueRuns (reconcile apify) s u = reconcile_runs-UniqueRuns apify s u

-- Where each run of an account has at most one row, it has at most one after any sequence of launches, look-ups,
-- webhooks and reconciliations.
pub respond_all-UniqueRuns :
    (requests : List Request) (s : Store) → UniqueRuns s → UniqueRuns (respond_all requests s)
unfolding respond_all
respond_all-UniqueRuns [] s u = u
respond_all-UniqueRuns (r ∷ rs) s u =
    respond_all-UniqueRuns rs (respond r s) (respond-UniqueRuns r s u)
