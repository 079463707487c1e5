-- ===== src/Apify/RunSamples.antt =====
-- Launches and webhooks on the small store, and the theorems at them.
use auto_bot_lbc_pj.Prelude.{true, false, [], ◌∷◌, none, some, err, ◌≡◌, refl, arith}
use auto_bot_lbc_pj.Tables.{stored_fields}
use auto_bot_lbc_pj.Apify.Samples.{binding, account, store}
use auto_bot_lbc_pj.Apify.Rows.{Store}
use auto_bot_lbc_pj.Apify.Runs.{start_failed, RemoteRun}
use auto_bot_lbc_pj.Apify.Launch.{
  Apify, prepared, prepare_launch, next_time, input_or_empty, launch_binding,
}
use auto_bot_lbc_pj.Apify.Failure.{Undone, launch_binding-Undone}
use auto_bot_lbc_pj.Apify.Requests.{UniqueRuns}
use auto_bot_lbc_pj.Apify.History.{
  launch, look_up, webhook, reconcile, respond_all, respond_all-UniqueRuns,
}

abbrev remote : RemoteRun
remote = record {
  id = "r2";
  status = some "RUNNING";
  status_in_key = "RUNNING";
  binding_id = none;
  resource_id = some "a";
  started_at = some 3;
  finished_at = none;
  default_dataset_id = none;
  usage = none;
}

abbrev apify : Apify
apify = record {
  now = 600;
  fresh_run = λ n. n;
  new_audit = 1;
  decrypt = λ s. some s;
  is_json = λ s. true;
  start = λ token type id input. err "timeout";
  get_run = λ token id. some (some remote);
  list_recent_runs = λ token. some (remote ∷ remote ∷ []);
  sha256 = λ s. s;
  show = λ n. "3";
  delay = λ account id. true;
}

abbrev empty_store : Store
empty_store = record store { runs = [] }

respond_all-UniqueRuns_example : UniqueRuns (
    respond_all
      (webhook apify 3 "ACTOR.RUN.CREATED" remote (stored_fields []) (some "Bearer w")
        ∷ launch apify false 4 "manual"
        ∷ reconcile apify
        ∷ look_up apify 3 "r2"
        ∷ [])
      empty_store)
respond_all-UniqueRuns_example =
    respond_all-UniqueRuns
      (webhook apify 3 "ACTOR.RUN.CREATED" remote (stored_fields []) (some "Bearer w")
        ∷ launch apify false 4 "manual"
        ∷ reconcile apify
        ∷ look_up apify 3 "r2"
        ∷ [])
      empty_store (λ a k. omega arith)

launch_binding-Undone_example :
    let after = launch_binding apify false 4 "schedule" store in
    (after.0 ≡ err start_failed) × Undone store after.1
unfolding prepare_launch next_time input_or_empty
launch_binding-Undone_example =
    launch_binding-Undone apify false 4 "schedule" "timeout" store
      (prepared apify binding account "t" "{}" store).1
      (prepared apify binding account "t" "{}" store).0 refl refl
