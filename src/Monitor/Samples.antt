-- ===== src/Monitor/Samples.antt =====
-- A refresh of the connectors, and the theorem at it.
use auto_bot_lbc_pj.Prelude.{String, true, false, List, [], ◌∷◌, none, some, ◌≡◌, refl, ok, err}
use mathlib.Core.Option
use auto_bot_lbc_pj.Monitor.Probes.{
  Call, ConnectorState, ErrorClass, Failure, failure, probe, summarize_apify_accounts,
  probe_apify_accounts,
}
use auto_bot_lbc_pj.Monitor.Connectors.{
  World, probe_database, probe_redis, probe_celery, probe_smstools, probe_iproxy, probe_mailgun,
  probe_browser_use, probe_smsapp, probe_configuration_states, collect_connector_probes,
}
use auto_bot_lbc_pj.Monitor.Refresh.{
  ConnectorStatus, status_row, upsert, upsert_all, refresh_connector_statuses, view, Refreshed,
  refresh_connector_statuses-Refreshed,
}

abbrev fine : {A : Type 0} → A → Call A
fine a = record { outcome = ok a; latency_ms = 12 }

abbrev limited : Call (List String)
limited = record {
  outcome = err (record {
    error_class = ErrorClass.http_error;
    status_code = some 429;
    type_name = "HTTPStatusError";
    text = "429";
  });
  latency_ms = 80;
}

abbrev world : World
world = record {
  show = λ n. "n";
  iproxy_api_key = "";
  iproxy_connection_id = "";
  iproxy_proxy_id = "";
  smstools_api_key = "key";
  browser_use_api_key = "key";
  mailgun_api_key = "";
  mailgun_domain = "";
  smsapp_api_token = "";
  sentry_transport = false;
  camoufox_enabled = true;
  obscura_enabled = false;
  select_1 = fine tt;
  from_url = none;
  ping = fine tt;
  aclose = none;
  ensure_connection = fine tt;
  get_4g_proxy = fine tt;
  list_tasks = fine tt;
  get_sim_list = limited;
  get_domain = fine none;
  get_balance = fine none;
}

abbrev rows : List ConnectorStatus
rows =
    record {
      name = "smstools";
      status = ConnectorState.healthy;
      configured = true;
      latency_ms = none;
      last_success_at = some 40;
      last_checked_at = 40;
      error_code = none;
      error_summary = none;
      details = [];
    }
    ∷ []

program : Unit {0}
unfolding failure probe probe_database probe_redis probe_celery probe_smstools probe_iproxy
    probe_mailgun probe_browser_use probe_smsapp summarize_apify_accounts probe_apify_accounts
    probe_configuration_states collect_connector_probes status_row upsert upsert_all
    refresh_connector_statuses
program = tt

-- A connector that is limited keeps the time of its last success.
keeps_success :
    Option.map
      (λ (r : ConnectorStatus). r.last_success_at)
      (view (refresh_connector_statuses world [] 90 rows).1 "smstools")
    ≡ some (some 40)
unfolding program
keeps_success = refl

-- A list for a JSON object has no `get`: the refresh of every connector raises.
abbrev broken : Failure
broken = record {
  error_class = ErrorClass.other_error;
  status_code = none;
  type_name = "AttributeError";
  text = "'list' object has no attribute 'get'";
}

refresh_raises :
    refresh_connector_statuses
      (record world {
        smsapp_api_token = "key";
        get_balance = record { outcome = err broken; latency_ms = 30 };
      })
      []
      90
      rows
    ≡ (err broken, rows)
unfolding program
refresh_raises = refl

refresh_connector_statuses-Refreshed_example :
    let (answer, after) = refresh_connector_statuses world [] 90 rows in
    Refreshed world 90 rows answer after
refresh_connector_statuses-Refreshed_example = refresh_connector_statuses-Refreshed world [] 90 rows
