-- ===== src/Monitor/Connectors.antt =====
-- app/services/connector_monitor.py: the probe of each connector, and all of them.
use text.Mathlib.Text.{◌==◌ as str_eq}
use Prim.Native.String.{◌++◌ as text_append}
use auto_bot_lbc_pj.Prelude.{
  ℕ, String, Bool, true, false, not, ◌&&◌, List, [], ◌∷◌, Option, none, some, if◌then◌else◌, select,
  length, find, Result, ok, err, ◌>>=◌,
}
use auto_bot_lbc_pj.Apify.Rows.{ApifyAccount}
use auto_bot_lbc_pj.Monitor.Probes.{
  ConnectorState, ConnectorProbeResult, ErrorClass, Failure, Call, probe, plain, is_active, states,
  summarize_apify_accounts, probe_apify_accounts,
}

-- The settings that the probes read, and what their calls give: the statuses of the SIMs, the state of the
-- domain, the balance. `from_url` and `aclose` are exceptions of the client of Redis outside the probe's `try`.
pub record World : Type 0 where
  pub show : ℕ → String
  pub iproxy_api_key : String
  pub iproxy_connection_id : String
  pub iproxy_proxy_id : String
  pub smstools_api_key : String
  pub browser_use_api_key : String
  pub mailgun_api_key : String
  pub mailgun_domain : String
  pub smsapp_api_token : String
  pub sentry_transport : Bool
  pub camoufox_enabled : Bool
  pub obscura_enabled : Bool
  pub select_1 : Call (Unit {0})
  pub from_url : Option Failure
  pub ping : Call (Unit {0})
  pub aclose : Option Failure
  pub ensure_connection : Call (Unit {0})
  pub get_4g_proxy : Call (Unit {0})
  pub list_tasks : Call (Unit {0})
  pub get_sim_list : Call (List String)
  pub get_domain : Call (Option String)
  pub get_balance : Call (Option String)

abbrev is_set : String → Bool
is_set s = not (str_eq s "")

abbrev pub catches_all : ErrorClass → Bool
catches_all c = true

-- `except (httpx.HTTPError, KeyError, IndexError, ValueError)`.
abbrev pub catches_iproxy : ErrorClass → Bool
catches_iproxy ErrorClass.other_error = false
catches_iproxy _ = true

-- `except (httpx.HTTPError, KeyError, ValueError)`.
abbrev pub catches_smstools : ErrorClass → Bool
catches_smstools ErrorClass.other_error = false
catches_smstools ErrorClass.index_error = false
catches_smstools _ = true

-- `except httpx.HTTPError`.
abbrev pub catches_http : ErrorClass → Bool
catches_http ErrorClass.http_error = true
catches_http _ = false

-- `except (httpx.HTTPError, ValueError)`.
abbrev pub catches_json : ErrorClass → Bool
catches_json ErrorClass.http_error = true
catches_json ErrorClass.value_error = true
catches_json _ = false

-- An exception outside the `try`.
abbrev pub raise_or : {A : Type 0} → Option Failure → Result Failure A → Result Failure A
raise_or none r = r
raise_or (some f) r = err f

abbrev no_details : Unit {0} → List (String × String)
no_details u = []

unfoldable pub probe_database : World → Result Failure ConnectorProbeResult
probe_database w = probe w.show "database" true catches_all no_details w.select_1

unfoldable pub probe_redis : World → Result Failure ConnectorProbeResult
probe_redis w =
    raise_or w.from_url
      (raise_or w.aclose (probe w.show "redis" true catches_all no_details w.ping))

unfoldable pub probe_celery : World → Result Failure ConnectorProbeResult
probe_celery w = probe w.show "celery" true catches_all no_details w.ensure_connection

unfoldable pub probe_iproxy : World → Result Failure ConnectorProbeResult
probe_iproxy w =
    probe w.show "iproxy"
      (is_set w.iproxy_api_key && (is_set w.iproxy_connection_id && is_set w.iproxy_proxy_id))
      catches_iproxy no_details w.get_4g_proxy

abbrev active_sims : (show : ℕ → String) → List String → List (String × String)
active_sims show sims = ("active_sims", show (length (select is_active sims))) ∷ []

unfoldable pub probe_smstools : World → Result Failure ConnectorProbeResult
probe_smstools w =
    probe w.show "smstools" (is_set w.smstools_api_key) catches_smstools (active_sims w.show)
      w.get_sim_list

unfoldable pub probe_browser_use : World → Result Failure ConnectorProbeResult
probe_browser_use w =
    probe w.show "browser_use" (is_set w.browser_use_api_key) catches_http no_details w.list_tasks

abbrev optional_detail : String → Option String → List (String × String)
optional_detail key none = []
optional_detail key (some value) = (key, value) ∷ []

-- A JSON null is written out.
abbrev domain_details : Option String → List (String × String)
domain_details none = ("domain_state", "null") ∷ []
domain_details (some state) = ("domain_state", state) ∷ []

unfoldable pub probe_mailgun : World → Result Failure ConnectorProbeResult
probe_mailgun w =
    probe w.show "mailgun" (is_set w.mailgun_api_key && is_set w.mailgun_domain) catches_json
      domain_details w.get_domain

unfoldable pub probe_smsapp : World → Result Failure ConnectorProbeResult
probe_smsapp w =
    probe w.show "smsapp" (is_set w.smsapp_api_token) catches_json (optional_detail "balance")
      w.get_balance

abbrev enabled_state : (on off : ConnectorState) → Bool → ConnectorState
enabled_state on off b = if b then on else off

unfoldable pub probe_configuration_states : World → Result Failure (List ConnectorProbeResult)
probe_configuration_states w = do
  smsapp ← probe_smsapp w
  ok (
      smsapp
      ∷ plain "sentry"
          (enabled_state ConnectorState.healthy ConnectorState.disabled w.sentry_transport)
          w.sentry_transport
      ∷ plain "camoufox"
          (enabled_state ConnectorState.unverified ConnectorState.disabled w.camoufox_enabled)
          w.camoufox_enabled
      ∷ plain "obscura"
          (enabled_state ConnectorState.unverified ConnectorState.disabled w.obscura_enabled)
          w.obscura_enabled
      ∷ [])

-- The probes only read, so of several that raise the one that is named first stands for the first in time.
unfoldable pub collect_connector_probes :
    World → List ApifyAccount → Result Failure (List ConnectorProbeResult)
collect_connector_probes w accounts = do
  database ← probe_database w
  redis ← probe_redis w
  celery ← probe_celery w
  smstools ← probe_smstools w
  iproxy ← probe_iproxy w
  mailgun ← probe_mailgun w
  browser_use ← probe_browser_use w
  configuration ← probe_configuration_states w
  ok (
      database
      ∷ redis
      ∷ celery
      ∷ smstools
      ∷ iproxy
      ∷ mailgun
      ∷ browser_use
      ∷ summarize_apify_accounts w.show (states accounts) none
      ∷ configuration)

-- The live probes without `apify`, which also writes its accounts.
abbrev live_probe : World → String → Option (Result Failure ConnectorProbeResult)
live_probe w name =
    if str_eq name "database"
    then some (probe_database w)
    else if str_eq name "redis"
    then some (probe_redis w)
    else if str_eq name "celery"
    then some (probe_celery w)
    else if str_eq name "smstools"
    then some (probe_smstools w)
    else if str_eq name "iproxy"
    then some (probe_iproxy w)
    else if str_eq name "mailgun"
    then some (probe_mailgun w)
    else if str_eq name "browser_use"
    then some (probe_browser_use w)
    else none

abbrev unsupported : String → Failure
unsupported name = record {
  error_class = ErrorClass.value_error;
  status_code = none;
  type_name = "ValueError";
  text = text_append "Unsupported connector: " name;
}

abbrev configured_probe : String → List ConnectorProbeResult → Result Failure ConnectorProbeResult
configured_probe name results = elim (find (λ r. str_eq r.name name) results) [
  | none ↦ err (unsupported name)
  | some r ↦ ok r
]

unfoldable pub probe_connector :
    World
    → (validate : String → Option String) → (now latency_ms : ℕ) → String
    → List ApifyAccount
    → Result Failure ConnectorProbeResult × List ApifyAccount
probe_connector w validate now latency_ms name accounts =
    let (apify, after) = probe_apify_accounts w.show validate now latency_ms accounts in
    if str_eq name "apify" then (ok apify, after) else elim (live_probe w name) [
      | some r ↦ (r, accounts)
      | none ↦ (probe_configuration_states w >>= configured_probe name, accounts)
    ]
