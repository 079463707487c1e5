-- ===== src/Monitor/Probes.antt =====
-- app/services/connector_monitor.py: what a probe says of a connector.
use text.Mathlib.Text.{◌==◌ as str_eq}
use Prim.Native.String.{◌++◌ as text_append}
use auto_bot_lbc_pj.Prelude.{
  ℕ, ◌-◌, String, Bool, true, false, ◌||◌, List, [], ◌∷◌, Option, none, some, ◌==◌, ltb,
  if◌then◌else◌, select, map, update, length, first_chars, Result, ok, err,
}
use auto_bot_lbc_pj.Apify.Rows.{ApifyAccount}

pub data ConnectorState : Type 0 where
  disabled unverified healthy degraded down misconfigured : ConnectorState

pub record ConnectorProbeResult : Type 0 where
  pub name : String
  pub status : ConnectorState
  pub configured : Bool
  pub latency_ms : Option ℕ
  pub error_code : Option String
  pub error_summary : Option String
  pub details : List (String × String)

-- The types that the `except` clauses of the probes tell apart: httpx.HTTPError, KeyError, IndexError, ValueError
-- with their subclasses, and all others.
pub data ErrorClass : Type 0 where
  http_error key_error index_error value_error other_error : ErrorClass

-- An exception: its type, `exc.response.status_code` if it has one, the type's name and the text.
pub record Failure : Type 0 where
  pub error_class : ErrorClass
  pub status_code : Option ℕ
  pub type_name : String
  pub text : String

abbrev pub failure_state : Option ℕ → ConnectorState
failure_state none = ConnectorState.down
failure_state (some code) =
    if code == 401 || code == 403
    then ConnectorState.misconfigured
    else if code == 429
    then ConnectorState.degraded
    else ConnectorState.down

abbrev failure_code : (show : ℕ → String) → Failure → String
failure_code show f = elim f.status_code [
  | none ↦ f.type_name
  | some code ↦ if code == 0 then f.type_name else text_append "HTTP_" (show code)
]

unfoldable pub failure :
    (show : ℕ → String) → String → Bool → (latency_ms : ℕ) → Failure → ConnectorProbeResult
failure show name configured latency_ms f = record {
  name = name;
  status = failure_state f.status_code;
  configured = configured;
  latency_ms = some latency_ms;
  error_code = some (failure_code show f);
  error_summary = some (first_chars 300 f.text);
  details = [];
}

abbrev pub plain : String → ConnectorState → Bool → ConnectorProbeResult
plain name status configured = record {
  name = name;
  status = status;
  configured = configured;
  latency_ms = none;
  error_code = none;
  error_summary = none;
  details = [];
}

abbrev answered : String → (latency_ms : ℕ) → List (String × String) → ConnectorProbeResult
answered name latency_ms details = record (plain name ConnectorState.healthy true) {
  latency_ms = some latency_ms;
  details = details;
}

-- What the call of a live probe gave, and the time that it took.
pub record Call (A : Type 0) : Type 0 where
  pub outcome : Result Failure A
  pub latency_ms : ℕ

-- What the probes share: off without its settings, else the call, whose exception goes on if the probe's `except` does
-- not name its type.
unfoldable pub probe :
    {A : Type 0}
    → (show : ℕ → String) → String
    → (configured : Bool) → (catches : ErrorClass → Bool) → (A → List (String × String))
    → Call A
    → Result Failure ConnectorProbeResult
probe show name configured catches details call =
    if configured
    then elim call.outcome [
      | ok a ↦ ok (answered name call.latency_ms (details a))
      | err f ↦
          if catches f.error_class then ok (failure show name true call.latency_ms f) else err f
    ]
    else ok (plain name ConnectorState.disabled false)

abbrev pub is_active : String → Bool
is_active s = str_eq s "active"

abbrev apify_state : (total failed : ℕ) → ConnectorState
apify_state total failed =
    if total == 0
    then ConnectorState.disabled
    else if failed == 0
    then ConnectorState.healthy
    else ConnectorState.degraded

unfoldable pub summarize_apify_accounts :
    (show : ℕ → String) → List String → Option ℕ → ConnectorProbeResult
summarize_apify_accounts show states latency_ms =
    let total = length states in
    let healthy = length (select is_active states) in
    let failed = total - healthy in
    let none_failed = failed == 0 in
    record {
      name = "apify";
      status = apify_state total failed;
      configured = ltb 0 total;
      latency_ms = latency_ms;
      error_code = if none_failed then none else some "ACCOUNT_PROBE_FAILURE";
      error_summary =
          if none_failed
          then none
          else some (text_append (show failed) " compte(s) Apify en echec");
      details = ("accounts", show total) ∷ ("healthy", show healthy) ∷ ("failed", show failed) ∷ [];
    }

abbrev account_is_active : ApifyAccount → Bool
account_is_active a = is_active a.status

-- `validate` is the decryption and the provider's answer: the type of the exception, if there is one.
abbrev check_account : (validate : String → Option String) → (now : ℕ) → ApifyAccount → ApifyAccount
check_account validate now a = elim (validate a.token_ciphertext) [
  | none ↦ record a { status = "active"; last_error = none; last_checked_at = some now }
  | some type_name ↦ record a {
    status = "invalid";
    last_error = some type_name;
    last_checked_at = some now;
  }
]

abbrev pub states : List ApifyAccount → List String
states accounts = map (λ a. a.status) accounts

unfoldable pub probe_apify_accounts :
    (show : ℕ → String)
    → (validate : String → Option String) → (now latency_ms : ℕ) → List ApifyAccount
    → ConnectorProbeResult × List ApifyAccount
probe_apify_accounts show validate now latency_ms accounts =
    elim (select account_is_active accounts) [
      | [] ↦ (summarize_apify_accounts show (states accounts) none, accounts)
      | a ∷ rest ↦
          let after = update account_is_active (check_account validate now) accounts in
          (summarize_apify_accounts show (states after) (some latency_ms), after)
    ]
