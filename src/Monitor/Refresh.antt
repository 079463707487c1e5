-- ===== src/Monitor/Refresh.antt =====
-- `refresh_connector_statuses` of app/services/connector_monitor.py, and the map that its table stands for.
use text.Mathlib.Text.{◌==◌ as str_eq}
use auto_bot_lbc_pj.Prelude.{
  ℕ, String, Bool, true, false, List, [], ◌∷◌, Option, none, some, ◌≡◌, refl, ap, ◌∙◌,
  if◌then◌else◌, find, inl, inr, Bool-cases, str_eq_iff, str_eq_refl, arith, map, Result, ok, err,
  Result-cases,
}
use auto_bot_lbc_pj.Apify.Rows.{ApifyAccount}
use auto_bot_lbc_pj.Monitor.Probes.{ConnectorState, ConnectorProbeResult, Failure}
use auto_bot_lbc_pj.Monitor.Connectors.{World, collect_connector_probes}
use auto_bot_lbc_pj.Monitor.Escapes.{Escapes, connector_names, collect_connector_probes-Gives}

pub record ConnectorStatus : Type 0 where
  pub name : String
  pub status : ConnectorState
  pub configured : Bool
  pub latency_ms : Option ℕ
  pub last_success_at : Option ℕ
  pub last_checked_at : ℕ
  pub error_code : Option String
  pub error_summary : Option String
  pub details : List (String × String)

abbrev is_healthy : ConnectorState → Bool
is_healthy ConnectorState.healthy = true
is_healthy _ = false

-- The row that an insertion or an update leaves, of the last success that was known.
unfoldable pub status_row :
    (now : ℕ) → ConnectorProbeResult → (last_success : Option ℕ) → ConnectorStatus
status_row now result last_success = record {
  name = result.name;
  status = result.status;
  configured = result.configured;
  latency_ms = result.latency_ms;
  last_success_at = if is_healthy result.status then some now else last_success;
  last_checked_at = now;
  error_code = result.error_code;
  error_summary = result.error_summary;
  details = result.details;
}

-- INSERT ... ON CONFLICT (name) DO UPDATE.
unfoldable pub upsert :
    (now : ℕ) → ConnectorProbeResult → List ConnectorStatus → List ConnectorStatus
upsert now result [] = status_row now result none ∷ []
upsert now result (row ∷ rest) =
    let later = upsert now result rest in
    if str_eq row.name result.name
    then status_row now result row.last_success_at ∷ rest
    else row ∷ later

unfoldable pub upsert_all :
    (now : ℕ) → List ConnectorProbeResult → List ConnectorStatus → List ConnectorStatus
upsert_all now [] rows = rows
upsert_all now (result ∷ rest) rows = upsert_all now rest (upsert now result rows)

-- An exception that a probe lets through ends the refresh before its session.
unfoldable pub refresh_connector_statuses :
    World
    → List ApifyAccount
    → (now : ℕ) → List ConnectorStatus
    → Result Failure (List ConnectorProbeResult) × List ConnectorStatus
refresh_connector_statuses world accounts now rows =
    elim (collect_connector_probes world accounts) [
      | err f ↦ (err f, rows)
      | ok results ↦ (ok results, upsert_all now results rows)
    ]

abbrev name_is : String → ConnectorStatus → Bool
name_is name row = str_eq row.name name

-- The table as a map from names to rows, whatever their order is.
abbrev pub view : List ConnectorStatus → String → Option ConnectorStatus
view rows name = find (name_is name) rows

-- The time of the last success after a probe: now for a healthy connector, else the one that was known.
abbrev pub success_time : (now : ℕ) → ConnectorState → Option ConnectorStatus → Option ℕ
success_time now ConnectorState.healthy old = some now
success_time now _ none = none
success_time now _ (some row) = row.last_success_at

-- What a result means for the map: the row of its name has everything from the result, the time of the check, and
-- the time of the last success; the others stay.
abbrev pub learn :
    (now : ℕ)
    → ConnectorProbeResult
    → (String → Option ConnectorStatus)
    → String
    → Option ConnectorStatus
learn now r old name =
    if str_eq r.name name
    then some (record {
      name = r.name;
      status = r.status;
      configured = r.configured;
      latency_ms = r.latency_ms;
      last_success_at = success_time now r.status (old r.name);
      last_checked_at = now;
      error_code = r.error_code;
      error_summary = r.error_summary;
      details = r.details;
    })
    else old name

abbrev pub learn_all :
    (now : ℕ)
    → List ConnectorProbeResult
    → (String → Option ConnectorStatus)
    → String
    → Option ConnectorStatus
learn_all now [] old = old
learn_all now (result ∷ rest) old = learn_all now rest (learn now result old)

differs : (a b c : String) → a ≡ c → str_eq a b ≡ false → str_eq b c ≡ false
differs a b c e apart = elim (Bool-cases (str_eq b c)) [
  | inl same ↦
      let f : b ≡ c = (str_eq_iff b c).0 same in
      let no : str_eq a b ≡ true = rw (e, f) (str_eq_refl c) in cc
  | inr other ↦ other
]

first_success :
    (now : ℕ) (state : ConnectorState)
    → (if is_healthy state then some now else none) ≡ success_time now state none
first_success now ConnectorState.disabled = refl
first_success now ConnectorState.unverified = refl
first_success now ConnectorState.healthy = refl
first_success now ConnectorState.degraded = refl
first_success now ConnectorState.down = refl
first_success now ConnectorState.misconfigured = refl

next_success :
    (now : ℕ) (state : ConnectorState) (row : ConnectorStatus)
    → (if is_healthy state then some now else row.last_success_at)
      ≡ success_time now state (some row)
next_success now ConnectorState.disabled row = refl
next_success now ConnectorState.unverified row = refl
next_success now ConnectorState.healthy row = refl
next_success now ConnectorState.degraded row = refl
next_success now ConnectorState.down row = refl
next_success now ConnectorState.misconfigured row = refl

view-upsert :
    (now : ℕ) (result : ConnectorProbeResult) (rows : List ConnectorStatus) (name : String)
    → view (upsert now result rows) name ≡ learn now result (view rows) name
unfolding upsert status_row
view-upsert now result [] name = rw (first_success now result.status) refl
view-upsert now result (row ∷ rest) name = elim (Bool-cases (str_eq row.name result.name)) [
  | inl same ↦
      let e : row.name ≡ result.name = (str_eq_iff row.name result.name).0 same in
      rw (same, upsert, next_success now result.status row, e) (ground arith)
  | inr other ↦
      let later = view-upsert now result rest name in
      elim (Bool-cases (str_eq row.name name)) [
        | inl this ↦
            let e : row.name ≡ name = (str_eq_iff row.name name).0 this in
            rw (other, upsert, this, differs row.name result.name name e other) refl
        | inr apart ↦ rw (other, upsert, apart) later
      ]
]

view-upsert_all :
    (now : ℕ) (results : List ConnectorProbeResult) (rows : List ConnectorStatus)
    → view (upsert_all now results rows) ≡ learn_all now results (view rows)
unfolding upsert_all
view-upsert_all now [] rows = refl
view-upsert_all now (result ∷ rest) rows =
    view-upsert_all now rest (upsert now result rows)
    ∙ ap (learn_all now rest) (λ i name. view-upsert now result rows name i)

-- How a refresh ends: an exception that some probe does not catch leaves the table as it was, and without one the
-- table learns the results of the twelve connectors.
pub data Refreshed (world : World) (now : ℕ) (rows : List ConnectorStatus)
    : Result Failure (List ConnectorProbeResult) → List ConnectorStatus → Type 0 where
  raises : (f : Failure) → Escapes world f → Refreshed world now rows (err f) rows
  learns :
      (results : List ConnectorProbeResult) (after : List ConnectorStatus)
      → map (λ r. r.name) results ≡ connector_names
      → view after ≡ learn_all now results (view rows)
      → Refreshed world now rows (ok results) after

-- A refresh raises only what a probe lets through, and then changes nothing. Else it answers one result for each of
-- the twelve connectors, and the table stands for the map that learns them one after the other, wherever its rows
-- stand: the row of each result is new, with the time of the last success kept unless the connector is healthy, and
-- every other row stays.
pub refresh_connector_statuses-Refreshed :
    (world : World) (accounts : List ApifyAccount) (now : ℕ) (rows : List ConnectorStatus)
    → let (answer, after) = refresh_connector_statuses world accounts now rows in
      Refreshed world now rows answer after
unfolding refresh_connector_statuses
refresh_connector_statuses-Refreshed world accounts now rows =
    let all = collect_connector_probes-Gives world accounts in
    elim (Result-cases (collect_connector_probes world accounts)) [
      | inl (results, returned) ↦
          rw (returned, refresh_connector_statuses)
            (learns results (upsert_all now results rows) (rw returned at all)
              (view-upsert_all now results rows))
      | inr (f, raised) ↦ rw (raised, refresh_connector_statuses) (raises f (rw raised at all))
    ]
