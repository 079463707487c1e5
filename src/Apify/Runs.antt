-- ===== src/Apify/Runs.antt =====
-- app/services/apify_runs.py: the row of a remote run.
use text.Mathlib.Text.{◌==◌ as str_eq}
use auto_bot_lbc_pj.Prelude.{
  ℕ, String, Bool, true, false, ◌&&◌, List, [], ◌∷◌, ◌++◌, Option, none, some, ◌==◌, ltb,
  if◌then◌else◌, find, select, get, modify, Result, ok, err, ◌>>=◌, or_raise, commit,
}
use auto_bot_lbc_pj.Apify.Candidates.{one_of}
use auto_bot_lbc_pj.Apify.Rows.{ApifyAccount, ApifyActorBinding, ApifyRun, Store}

-- LookupError, ValueError and PermissionError, those of pydantic and of json.loads, and what the codec, the
-- client and Celery raise.
pub data RunError : Type 0 where
  remote_run_id_required binding_not_found_for_run account_not_found invalid_run : RunError
  binding_not_found_or_locked binding_not_runnable account_not_active secret_not_decrypted :
      RunError
  start_failed remote_run_not_found run_not_found run_not_replayable : RunError
  provider_failed queue_failed invalid_webhook_secret invalid_input : RunError

-- What is read of the provider's dictionary: `str(remote.get("id") or "")`, values that are true, the first of
-- the three identifiers of a resource, times that could be parsed, and `remote.get("status", "")` as a text.
pub record RemoteRun : Type 0 where
  pub id : String
  pub status : Option String
  pub status_in_key : String
  pub binding_id : Option ℕ
  pub resource_id : Option String
  pub started_at : Option ℕ
  pub finished_at : Option ℕ
  pub default_dataset_id : Option String
  pub usage : Option String

abbrev or_old {ℓ} : {A : Type ℓ} → Option A → Option A → Option A
or_old none old = old
or_old (some new) old = some new

-- ORDER BY enabled DESC, created_at LIMIT 1.
abbrev before : ApifyActorBinding → ApifyActorBinding → Bool
before a b = elim a.enabled [
  | true ↦ elim b.enabled [ true ↦ ltb a.created_at b.created_at | false ↦ true ]
  | false ↦ elim b.enabled [ true ↦ false | false ↦ ltb a.created_at b.created_at ]
]

first_from : ApifyActorBinding → List ApifyActorBinding → ApifyActorBinding
first_from a [] = a
first_from a (b ∷ rest) = first_from (if before b a then b else a) rest

first_binding : List ApifyActorBinding → Option ApifyActorBinding
unfolding first_from
first_binding [] = none
first_binding (a ∷ rest) = some (first_from a rest)

fits_resource : ℕ → Option String → ApifyActorBinding → Bool
fits_resource account_id none b = b.account_id == account_id
fits_resource account_id (some r) b = b.account_id == account_id && str_eq b.resource_id r

local_binding : ℕ → Option ℕ → Store → Option ApifyActorBinding
local_binding account_id none s = none
local_binding account_id (some id) s = elim (get (λ b. b.id) id s.bindings) [
  | none ↦ none
  | some b ↦ if b.account_id == account_id then some b else none
]

unfoldable pub binding_for_remote : (account_id : ℕ) → RemoteRun → Store → Option ApifyActorBinding
unfolding first_binding fits_resource local_binding
binding_for_remote account_id remote s = elim (local_binding account_id remote.binding_id s) [
  | some b ↦ some b
  | none ↦ first_binding (select (fits_resource account_id remote.resource_id) s.bindings)
]

abbrev pub run_is : (account_id : ℕ) (remote_id : String) → ApifyRun → Bool
run_is account_id remote_id r = r.account_id == account_id && str_eq r.apify_run_id remote_id

-- A status that is missing on both sides is written as `str(None)`.
abbrev pub run_status_text : Option String → Option String → String
run_status_text (some new) old = new
run_status_text none (some old) = old
run_status_text none none = "None"

abbrev pub write_remote : RemoteRun → (old_status : Option String) → ApifyRun → ApifyRun
write_remote remote old r = record r {
  status = run_status_text remote.status old;
  started_at = or_old remote.started_at r.started_at;
  finished_at = or_old remote.finished_at r.finished_at;
  default_dataset_id = or_old remote.default_dataset_id r.default_dataset_id;
  cost_usd = or_old remote.usage r.cost_usd;
}

-- Before it is flushed the row has no status: the default of the column comes later.
abbrev pub new_remote_run :
    (new_id : ℕ) → ApifyAccount → ApifyActorBinding → (remote_id : String) → ApifyRun
new_remote_run new_id account binding remote_id = record {
  id = new_id;
  workspace_id = account.workspace_id;
  account_id = account.id;
  binding_id = binding.id;
  apify_run_id = remote_id;
  status = "";
  started_at = none;
  finished_at = none;
  default_dataset_id = none;
  cost_usd = none;
  items_read = 0;
  items_imported = 0;
  items_ignored = 0;
  items_exception = 0;
  imported_at = none;
}

abbrev pub add_remote_run : ApifyRun → Store → Store
add_remote_run r s = record s { runs = s.runs ++ r ∷ [] }

unfoldable pub sync_known :
    (new_id : ℕ) → ApifyAccount → RemoteRun → Store → Result RunError (ApifyRun × Store)
sync_known new_id account remote s = elim (find (run_is account.id remote.id) s.runs) [
  | some r ↦ ok (
    write_remote remote (some r.status) r,
    record s { runs = modify (λ x. x.id) r.id (λ x. write_remote remote (some x.status) x) s.runs },
  )
  | none ↦ elim (binding_for_remote account.id remote s) [
    | none ↦ err binding_not_found_for_run
    | some b ↦
        let r = write_remote remote none (new_remote_run new_id account b remote.id) in
        ok (r, add_remote_run r s)
  ]
]

unfoldable pub sync_remote_run_in_session :
    (new_id : ℕ) → ApifyAccount → RemoteRun → Store → Result RunError (ApifyRun × Store)
sync_remote_run_in_session new_id account remote s =
    if str_eq remote.id "" then err remote_run_id_required else sync_known new_id account remote s

-- `_run_output`, where pydantic checks the status.
unfoldable pub run_output : ApifyRun → Result RunError ApifyRun
run_output r =
    let names = "READY" ∷ "RUNNING" ∷ "SUCCEEDED" ∷ "FAILED" ∷ "ABORTED" ∷ "TIMED-OUT" ∷ [] in
    if one_of r.status names then ok r else err invalid_run

unfoldable pub sync_session :
    (new_id account_id : ℕ) → RemoteRun → Store → Result RunError (ApifyRun × Store)
unfolding run_output
sync_session new_id account_id remote s = do
  account ← or_raise (get (λ a. a.id) account_id s.accounts) account_not_found
  synced ← sync_remote_run_in_session new_id account remote s
  output ← run_output synced.0
  ok (output, synced.1)

unfoldable pub sync_remote_run :
    (new_id account_id : ℕ) → RemoteRun → Store → Result RunError ApifyRun × Store
sync_remote_run new_id account_id remote s = commit s (sync_session new_id account_id remote s)

unfoldable pub get_due_binding_ids : (now : ℕ) → Store → List ApifyActorBinding
get_due_binding_ids now s =
    select
      (λ b.
        b.enabled
        && str_eq b.schedule_authority "internal"
        && elim b.next_run_at [
          | none ↦ false
          | some t ↦ elim (ltb now t) [ true ↦ false | false ↦ true ]
        ]
        && elim b.suspended_reason [ none ↦ true | some reason ↦ false ])
      s.bindings
