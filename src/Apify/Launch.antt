-- ===== src/Apify/Launch.antt =====
-- app/services/apify_runs.py: starting, looking up and replaying runs.
use Prim.Native.String.{String}
use text.Mathlib.Text.{◌==◌ as str_eq}
use auto_bot_lbc_pj.Prelude.{
  ℕ, ◌+◌, ◌*◌, Bool, true, false, ◌&&◌, not, List, [], ◌∷◌, ◌++◌, Option, none, some, ◌==◌,
  if◌then◌else◌, find, get, modify, first_chars, Result, ok, err, ◌>>=◌, or_raise,
}
use auto_bot_lbc_pj.Apify.Rows.{ApifyAccount, ApifyActorBinding, ApifyRun, Store}
use auto_bot_lbc_pj.Apify.Import.{is_importable}
use auto_bot_lbc_pj.Apify.Runs.{
  RunError, account_not_found, binding_not_found_or_locked, binding_not_runnable,
  account_not_active, secret_not_decrypted, start_failed, remote_run_not_found, invalid_input,
  run_not_found, run_not_replayable, provider_failed, queue_failed, RemoteRun, run_is,
  sync_remote_run, run_output,
}

-- Outside the repository: the clock, uuid4 (for the n-th run that is synchronised), the codec, whether a text
-- is JSON, Apify's answers (`start`: the run, or the text of the exception; `none` of the others: it raises),
-- sha256, and whether Celery takes the import of a run.
pub record Apify : Type 0 where
  pub now : ℕ
  pub fresh_run : ℕ → ℕ
  pub new_audit : ℕ
  pub decrypt : String → Option String
  pub is_json : String → Bool
  pub start : (token resource_type resource_id input : String) → Result String RemoteRun
  pub get_run : (token remote_run_id : String) → Option (Option RemoteRun)
  pub list_recent_runs : (token : String) → Option (List RemoteRun)
  pub sha256 : String → String
  pub show : ℕ → String
  pub delay : (account_id : ℕ) (remote_run_id : String) → Bool

abbrev pub set_next_run : Option ℕ → ApifyActorBinding → ApifyActorBinding
set_next_run t b = record b { next_run_at = t }

abbrev pub write_binding : ℕ → Option ℕ → Store → Store
write_binding id t s = record s { bindings = modify (λ b. b.id) id (set_next_run t) s.bindings }

-- The next time of a binding that is scheduled here; an interval of zero counts as none.
unfoldable pub next_time : Apify → ApifyActorBinding → Option ℕ
next_time apify b = elim b.schedule_minutes [
  | none ↦ b.next_run_at
  | some minutes ↦
      if str_eq b.schedule_authority "internal" && not (minutes == 0)
      then some (apify.now + minutes * 60)
      else b.next_run_at
]

suspended : Option String → Bool
suspended none = false
suspended (some reason) = not (str_eq reason "")

abbrev pub guard : Bool → RunError → Result RunError (Unit {0})
guard true e = ok tt
guard false e = err e

pub record Started : Type 0 where
  pub binding : ApifyActorBinding
  pub account : ApifyAccount
  pub token : String
  pub input : String

unfoldable pub input_or_empty : String → String
input_or_empty text = if str_eq text "" then "{}" else text

-- What the start needs, and the next time written to the row.
abbrev pub prepared :
    Apify → ApifyActorBinding → ApifyAccount → (token input : String) → Store → Started × Store
prepared apify b account token input s = (
  record { binding = b; account = account; token = token; input = input },
  write_binding b.id (next_time apify b) s,
)

-- The first session; `locked`: another session holds the row, which is skipped.
unfoldable pub prepare_launch :
    Apify → (locked : Bool) (binding_id : ℕ) → Store → Result RunError (Started × Store)
unfolding suspended
prepare_launch apify locked binding_id s = do
  free ← guard (not locked) binding_not_found_or_locked
  b ← or_raise (get (λ b. b.id) binding_id s.bindings) binding_not_found_or_locked
  runnable ← guard (b.enabled && not (suspended b.suspended_reason)) binding_not_runnable
  account ← or_raise (get (λ a. a.id) b.account_id s.accounts) account_not_active
  active ← guard (str_eq account.status "active") account_not_active
  token ← or_raise (apify.decrypt account.token_ciphertext) secret_not_decrypted
  input ← or_raise (apify.decrypt b.input_ciphertext) secret_not_decrypted
  json ← guard (apify.is_json (input_or_empty input)) invalid_input
  ok (prepared apify b account token (input_or_empty input) s)

unfoldable pub launch_audit : Apify → ℕ → (result : String) → List (String × String) → Store → Store
launch_audit apify binding_id result summary s = record s {
  db = record s.db {
    audit =
        s.db.audit
        ++ record {
          id = apify.new_audit;
          actor = "system";
          role = "admin";
          action = "apify.binding.launch";
          target_type = some "apify_binding";
          target_id = some binding_id;
          idempotency_key = none;
          input_summary = summary;
          result_status = result;
          workflow_run_id = none;
        }
          ∷ [];
  };
}

-- The session after a start that raised: the old time is written back.
unfoldable pub undo_launch :
    Apify → ℕ → (trigger error : String) → (original : Option ℕ) → Store → Store
unfolding launch_audit
undo_launch apify binding_id trigger error original s =
    elim (get (λ b. b.id) binding_id s.bindings) [
      | none ↦ s
      | some b ↦
          launch_audit apify binding_id "failed"
            (("trigger", trigger) ∷ ("error", first_chars 300 error) ∷ [])
            (write_binding binding_id original s)
    ]

unfoldable pub record_launch :
    Apify → ℕ → String → Result RunError ApifyRun × Store → Result RunError ApifyRun × Store
unfolding launch_audit
record_launch apify binding_id trigger (err e, s) = (err e, s)
record_launch apify binding_id trigger (ok r, s) =
    (ok r, launch_audit apify binding_id "success" (("trigger", trigger) ∷ []) s)

unfoldable pub start_launch :
    Apify → ℕ → String → Started → Store → Result RunError ApifyRun × Store
start_launch apify binding_id trigger started s =
    let b = started.binding in
    elim (apify.start started.token b.resource_type b.resource_id started.input) [
      | err error ↦ (err start_failed, undo_launch apify binding_id trigger error b.next_run_at s)
      | ok remote ↦ record_launch apify binding_id trigger (
          sync_remote_run (apify.fresh_run 0) started.account.id
            (record remote { binding_id = some binding_id }) s)
    ]

unfoldable pub launch_binding :
    Apify
    → (locked : Bool) (binding_id : ℕ) (trigger : String) → Store
    → Result RunError ApifyRun × Store
launch_binding apify locked binding_id trigger s = elim (prepare_launch apify locked binding_id s) [
  | err e ↦ (err e, s)
  | ok (started, s') ↦ start_launch apify binding_id trigger started s'
]

-- A run that is known is answered; else Apify is asked.
unfoldable pub fetch_run :
    Apify → (account_id : ℕ) (remote_run_id : String) → Store → Result RunError RemoteRun
fetch_run apify account_id remote_run_id s = do
  account ← or_raise (get (λ a. a.id) account_id s.accounts) account_not_found
  token ← or_raise (apify.decrypt account.token_ciphertext) secret_not_decrypted
  answer ← or_raise (apify.get_run token remote_run_id) provider_failed
  or_raise answer remote_run_not_found

unfoldable pub get_or_sync_remote_run :
    Apify → (account_id : ℕ) (remote_run_id : String) → Store → Result RunError ApifyRun × Store
get_or_sync_remote_run apify account_id remote_run_id s =
    elim (find (run_is account_id remote_run_id) s.runs) [
      | some r ↦ (run_output r, s)
      | none ↦ elim (fetch_run apify account_id remote_run_id s) [
        | err e ↦ (err e, s)
        | ok remote ↦ sync_remote_run (apify.fresh_run 0) account_id remote s
      ]
    ]

-- `replay_run`: the import is queued again, for the same row.
unfoldable pub replay_run : Apify → (run_id : ℕ) → Store → Result RunError ℕ
replay_run apify run_id s = do
  run ← or_raise (get (λ r. r.id) run_id s.runs) run_not_found
  importable ← guard (is_importable run) run_not_replayable
  taken ← guard (apify.delay run.account_id run.apify_run_id) queue_failed
  ok 1
