-- ===== src/Apify/Hook.antt =====
-- app/services/apify_runs.py: what Apify's webhook brings.
use Prim.Native.String.{◌++◌ as text_append, String}
use text.Mathlib.Text.{◌==◌ as str_eq}
use auto_bot_lbc_pj.Prelude.{
  ℕ, Bool, true, false, not, [], ◌∷◌, ◌++◌, Option, if◌then◌else◌, any, get, Result, ok, ◌>>=◌,
  or_raise, commit,
}
use auto_bot_lbc_pj.Tables.{StoredPayload, Db}
use auto_bot_lbc_pj.Apify.Rows.{ApifyAccount, Store}
use auto_bot_lbc_pj.Apify.Runs.{
  RunError, account_not_found, secret_not_decrypted, remote_run_id_required, invalid_webhook_secret,
  RemoteRun, sync_remote_run_in_session,
}
use auto_bot_lbc_pj.Apify.Launch.{Apify, guard}

abbrev colon : String → String → String
colon a b = text_append a (text_append ":" b)

abbrev pub webhook_key : Apify → ℕ → String → RemoteRun → String
webhook_key apify account_id event_type resource = apify.sha256 (
    colon "apify"
      (colon (apify.show account_id) (colon event_type (colon resource.id resource.status_in_key))))

unfoldable pub insert_event : Apify → String → StoredPayload → Db → Bool × Db
insert_event apify key payload db =
    if any (λ e. str_eq e.event_key key) db.webhook_events then (false, db) else (
      true,
      record db {
        webhook_events =
            db.webhook_events
            ++ record {
              event_key = key;
              source = "apify";
              processed = false;
              payload = payload;
              created_at = apify.now;
            }
              ∷ [];
      },
    )

unfoldable pub sync_if_new :
    Apify → ApifyAccount → RemoteRun → Bool × Db → Store → Result RunError (Bool × Store)
sync_if_new apify account resource (false, db) s = ok (false, s)
sync_if_new apify account resource (true, db) s =
    sync_remote_run_in_session (apify.fresh_run 0) account resource (record s { db = db })
    >>= λ synced. ok (true, synced.1)

unfoldable pub accept_session :
    Apify
    → (account_id : ℕ) (event_type : String) → RemoteRun
    → StoredPayload
    → (authorization : Option String) → Store
    → Result RunError (Bool × Store)
accept_session apify account_id event_type resource payload authorization s = do
  named ← guard (not (str_eq resource.id "")) remote_run_id_required
  account ← or_raise (get (λ a. a.id) account_id s.accounts) account_not_found
  secret ← or_raise (apify.decrypt account.webhook_secret_ciphertext) secret_not_decrypted
  given ← or_raise authorization invalid_webhook_secret
  same ← guard (str_eq given (text_append "Bearer " secret)) invalid_webhook_secret
  sync_if_new apify account resource
      (insert_event apify (webhook_key apify account_id event_type resource) payload s.db) s

unfoldable pub accept_webhook :
    Apify
    → (account_id : ℕ) (event_type : String) → RemoteRun
    → StoredPayload
    → (authorization : Option String) → Store
    → Result RunError Bool × Store
accept_webhook apify account_id event_type resource payload authorization s =
    commit s (accept_session apify account_id event_type resource payload authorization s)
