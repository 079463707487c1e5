-- ===== src/Apify/Import.antt =====
-- app/services/apify_ingestion.py: the import of a run, item by item.
use text.Mathlib.Text.{◌==◌ as str_eq}
use mathlib.Core.Option.{map as map_option}
use Prim.Native.Nat.{◌%◌}
use auto_bot_lbc_pj.Prelude.{
  ℕ, suc, ◌-◌, max, String, Bool, true, false, not, ◌&&◌, List, [], ◌∷◌, Option, none, some, ◌==◌,
  ltb, if◌then◌else◌, get, modify, Result, ok, err, ◌>>=◌, or_raise,
}
use auto_bot_lbc_pj.Apify.Payload.{Json}
use auto_bot_lbc_pj.Apify.Rows.{
  ApifyAccount, ApifyActorBinding, ApifyNormalizationProfile, ApifyRun, Store,
}
use auto_bot_lbc_pj.Apify.Items.{
  Env, RunContext, can_store, OutcomeStatus, actionable, exception, ItemOutcome,
}
use auto_bot_lbc_pj.Apify.Ingestion.{import_one_item}

-- LookupError, the two ValueErrors, and what the codec, the client, Celery, and the encoding or the storing of an item
-- raise.
pub data ImportError : Type 0 where
  run_not_found run_not_importable binding_campaign_required : ImportError
  secret_not_decrypted dataset_failed dispatch_failed item_not_storable : ImportError

abbrev has_text : Option String → Bool
has_text none = false
has_text (some t) = not (str_eq t "")

abbrev pub text_of : Option String → String
text_of none = ""
text_of (some t) = t

-- A run that has succeeded and has a dataset.
abbrev pub is_importable : ApifyRun → Bool
is_importable run = str_eq run.status "SUCCEEDED" && has_text run.default_dataset_id

abbrev pub check_importable : ApifyRun → Result ImportError (Unit {0})
check_importable run = if is_importable run then ok tt else err run_not_importable

active_profile : ApifyActorBinding → List ApifyNormalizationProfile → Option Json
active_profile binding profiles = elim binding.active_profile_id [
  | none ↦ none
  | some id ↦ map_option (λ p. p.mappings) (get (λ p. p.id) id profiles)
]

abbrev context_of :
    ApifyRun
    → ApifyActorBinding
    → (campaign_id : ℕ) (token : String) (profile : Option Json) → RunContext
context_of run binding campaign_id token profile = record {
  id = run.id;
  workspace_id = run.workspace_id;
  account_id = run.account_id;
  binding_id = run.binding_id;
  campaign_id = campaign_id;
  sector_id = binding.sector_id;
  dataset_id = text_of run.default_dataset_id;
  token = token;
  profile = profile;
}

-- The run with its account and its binding, which the join asks for.
unfoldable pub context_from :
    (decrypt : String → Option String)
    → List ApifyAccount
    → List ApifyActorBinding
    → List ApifyNormalizationProfile
    → Option ApifyRun
    → Result ImportError RunContext
unfolding active_profile
context_from decrypt accounts bindings profiles found = do
  run ← or_raise found run_not_found
  account ← or_raise (get (λ a. a.id) run.account_id accounts) run_not_found
  binding ← or_raise (get (λ b. b.id) run.binding_id bindings) run_not_found
  checked ← check_importable run
  campaign_id ← or_raise binding.campaign_id binding_campaign_required
  token ← or_raise (decrypt account.token_ciphertext) secret_not_decrypted
  ok (context_of run binding campaign_id token (active_profile binding profiles))

abbrev pub load_run_context : Env → (run_id : ℕ) → Store → Result ImportError RunContext
load_run_context env run_id s =
    context_from env.decrypt s.accounts s.bindings s.profiles (get (λ r. r.id) run_id s.runs)

pub record Counters : Type 0 where
  pub read : ℕ
  pub actionable : ℕ
  pub sequences_created : ℕ
  pub exceptions : ℕ

abbrev pub no_counters : Counters
no_counters = record { read = 0; actionable = 0; sequences_created = 0; exceptions = 0 }

abbrev count_if : Bool → ℕ → ℕ
count_if true n = suc n
count_if false n = n

abbrev counts_as_actionable : OutcomeStatus → Bool
counts_as_actionable actionable = true
counts_as_actionable _ = false

abbrev is_exception : OutcomeStatus → Bool
is_exception exception = true
is_exception _ = false

abbrev pub count_item : ItemOutcome → Counters → Counters
count_item o c = record {
  read = suc c.read;
  actionable = count_if (counts_as_actionable o.status) c.actionable;
  sequences_created = count_if o.sequence_created c.sequences_created;
  exceptions = count_if (is_exception o.status) c.exceptions;
}

-- The counters of a run's row, and the time of its import once that is finished.
abbrev pub write_progress : (finished_at : Option ℕ) → Counters → ApifyRun → ApifyRun
write_progress none c run = record run {
  items_read = c.read;
  items_imported = c.actionable;
  items_exception = c.exceptions;
  items_ignored = c.read - c.actionable - c.exceptions;
}
write_progress (some now) c run = record run {
  items_read = c.read;
  items_imported = c.actionable;
  items_exception = c.exceptions;
  items_ignored = c.read - c.actionable - c.exceptions;
  imported_at = some now;
}

unfoldable pub save_run_progress :
    (run_id : ℕ) (finished_at : Option ℕ) → Counters → Store → Result ImportError Store
save_run_progress run_id finished_at c s = elim (get (λ r. r.id) run_id s.runs) [
  | none ↦ err run_not_found
  | some run ↦
      ok (record s { runs = modify (λ r. r.id) run_id (write_progress finished_at c) s.runs })
]

abbrev pub page_size : Env → ℕ
page_size env = max 1 env.apify_import_page_size

-- After each full page the row of the run is brought up to date.
unfoldable pub save_page : Env → RunContext → Counters → Store → Result ImportError Store
save_page env context c s =
    if c.read % page_size env == 0 then save_run_progress context.id none c s else ok s

-- The items from `index` on; an exception, also that of an item that cannot be stored, keeps what the sessions before
-- it have committed.
unfoldable pub import_items :
    Env
    → RunContext
    → (index : ℕ) → List Json
    → (raises : Bool) → Counters
    → Store
    → Result ImportError Counters × Store
import_items env context index [] true c s = (err dataset_failed, s)
import_items env context index [] false c s = (ok c, s)
import_items env context index (payload ∷ rest) raises c s =
    let done = import_one_item env context index payload s in
    let c' = count_item done.0 c in
    elim (can_store env payload) [
      | false ↦ (err item_not_storable, s)
      | true ↦ elim (save_page env context c' done.1) [
        | err e ↦ (err e, done.1)
        | ok s' ↦ import_items env context (suc index) rest raises c' s'
      ]
    ]

-- The last update of the run, and the task that sends the first messages of the new sequences.
unfoldable pub finish_import :
    Env → RunContext → Result ImportError Counters × Store → Result ImportError Counters × Store
finish_import env context (err e, s) = (err e, s)
finish_import env context (ok c, s) = elim (save_run_progress context.id (some env.now) c s) [
  | err e ↦ (err e, s)
  | ok s' ↦ (if ltb 0 c.sequences_created && not env.delay then err dispatch_failed else ok c, s')
]

abbrev pub import_from : Env → RunContext → Store → Result ImportError Counters × Store
import_from env context s =
    let fetched = env.dataset context.token context.dataset_id in
    finish_import env context (import_items env context 0 fetched.0 fetched.1 no_counters s)

unfoldable pub import_run : Env → (run_id : ℕ) → Store → Result ImportError Counters × Store
import_run env run_id s = elim (load_run_context env run_id s) [
  | err e ↦ (err e, s)
  | ok context ↦ import_from env context s
]
