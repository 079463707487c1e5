-- ===== src/Apify/Samples.antt =====
-- A small payload and a run over it, and the theorems at them.
use auto_bot_lbc_pj.Prelude.{
  err, ℕ, String, ◌||◌, true, false, [], ◌∷◌, Option, none, some, ◌≡◌, if◌then◌else◌, starts_with,
  refl, arith, ok,
}
use auto_bot_lbc_pj.Models.{CampaignStatus}
use auto_bot_lbc_pj.Samples.{empty_db, campaign}
use auto_bot_lbc_pj.Sms.Blacklist.{is_blacklisted}
use auto_bot_lbc_pj.Inbox.Phones.{PhoneLibrary, extract_phone, normalize}
use auto_bot_lbc_pj.Inbox.Contacts.{
  Outside, ensure_contact_sequence_in_session, ensure_contact, ensure_sequence,
}
use auto_bot_lbc_pj.Apify.Payload.{
  Json, string, array, object, nil, element, end, member, flatten_payload, flatten_loop, size,
}
use auto_bot_lbc_pj.Apify.Flatten.{visit, flatten_payload-visit}
use auto_bot_lbc_pj.Apify.Candidates.{
  TextLibrary, field_key, score_phone_candidate, profile_mappings, add_if, if_text, collect_text,
  collect_numbers, collect_value, collect_candidates,
}
use auto_bot_lbc_pj.Apify.Fields.{
  schema_paths_of, best_candidate, integer_of, infer_source_platform,
}
use auto_bot_lbc_pj.Apify.Fallback.{normalize_apify_item_with_fallback, some_text_has_phone}
use auto_bot_lbc_pj.Apify.Ingestion.{
  link_contact, imported_item, sequence_context, ignored_item, exceptional_item, lead_phone,
  import_phone, process_lead, process_new_item, finish_item, import_one_item,
}
use auto_bot_lbc_pj.Apify.Normalize.{
  normalize_apify_item, has_phone_shape, flattened_payload, insert_sorted, by_score, unique_phones,
  ambiguous, ambiguous_lead, lead_status, selected_lead, choose_lead, lead_of, normalize_mapped,
}
use auto_bot_lbc_pj.Apify.Clear.{Verdict}
use auto_bot_lbc_pj.Apify.Verdict.{phones_of, normalize_apify_item-Verdict}
use auto_bot_lbc_pj.Apify.Rows.{ApifyAccount, ApifyActorBinding, ApifyRun, Store}
use auto_bot_lbc_pj.Apify.Items.{Env, RunContext, store_listing, upsert_listing}
use auto_bot_lbc_pj.Apify.Import.{
  item_not_storable, Counters, context_from, save_run_progress, save_page, import_items,
  finish_import, import_run,
}
use auto_bot_lbc_pj.Apify.Counted.{Counted, import_run-Counted}
use auto_bot_lbc_pj.Apify.Again.{without_new}
use auto_bot_lbc_pj.Apify.Twice.{imported_at, import_run-again}

-- A text that starts with 06 or +33 is a phone.
abbrev if_phone : String → Option String
if_phone s = if starts_with s "06" || starts_with s "+33" then some s else none

abbrev library : PhoneLibrary
library = record {
  parse = λ s. some 1;
  is_valid_number = λ n. true;
  format_e164 = λ n. "+33612345678";
  search = λ s. if_phone s;
  digits = λ s. s;
}

abbrev texts : TextLibrary
texts = record {
  repr = λ j. "";
  truthy = λ j. true;
  show = λ n. "0";
  lower = λ s. s;
  strip = λ s. s;
  find_number = λ s. some s;
  only_digits = λ s. s;
  int = λ s. 7;
  phoneish = λ s. false;
  phones = library;
}

abbrev payload : Json
payload = object (
    member "title" (string "Car") (
      member "contact" (object (member "phone" (string "06") end))
        (member "tags" (array (element (string "a") nil)) end)))

flatten_payload-visit_example :
    flatten_payload (λ n. "0") 6 payload ≡ some (visit (λ n. "0") "" 0 payload [])
unfolding size
flatten_payload-visit_example = flatten_payload-visit (λ n. "0") payload 6 (omega arith)

normalize_apify_item-Verdict_example :
    let lead = normalize_apify_item texts none none payload in
    Verdict
      (has_phone_shape texts (visit texts.show "" 0 payload []))
      (phones_of texts none none payload)
      lead
      lead.status
normalize_apify_item-Verdict_example = normalize_apify_item-Verdict texts none none payload

abbrev outside : Outside
outside = record { now = 500; new_contact = 30; new_sequence = 40; phones = library; delay = true }

abbrev env : ℕ → Env
env now = record {
  lib = texts;
  ask = λ values paths. none;
  ask_error = "APIError";
  apify_ai_fallback_enabled = true;
  decrypt = λ s. some s;
  dataset = λ token id. (payload ∷ string "b" ∷ [], false);
  dumps = λ j. "";
  canonical = λ j. "";
  storable = λ j. true;
  sha256 = λ s. s;
  show_integer = λ n. "1";
  show_confidence = λ n. "1";
  now = now;
  new_item = λ index. index;
  new_listing = λ index. index;
  outside = λ index. outside;
  apify_import_page_size = 1;
  delay = true;
}

abbrev pub account : ApifyAccount
account = record {
  id = 3;
  workspace_id = 1;
  token_ciphertext = "t";
  webhook_secret_ciphertext = "w";
  status = "active";
  last_error = none;
  last_checked_at = none;
}

abbrev pub binding : ApifyActorBinding
binding = record {
  id = 4;
  account_id = 3;
  sector_id = none;
  campaign_id = some 1;
  resource_type = "actor";
  resource_id = "a";
  input_ciphertext = "";
  enabled = true;
  schedule_authority = "internal";
  schedule_minutes = some 60;
  next_run_at = none;
  active_profile_id = none;
  suspended_reason = none;
  created_at = 0;
}

abbrev pub run : ApifyRun
run = record {
  id = 5;
  workspace_id = 1;
  account_id = 3;
  binding_id = 4;
  apify_run_id = "r";
  status = "SUCCEEDED";
  started_at = none;
  finished_at = none;
  default_dataset_id = some "d";
  cost_usd = none;
  items_read = 0;
  items_imported = 0;
  items_ignored = 0;
  items_exception = 0;
  imported_at = none;
}

abbrev pub store : Store
store = record {
  db = record empty_db { campaigns = campaign CampaignStatus.running ∷ [] };
  accounts = account ∷ [];
  bindings = binding ∷ [];
  profiles = [];
  runs = run ∷ [];
  items = [];
  exceptions = [];
}

abbrev context : RunContext
context = record {
  id = 5;
  workspace_id = 1;
  account_id = 3;
  binding_id = 4;
  campaign_id = 1;
  sector_id = none;
  dataset_id = "d";
  token = "t";
  profile = none;
}

import_run-Counted_example :
    (c : Counters) × Counted (env 9) 5 context store (import_run (env 9) 5 store) c
unfolding context_from
import_run-Counted_example = import_run-Counted (env 9) 5 context store refl refl (refl, (refl, tt))

-- The first item has a phone; the second is a bare text, which is stored as an object.
abbrev counted : Counters
counted = record { read = 2; actionable = 1; sequences_created = 1; exceptions = 0 }

program : Unit {0}
unfolding size flatten_loop flatten_payload flattened_payload field_key score_phone_candidate
    profile_mappings add_if if_text collect_text collect_numbers collect_value collect_candidates
    schema_paths_of best_candidate integer_of infer_source_platform insert_sorted by_score
    unique_phones ambiguous ambiguous_lead lead_status has_phone_shape selected_lead choose_lead
    lead_of normalize_mapped normalize_apify_item normalize_apify_item_with_fallback
    some_text_has_phone extract_phone normalize ensure_contact_sequence_in_session ensure_contact
    ensure_sequence store_listing upsert_listing link_contact imported_item sequence_context
    ignored_item exceptional_item lead_phone import_phone process_lead process_new_item finish_item
    import_one_item context_from save_run_progress save_page import_items finish_import import_run
    is_blacklisted
program = tt

abbrev imported : Store
imported = (import_run (env 9) 5 store).1

import_run_counts : import_run (env 9) 5 store ≡ (ok counted, imported)
unfolding program
import_run_counts = refl

import_run-again_example :
    import_run (env 50) 5 imported ≡ (ok (without_new counted), imported_at 5 50 imported)
import_run-again_example =
    import_run-again (env 9) (env 50) 5 counted store imported
      (record { decrypt = refl; dataset = refl; hash = λ j. refl; storable = λ j. refl })
      import_run_counts

-- An item that cannot be stored ends the import, and keeps what was imported before it.
unstorable_stops :
    (import_run (record (env 9) { storable = λ j. false }) 5 store).0 ≡ err item_not_storable
unfolding program
unstorable_stops = refl
