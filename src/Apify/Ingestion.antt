-- ===== src/Apify/Ingestion.antt =====
-- app/services/apify_ingestion.py: what becomes of one item of a dataset.
use Prim.Native.String.{◌++◌ as text_append, String}
use text.Mathlib.Text.{◌==◌ as str_eq}
use mathlib.Core.Option.{map as map_option}
use auto_bot_lbc_pj.Prelude.{
  ℕ, ℤ, false, List, [], ◌∷◌, ◌++◌, Option, none, some, if◌then◌else◌, find, modify, Result, ok,
  err,
}
use auto_bot_lbc_pj.Tables.{Db}
use auto_bot_lbc_pj.Inbox.Contacts.{
  Error, listing_not_found, integrity_error, dispatch_failed, Ensured,
  ensure_contact_sequence_in_session,
}
use auto_bot_lbc_pj.Apify.Payload.{Json}
use auto_bot_lbc_pj.Apify.Normalize.{LeadStatus, NormalizedApifyLead}
use auto_bot_lbc_pj.Apify.Fallback.{normalize_apify_item_with_fallback}
use auto_bot_lbc_pj.Apify.Rows.{ApifyItem, ApifyItemStatus, ApifyException, Store}
use auto_bot_lbc_pj.Apify.Items.{
  Env, RunContext, actionable, exception, ignored, ItemOutcome, stored_payload, payload_hash,
  item_is, new_item, outcome, replayed_outcome, upsert_listing,
}

text_entry : String → Option String → List (String × String) → List (String × String)
text_entry key none rest = rest
text_entry key (some t) rest = (key, t) ∷ rest

-- The fields that are not `None`; a number as its text.
unfoldable pub sequence_context : Env → NormalizedApifyLead → List (String × String)
unfolding text_entry
sequence_context env lead =
    let number = λ (n : Option ℤ). map_option env.show_integer n in
    ("source_platform", lead.source_platform)
    ∷ text_entry "source_item_id" lead.source_item_id (
        text_entry "url" lead.url (
          text_entry "title" lead.title (
            text_entry "description" lead.description (
              text_entry "price" (number lead.price) (
                text_entry "mileage" (number lead.mileage) (
                  text_entry "location" lead.location (
                    text_entry "brand" lead.brand (
                      text_entry "model" lead.model (
                        text_entry "year" (number lead.year) (
                          text_entry "seller_type" lead.seller_type
                            (("confidence", env.show_confidence lead.confidence) ∷ [])))))))))))

-- `type(exc).__name__`.
error_name : Error → String
error_name integrity_error = "IntegrityError"
error_name dispatch_failed = "OperationalError"
error_name listing_not_found = "LookupError"
error_name _ = "ValueError"

unfoldable pub link_contact : Option ℕ → Option ℕ → Db → Db
link_contact (some listing) (some contact) db = record db {
  listings = modify (λ l. l.id) listing (λ l. record l { contact_id = some contact }) db.listings;
}
link_contact _ _ db = db

abbrev pub normalized_item : Env → NormalizedApifyLead → ApifyItemStatus → ApifyItem → ApifyItem
normalized_item env lead status item = record item {
  normalized_payload = some lead;
  confidence = some lead.confidence;
  processed_at = some env.now;
  status = status;
}

abbrev exception_row : RunContext → ApifyItem → NormalizedApifyLead → ApifyException
exception_row context item lead = record {
  workspace_id = context.workspace_id;
  binding_id = context.binding_id;
  run_id = context.id;
  item_id = item.id;
  category = elim lead.error_code [ none ↦ "normalization_ambiguity" | some code ↦ code ];
  paths = lead.evidence;
}

-- What a session has made of the item: the outcome, the row and the other tables, or an exception.
abbrev pub Processed : Type 0
Processed = Result String ((ItemOutcome × ApifyItem) × Store)

unfoldable pub imported_item :
    Env → NormalizedApifyLead → Option ℕ → Ensured → ApifyItem → ApifyItem
imported_item env lead listing ensured item =
    record (normalized_item env lead ApifyItemStatus.imported item) {
      contact_id = ensured.contact_id;
      sms_sequence_id = ensured.sequence_id;
      listing_id = listing;
    }

unfoldable pub import_phone :
    Env
    → RunContext
    → ℕ
    → ApifyItem
    → Json
    → NormalizedApifyLead
    → (phone : String) → Store
    → Processed
unfolding link_contact imported_item sequence_context error_name
import_phone env context index item payload lead phone s =
    let listed = upsert_listing env context index lead payload s.db in
    elim (ensure_contact_sequence_in_session (env.outside index) phone context.campaign_id listed.0
      (sequence_context env lead) listed.1) [
        | err e ↦ err (error_name e)
        | ok (ensured, db) ↦ ok (
          (outcome actionable ensured.created, imported_item env lead listed.0 ensured item),
          record s { db = link_contact listed.0 ensured.contact_id db },
        )
      ]

unfoldable pub ignored_item : Env → ApifyItem → NormalizedApifyLead → Store → Processed
ignored_item env item lead s = ok (
  (
    outcome ignored false,
    record (normalized_item env lead ApifyItemStatus.ignored item) { error = lead.error_code },
  ),
  s,
)

unfoldable pub exceptional_item :
    Env → RunContext → ApifyItem → NormalizedApifyLead → Store → Processed
exceptional_item env context item lead s = ok (
  (
    outcome exception false,
    record (normalized_item env lead ApifyItemStatus.exception item) { error = lead.error_code },
  ),
  record s { exceptions = s.exceptions ++ exception_row context item lead ∷ [] },
)

unfoldable pub lead_phone : NormalizedApifyLead → Option String
lead_phone lead = elim lead.phone_e164 [
  | none ↦ none
  | some phone ↦ if str_eq phone "" then none else some phone
]

unfoldable pub process_lead :
    Env → RunContext → ℕ → ApifyItem → Json → NormalizedApifyLead → LeadStatus → Store → Processed
unfolding ignored_item exceptional_item lead_phone
process_lead env context index item payload lead LeadStatus.exception s =
    exceptional_item env context item lead s
process_lead env context index item payload lead LeadStatus.actionable s = elim (lead_phone lead) [
  | none ↦ ignored_item env item lead s
  | some phone ↦ import_phone env context index item payload lead phone s
]
process_lead env context index item payload lead _ s = ignored_item env item lead s

unfoldable pub process_new_item : Env → RunContext → ℕ → ApifyItem → Json → Store → Processed
process_new_item env context index item payload s =
    elim (normalize_apify_item_with_fallback env.lib env.ask env.apify_ai_fallback_enabled none
      context.profile payload) [
        | none ↦ err env.ask_error
        | some lead ↦ process_lead env context index item payload lead lead.status s
      ]

abbrev pub failed_item : Env → String → ApifyItem → ApifyItem
failed_item env name item = record item {
  status = ApifyItemStatus.ignored;
  error = some (text_append "item_processing_failed:" name);
  processed_at = some env.now;
}

abbrev pub add_item : ApifyItem → Store → Store
add_item item s = record s { items = s.items ++ item ∷ [] }

-- The savepoint: an exception takes back all but the row of the item, which is marked.
unfoldable pub finish_item : Env → ApifyItem → Store → Processed → ItemOutcome × Store
finish_item env item s (ok ((done, row), s')) = (done, add_item row s')
finish_item env item s (err name) = (outcome ignored false, add_item (failed_item env name item) s)

-- An item that can be stored. One that is there is reported as it was, and not processed again.
unfoldable pub import_one_item : Env → RunContext → (index : ℕ) → Json → Store → ItemOutcome × Store
import_one_item env context index payload s =
    let item = new_item env context index payload in
    elim (find (item_is context index (payload_hash env payload)) s.items) [
      | some old ↦ (replayed_outcome old, s)
      | none ↦
          finish_item env item s
            (process_new_item env context index item (stored_payload payload) s)
    ]
