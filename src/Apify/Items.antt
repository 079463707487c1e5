-- ===== src/Apify/Items.antt =====
-- app/services/apify_ingestion.py: an item of a dataset, its row, and the listing that it belongs to.
use Prim.Native.String.{String}
use text.Mathlib.Text.{◌==◌ as str_eq}
use auto_bot_lbc_pj.Prelude.{
  ℕ, ℤ, Bool, false, ◌&&◌, List, [], ◌∷◌, ◌++◌, Option, none, some, ◌==◌, if◌then◌else◌, find,
  modify,
}
use auto_bot_lbc_pj.Models.{ListingSource, lbc, la_centrale, ListingStatus}
use auto_bot_lbc_pj.Tables.{Listing, Db}
use auto_bot_lbc_pj.Inbox.Contacts.{Outside}
use auto_bot_lbc_pj.Apify.Payload.{Json, object, end, member}
use auto_bot_lbc_pj.Apify.Candidates.{TextLibrary}
use auto_bot_lbc_pj.Apify.Normalize.{NormalizedApifyLead}
use auto_bot_lbc_pj.Apify.Fallback.{AskModel}
use auto_bot_lbc_pj.Apify.Rows.{ApifyItem, ApifyItemStatus}

-- Outside the repository: Python's texts and the packages for numbers and secrets, the language model with
-- the type of the exception that it raises, Apify's items of a dataset and whether its client raises after
-- them, `json.dumps` as it stands and in canonical form, whether a payload can be stored, sha256, the clock,
-- uuid4, and Celery. A payload can be stored if its canonical text can be encoded, which a lone surrogate (as in
-- "\ud800") prevents, and the database takes it as JSONB.
pub record Env : Type 0 where
  pub lib : TextLibrary
  pub ask : AskModel
  pub ask_error : String
  pub apify_ai_fallback_enabled : Bool
  pub decrypt : String → Option String
  pub dataset : (token dataset_id : String) → List Json × Bool
  pub dumps : Json → String
  pub canonical : Json → String
  pub storable : Json → Bool
  pub sha256 : String → String
  pub show_integer : ℤ → String
  pub show_confidence : ℕ → String
  pub now : ℕ
  pub new_item : ℕ → ℕ
  pub new_listing : ℕ → ℕ
  pub outside : ℕ → Outside
  pub apify_import_page_size : ℕ
  pub delay : Bool

pub record RunContext : Type 0 where
  pub id : ℕ
  pub workspace_id : ℕ
  pub account_id : ℕ
  pub binding_id : ℕ
  pub campaign_id : ℕ
  pub sector_id : Option ℕ
  pub dataset_id : String
  pub token : String
  pub profile : Option Json

pub data OutcomeStatus : Type 0 where
  actionable exception ignored : OutcomeStatus

pub record ItemOutcome : Type 0 where
  pub status : OutcomeStatus
  pub sequence_created : Bool

-- `_canonical_payload`: what is stored, and its hash.
abbrev pub stored_payload : Json → Json
stored_payload (object ms) = object ms
stored_payload payload = object (member "value" payload end)

-- Whether `_canonical_payload` and the INSERT of the item return.
abbrev pub can_store : Env → Json → Bool
can_store env payload = env.storable (stored_payload payload)

abbrev pub payload_hash : Env → Json → String
payload_hash env payload = env.sha256 (env.canonical (stored_payload payload))

-- The unique columns of `uq_apify_dataset_item`.
abbrev pub item_is : RunContext → (index : ℕ) (hash : String) → ApifyItem → Bool
item_is context index hash item =
    item.account_id == context.account_id
    && item.run_id == context.id
    && item.dataset_index == index
    && str_eq item.content_hash hash

abbrev pub new_item : Env → RunContext → (index : ℕ) (payload : Json) → ApifyItem
new_item env context index payload = record {
  id = env.new_item index;
  workspace_id = context.workspace_id;
  account_id = context.account_id;
  run_id = context.id;
  dataset_index = index;
  content_hash = payload_hash env payload;
  raw_payload = stored_payload payload;
  normalized_payload = none;
  confidence = none;
  status = ApifyItemStatus.pending;
  contact_id = none;
  listing_id = none;
  sms_sequence_id = none;
  error = none;
  processed_at = none;
}

abbrev pub outcome : OutcomeStatus → Bool → ItemOutcome
outcome status created = record { status = status; sequence_created = created }

abbrev pub replayed_status : ApifyItemStatus → OutcomeStatus
replayed_status ApifyItemStatus.imported = actionable
replayed_status ApifyItemStatus.exception = exception
replayed_status _ = ignored

abbrev pub replayed_outcome : ApifyItem → ItemOutcome
replayed_outcome item = outcome (replayed_status item.status) false

abbrev pub source_of : String → Option ListingSource
source_of platform =
    if str_eq platform "leboncoin"
    then some lbc
    else if str_eq platform "la_centrale"
    then some la_centrale
    else none

-- `a or b`, where an empty text counts as missing.
abbrev or_text : Option String → Option String → Option String
or_text none b = b
or_text (some a) b = if str_eq a "" then b else some a

abbrev or_id : Option ℕ → Option ℕ → Option ℕ
or_id none b = b
or_id (some a) b = some a

abbrev new_listing :
    Env → RunContext → ℕ → ListingSource → String → NormalizedApifyLead → Json → Listing
new_listing env context index source url lead payload = record {
  id = env.new_listing index;
  source = source;
  url = url;
  sector_id = context.sector_id;
  contact_id = none;
  title = lead.title;
  price = lead.price;
  km = lead.mileage;
  location = lead.location;
  phone = lead.phone_e164;
  raw_data = some (env.dumps payload);
  make = lead.brand;
  model = lead.model;
  year = lead.year;
  status = ListingStatus.nouvelle;
  campaign_id = some context.campaign_id;
  created_at = env.now;
}

abbrev complete_listing : RunContext → NormalizedApifyLead → Listing → Listing
complete_listing context lead l = record l {
  campaign_id = or_id l.campaign_id (some context.campaign_id);
  sector_id = or_id l.sector_id context.sector_id;
  title = or_text l.title lead.title;
  phone = or_text l.phone lead.phone_e164;
}

-- The listing with that address is completed, or a new one is added.
unfoldable pub store_listing :
    Env → RunContext → ℕ → ListingSource → String → NormalizedApifyLead → Json → Db → ℕ × Db
store_listing env context index source url lead payload db =
    elim (find (λ l. str_eq l.url url) db.listings) [
      | none ↦
          let l = new_listing env context index source url lead payload in
          (l.id, record db { listings = db.listings ++ l ∷ [] })
      | some l ↦ (
        l.id,
        record db {
          listings = modify (λ k. k.id) l.id (complete_listing context lead) db.listings;
        },
      )
    ]

unfoldable pub upsert_listing :
    Env → RunContext → ℕ → NormalizedApifyLead → Json → Db → Option ℕ × Db
unfolding store_listing
upsert_listing env context index lead payload db = elim lead.url [
  | none ↦ (none, db)
  | some url ↦ elim (source_of lead.source_platform) [
    | none ↦ (none, db)
    | some source ↦
        let stored = store_listing env context index source url lead payload db in
        if str_eq url "" then (none, db) else (some stored.0, stored.1)
  ]
]
