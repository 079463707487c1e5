-- ===== src/Apify/Rows.antt =====
-- app/tables.py: the rows about Apify, and the state that the import and the runs work on: the database of
-- Tables and these tables. `metrics`, what an experiment needs, and the columns for display are left out.
use auto_bot_lbc_pj.Prelude.{ℕ, String, Bool, List, Option}
use auto_bot_lbc_pj.Tables.{Db}
use auto_bot_lbc_pj.Apify.Payload.{Json}
use auto_bot_lbc_pj.Apify.Normalize.{NormalizedApifyLead}

pub record ApifyAccount : Type 0 where
  pub id : ℕ
  pub workspace_id : ℕ
  pub token_ciphertext : String
  pub webhook_secret_ciphertext : String
  pub status : String
  pub last_error : Option String
  pub last_checked_at : Option ℕ

pub record ApifyActorBinding : Type 0 where
  pub id : ℕ
  pub account_id : ℕ
  pub sector_id : Option ℕ
  pub campaign_id : Option ℕ
  pub resource_type : String
  pub resource_id : String
  pub input_ciphertext : String
  pub enabled : Bool
  pub schedule_authority : String
  pub schedule_minutes : Option ℕ
  pub next_run_at : Option ℕ
  pub active_profile_id : Option ℕ
  pub suspended_reason : Option String
  pub created_at : ℕ

pub record ApifyRun : Type 0 where
  pub id : ℕ
  pub workspace_id : ℕ
  pub account_id : ℕ
  pub binding_id : ℕ
  pub apify_run_id : String
  pub status : String
  pub started_at : Option ℕ
  pub finished_at : Option ℕ
  pub default_dataset_id : Option String
  pub cost_usd : Option String
  pub items_read : ℕ
  pub items_imported : ℕ
  pub items_ignored : ℕ
  pub items_exception : ℕ
  pub imported_at : Option ℕ

pub data ApifyItemStatus : Type 0 where
  pending imported ignored duplicate exception : ApifyItemStatus

pub record ApifyItem : Type 0 where
  pub id : ℕ
  pub workspace_id : ℕ
  pub account_id : ℕ
  pub run_id : ℕ
  pub dataset_index : ℕ
  pub content_hash : String
  pub raw_payload : Json
  pub normalized_payload : Option NormalizedApifyLead
  pub confidence : Option ℕ
  pub status : ApifyItemStatus
  pub contact_id : Option ℕ
  pub listing_id : Option ℕ
  pub sms_sequence_id : Option ℕ
  pub error : Option String
  pub processed_at : Option ℕ

pub record ApifyNormalizationProfile : Type 0 where
  pub id : ℕ
  pub mappings : Json

pub record ApifyException : Type 0 where
  pub workspace_id : ℕ
  pub binding_id : ℕ
  pub run_id : ℕ
  pub item_id : ℕ
  pub category : String
  pub paths : List (String × String)

pub record Store : Type 0 where
  pub db : Db
  pub accounts : List ApifyAccount
  pub bindings : List ApifyActorBinding
  pub profiles : List ApifyNormalizationProfile
  pub runs : List ApifyRun
  pub items : List ApifyItem
  pub exceptions : List ApifyException
