-- ===== src/Apify.antt =====
-- Leads from Apify: app/services/apify_normalizer.py, app/services/apify_ingestion.py and
-- app/services/apify_runs.py.
pub mod Payload
pub mod Flatten
pub mod Candidates
pub mod Fields
pub mod Normalize
pub mod Fallback
pub mod Order
pub mod Clear
pub mod Verdict
pub mod Rows
pub mod Items
pub mod Ingestion
pub mod Import
pub mod Rerun
pub mod Pages
pub mod Again
pub mod Context
pub mod Twice
pub mod Counted
pub mod Runs
pub mod Launch
pub mod Hook
pub mod Reconcile
pub mod Failure
pub mod Requests
pub mod History
mod Samples
mod RunSamples
