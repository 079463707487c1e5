-- ===== src/Collection.antt =====
-- The collection of a sector's listings: app/services/sector_collection.py and
-- app/services/listing_persistence.py.
pub mod Schedule
pub mod Listings
pub mod Distinct
pub mod Again
pub mod Sectors
pub mod Collect
pub mod Opening
pub mod Leases
pub mod Finish
mod Samples
