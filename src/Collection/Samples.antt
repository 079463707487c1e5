-- ===== src/Collection/Samples.antt =====
-- A collection of one sector, and the theorems at it.
use text.Mathlib.Text.{◌==◌ as str_eq}
use Prim.Native.String.{◌++◌ as text_append}
use auto_bot_lbc_pj.Prelude.{
  ◌+◌, String, List, [], ◌∷◌, Option, none, some, if◌then◌else◌, length, ◌≡◌, refl, ok,
}
use auto_bot_lbc_pj.Locks.{account, proxy, claim_resource, release_resource}
use auto_bot_lbc_pj.Models.{ListingSource}
use auto_bot_lbc_pj.Collection.Schedule.{is_within_sector_schedule, is_sector_due}
use auto_bot_lbc_pj.Collection.Listings.{
  RawListing, Texts, new_row, listing_content_hash, insert_listing, persist_all, persist_listings,
}
use auto_bot_lbc_pj.Collection.Distinct.{Distinct}
use auto_bot_lbc_pj.Collection.Again.{persist_listings-Distinct, persist_listings-again}
use auto_bot_lbc_pj.Collection.Sectors.{
  Sector, Store, World, schedule_open, get_due_sector_ids, due_among, open_session,
}
use auto_bot_lbc_pj.Collection.Collect.{
  params, scrape, claim_first, claim_account, claim_kind, claim_all, release_all, run_collection,
  answer_collected, collect_sector,
}
use auto_bot_lbc_pj.Collection.Leases.{Free, collect_sector-Free}

abbrev listing : String → Option String → RawListing
listing url title = record {
  source = ListingSource.lbc;
  url = url;
  title = title;
  price = none;
  km = none;
  location = none;
  phone = none;
  raw_data = none;
  make = none;
  model = none;
  year = none;
  fuel = none;
  transmission = none;
}

abbrev texts : Texts
texts = record { strip_lower = λ s. s; show = λ n. "n"; sha256 = λ s. s }

abbrev found : List RawListing
found =
    listing "a" (some "Clio") ∷ listing "b" (some "Clio") ∷ listing "c" none ∷ listing "" none ∷ []

abbrev world : World
world = record {
  now = 100_000;
  claims_at = λ kind id. 100_001;
  ends_at = 100_900;
  second_of_day = λ t. 36_000;
  midnight = λ t. 64_000;
  fromisoformat = λ s. some (if str_eq s "06:00" then 21_600 else 79_200);
  run_id = 9;
  show = λ n. "9";
  texts = texts;
  scrape_lbc = λ p account. some found;
  scrape_la_centrale = λ p. none;
}

abbrev sector : Sector
sector = record {
  id = 1;
  source = "leboncoin";
  region = "ile_de_france";
  department = "75";
  brand_model = none;
  mileage_max = none;
  price_min = none;
  price_max = some 9_000;
  frequency_minutes = 60;
  schedule_start = "06:00";
  schedule_end = "22:00";
  daily_volume = 50;
  status = "actif";
}

abbrev db : Store
db = record {
  sectors = sector ∷ [];
  runs = [];
  assignments =
      record { kind = account; id = 3; sector_id = 1; target = 30 }
      ∷ record { kind = proxy; id = 4; sector_id = 1; target = 40 }
      ∷ [];
  locks =
      record { kind = account; id = 3; locked_until = some 9; locked_by = some "collection:8" }
      ∷ record { kind = proxy; id = 4; locked_until = none; locked_by = none }
      ∷ [];
  listings = [];
}

program : Unit {0}
unfolding is_within_sector_schedule is_sector_due insert_listing persist_all persist_listings
    listing_content_hash schedule_open open_session due_among get_due_sector_ids params scrape
    claim_first claim_account claim_kind claim_all release_all run_collection collect_sector
    claim_resource release_resource
program = tt

-- Of the four, "Clio" is stored once and the listing without an address is not.
collects :
    (collect_sector world 1 db).0 ≡ ok (answer_collected (record { inserted = 2; skipped = 2 }) 4)
unfolding program
collects = refl

is_due_now : get_due_sector_ids world 100_000 db ≡ ok (1 ∷ [])
unfolding program
is_due_now = refl

collect_sector-Free_example :
    Free (text_append "collection:" (world.show world.run_id)) (collect_sector world 1 db).1.locks
collect_sector-Free_example = collect_sector-Free world 1 db (refl, (refl, tt))

persist_listings-Distinct_example :
    let (p, after) =
      persist_listings texts
        (some 1)
        found
        (new_row texts none (listing "b" (some "Megane")) ∷ []) in
    (p.inserted + p.skipped ≡ 4) × (length after ≡ 1 + p.inserted) × Distinct after
persist_listings-Distinct_example =
    persist_listings-Distinct texts (some 1) found
      (new_row texts none (listing "b" (some "Megane")) ∷ []) (refl, tt)

persist_listings-again_example :
    let after = (persist_listings texts (some 1) found []).1 in
    persist_listings texts (some 2) found after ≡ (record { inserted = 0; skipped = 4 }, after)
persist_listings-again_example = persist_listings-again texts (some 1) (some 2) found []
