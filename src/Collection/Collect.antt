-- ===== src/Collection/Collect.antt =====
-- `collect_sector` of app/services/sector_collection.py.
use text.Mathlib.Text.{◌==◌ as str_eq}
use Prim.Native.String.{◌++◌ as text_append}
use auto_bot_lbc_pj.Prelude.{
  ℕ, ◌+◌, ◌/◌, min, max, String, Bool, true, false, ◌&&◌, List, [], ◌∷◌, ◌++◌, Option, none, some,
  ◌==◌, if◌then◌else◌, select, modify, length, Result, ok, err, or_raise, commit,
}
use auto_bot_lbc_pj.Locks.{
  Kind, account, sim, proxy, Resource, claim_resource, release_resource, same_kind,
}
use auto_bot_lbc_pj.Collection.Listings.{RawListing, Persisted, persist_listings}
use auto_bot_lbc_pj.Collection.Sectors.{
  Sector, Checkpoint, CollectionRun, CollectionRunStatus, Assignment, Store, Params, World, Error,
  none_available, provider_error, unsupported_source, Reason, Opened, skipped, opened, open_session,
}

-- The leases that a run has so far, and the tables of the locks.
pub record Held : Type 0 where
  pub leases : List (Kind × ℕ)
  pub locks : List Resource

abbrev pub run_owner : World → CollectionRun → String
run_owner world run = text_append "collection:" (world.show run.id)

abbrev or_2000000 : Option ℕ → ℕ
or_2000000 none = 2_000_000
or_2000000 (some n) = if n == 0 then 2_000_000 else n

abbrev text_or_empty : Option String → String
text_or_empty none = ""
text_or_empty (some t) = t

abbrev pub page_or_1 : Option ℕ → ℕ
page_or_1 none = 1
page_or_1 (some n) = n

unfoldable pub params : Sector → Checkpoint → (remaining_volume : ℕ) → Params
params sector checkpoint remaining_volume = record {
  marque = text_or_empty sector.brand_model;
  modele = "";
  km_max = or_2000000 sector.mileage_max;
  prix_min = sector.price_min;
  prix_max = or_2000000 sector.price_max;
  region = sector.region;
  department = sector.department;
  max_pages = max 1 (min (remaining_volume / 20 + 1) 100);
  start_page = page_or_1 checkpoint.next_page;
}

-- `for resource in resources: if await claim_resource(...)`, up to the first that is free.
unfoldable pub claim_first :
    (run_owner : String) → (Kind → ℕ → ℕ) → Kind → List Assignment → Held → Option Assignment × Held
claim_first run_owner claims_at kind [] held = (none, held)
claim_first run_owner claims_at kind (a ∷ rest) held =
    let (won, locks) = claim_resource kind a.id run_owner 300 (claims_at kind a.id) held.locks in
    elim won [
      | true ↦ (some a, record { leases = held.leases ++ (kind, a.id) ∷ []; locks = locks })
      | false ↦ claim_first run_owner claims_at kind rest (record held { locks = locks })
    ]

abbrev assigned_to : Kind → ℕ → Assignment → Bool
assigned_to kind sector_id a = same_kind a.kind kind && a.sector_id == sector_id

abbrev pub assigned : Kind → Sector → Store → List Assignment
assigned kind sector db = select (assigned_to kind sector.id) db.assignments

abbrev pub target_or_raise : Kind → Option Assignment × Held → Result Error (Option ℕ) × Held
target_or_raise kind (none, held) = (err (none_available kind), held)
target_or_raise kind (some a, held) = (ok (some a.target), held)

-- A statement that may raise, with the leases that are there after it.
abbrev pub and_then :
    Result Error (Option ℕ) × Held
    → (Option ℕ → Held → Result Error (Option ℕ) × Held)
    → Result Error (Option ℕ) × Held
and_then (err e, held) f = (err e, held)
and_then (ok a, held) f = f a held

unfoldable pub claim_account :
    World → CollectionRun → Sector → Store → Held → Result Error (Option ℕ) × Held
claim_account world run sector db held =
    if str_eq sector.source "leboncoin"
    then target_or_raise account (
        claim_first (run_owner world run) world.claims_at account (assigned account sector db) held)
    else (ok none, held)

-- One turn of the loop over proxies and SIMs; the account is passed on.
unfoldable pub claim_kind :
    World
    → CollectionRun
    → Kind
    → List Assignment
    → Option ℕ
    → Held
    → Result Error (Option ℕ) × Held
claim_kind world run kind [] account_id held = (ok account_id, held)
claim_kind world run kind (a ∷ rest) account_id held =
    let (won, held') = claim_first (run_owner world run) world.claims_at kind (a ∷ rest) held in
    (elim won [ none ↦ err (none_available kind) | some b ↦ ok account_id ], held')

unfoldable pub claim_all :
    World → CollectionRun → Sector → Store → Held → Result Error (Option ℕ) × Held
claim_all world run sector db held =
    and_then
      (and_then (claim_account world run sector db held)
        (claim_kind world run proxy (assigned proxy sector db)))
      (claim_kind world run sim (assigned sim sector db))

unfoldable pub scrape : World → Sector → Params → Option ℕ → Result Error (List RawListing)
scrape world sector p account_id =
    if str_eq sector.source "leboncoin"
    then or_raise (world.scrape_lbc p account_id) provider_error
    else if str_eq sector.source "la_centrale"
    then or_raise (world.scrape_la_centrale p) provider_error
    else err unsupported_source

abbrev pub complete : World → Params → ℕ → CollectionRun → CollectionRun
complete world p seen r = record r {
  status = CollectionRunStatus.completed;
  listings_seen = seen;
  checkpoint = record {
    next_page = some (p.start_page + p.max_pages);
    last_run_at = some world.ends_at;
  };
  finished_at = some world.ends_at;
}

abbrev pub fail : World → Error → CollectionRun → CollectionRun
fail world e r = record r {
  status = CollectionRunStatus.failed;
  last_error = some e;
  finished_at = some world.ends_at;
}

abbrev pub write_run : ℕ → (CollectionRun → CollectionRun) → Store → Store
write_run id f db = record db { runs = modify (λ r. r.id) id f db.runs }

pub data Answer : Type 0 where
  answer_skipped : Reason → Answer
  answer_collected : Persisted → (seen : ℕ) → Answer

-- `except Exception`: the run fails and the exception goes on.
abbrev pub or_fail : World → ℕ → Result Error Answer × Store → Result Error Answer × Store
or_fail world id (ok a, db) = (ok a, db)
or_fail world id (err e, db) = (err e, write_run id (fail world e) db)

-- `persisted = ...` to the result.
abbrev pub store_listings :
    World
    → Sector
    → CollectionRun
    → Params
    → Result Error (List RawListing)
    → Store
    → Result Error Answer × Store
store_listings world sector run p (err e) db = (err e, db)
store_listings world sector run p (ok listings) db =
    let (persisted, rows) = persist_listings world.texts (some sector.id) listings db.listings in
    (
      ok (answer_collected persisted (length listings)),
      write_run run.id (complete world p (length listings)) (record db { listings = rows }),
    )

abbrev pub scrape_and_store :
    World
    → Sector
    → CollectionRun
    → Params
    → Result Error (Option ℕ)
    → Store
    → Result Error Answer × Store
scrape_and_store world sector run p (err e) db = (err e, db)
scrape_and_store world sector run p (ok account_id) db =
    store_listings world sector run p (scrape world sector p account_id) db

-- `finally`.
unfoldable pub release_all : (run_owner : String) → List (Kind × ℕ) → List Resource → List Resource
release_all run_owner [] locks = locks
release_all run_owner ((kind, id) ∷ rest) locks =
    release_all run_owner rest (release_resource kind id run_owner locks)

-- `try ... except ... finally`.
unfoldable pub run_collection :
    World → Sector → CollectionRun → Params → Store → Result Error Answer × Store
run_collection world sector run p db =
    let (account_id, held) =
      claim_all world run sector db (record { leases = []; locks = db.locks }) in
    let (answer, db') =
      or_fail world run.id
        (scrape_and_store world sector run p account_id (record db { locks = held.locks })) in
    (answer, record db' { locks = release_all (run_owner world run) held.leases db'.locks })

abbrev pub after_opening : World → Result Error Opened × Store → Result Error Answer × Store
after_opening world (err e, db) = (err e, db)
after_opening world (ok (skipped reason), db) = (ok (answer_skipped reason), db)
after_opening world (ok (opened sector run remaining_volume), db) =
    run_collection world sector run (params sector run.checkpoint remaining_volume) db

unfoldable pub collect_sector : World → ℕ → Store → Result Error Answer × Store
collect_sector world sector_id db =
    after_opening world (commit db (open_session world sector_id db))
