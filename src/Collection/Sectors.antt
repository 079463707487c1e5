-- ===== src/Collection/Sectors.antt =====
-- app/services/sector_collection.py: sectors, their runs, and when a run may start.
use text.Mathlib.Text.{◌==◌ as str_eq}
use auto_bot_lbc_pj.Prelude.{
  ℕ, ◌+◌, ◌-◌, String, Bool, true, false, ◌&&◌, List, [], ◌∷◌, ◌++◌, Option, none, some, ltb, leb,
  ◌==◌, if◌then◌else◌, get, select, Result, ok, ◌>>=◌, or_raise,
}
use auto_bot_lbc_pj.Locks.{Kind, Resource}
use auto_bot_lbc_pj.Collection.Listings.{RawListing, StoredListing, Texts}
use auto_bot_lbc_pj.Collection.Schedule.{is_within_sector_schedule, is_sector_due}

pub data CollectionRunStatus : Type 0 where
  running completed failed : CollectionRunStatus

pub record Sector : Type 0 where
  pub id : ℕ
  pub source : String
  pub region : String
  pub department : String
  pub brand_model : Option String
  pub mileage_max : Option ℕ
  pub price_min : Option ℕ
  pub price_max : Option ℕ
  pub frequency_minutes : ℕ
  pub schedule_start : String
  pub schedule_end : String
  pub daily_volume : ℕ
  pub status : String

-- The keys that a checkpoint may have.
pub record Checkpoint : Type 0 where
  pub next_page : Option ℕ
  pub last_run_at : Option ℕ

pub data Error : Type 0 where
  sector_not_found invalid_time unsupported_source provider_error : Error
  none_available : Kind → Error

pub record CollectionRun : Type 0 where
  pub id : ℕ
  pub sector_id : ℕ
  pub source : String
  pub status : CollectionRunStatus
  pub checkpoint : Checkpoint
  pub listings_seen : ℕ
  pub last_error : Option Error
  pub started_at : ℕ
  pub finished_at : Option ℕ

-- A row of `sector_accounts`, `sector_sims` or `sector_proxies` without its lock; `target` is the account of
-- the first.
pub record Assignment : Type 0 where
  pub kind : Kind
  pub id : ℕ
  pub sector_id : ℕ
  pub target : ℕ

pub record Store : Type 0 where
  pub sectors : List Sector
  pub runs : List CollectionRun
  pub assignments : List Assignment
  pub locks : List Resource
  pub listings : List StoredListing

pub record Params : Type 0 where
  pub marque : String
  pub modele : String
  pub km_max : ℕ
  pub prix_min : Option ℕ
  pub prix_max : ℕ
  pub region : String
  pub department : String
  pub max_pages : ℕ
  pub start_page : ℕ

-- Outside the repository and the modelled files: the clock when the run starts, claims and ends; the zone of
-- Paris (the second of the day, and midnight); `time.fromisoformat`; uuid4 for the run; and the two scrapers.
pub record World : Type 0 where
  pub now : ℕ
  pub claims_at : Kind → ℕ → ℕ
  pub ends_at : ℕ
  pub second_of_day : ℕ → ℕ
  pub midnight : ℕ → ℕ
  pub fromisoformat : String → Option ℕ
  pub run_id : ℕ
  pub show : ℕ → String
  pub texts : Texts
  pub scrape_lbc : Params → Option ℕ → Option (List RawListing)
  pub scrape_la_centrale : Params → Option (List RawListing)

-- `is_within_sector_schedule` on the texts.
unfoldable pub schedule_open : World → Sector → (current : ℕ) → Result Error Bool
schedule_open world sector current = do
  start ← or_raise (world.fromisoformat sector.schedule_start) invalid_time
  end ← or_raise (world.fromisoformat sector.schedule_end) invalid_time
  ok (is_within_sector_schedule start end (world.second_of_day current))

abbrev pub run_of : ℕ → CollectionRun → Bool
run_of sector_id r = r.sector_id == sector_id

abbrev pub latest : List CollectionRun → Option CollectionRun
latest [] = none
latest (r ∷ rest) = elim (latest rest) [
  | none ↦ some r
  | some best ↦ if ltb r.started_at best.started_at then some best else some r
]

-- `.order_by(CollectionRun.started_at.desc()).limit(1)`.
abbrev pub previous_run : ℕ → Store → Option CollectionRun
previous_run sector_id db = latest (select (run_of sector_id) db.runs)

abbrev pub last_start : Option CollectionRun → Option ℕ
last_start none = none
last_start (some r) = some r.started_at

abbrev is_active : Sector → Bool
is_active s = str_eq s.status "actif"

-- The loop over the active sectors.
unfoldable pub due_among : World → (current : ℕ) → Store → List Sector → Result Error (List ℕ)
due_among world current db [] = ok []
due_among world current db (s ∷ rest) = do
  opened ← schedule_open world s current
  later ← due_among world current db rest
  ok (
      if opened && is_sector_due (last_start (previous_run s.id db)) s.frequency_minutes current
      then s.id ∷ later
      else later)

unfoldable pub get_due_sector_ids : World → (current : ℕ) → Store → Result Error (List ℕ)
get_due_sector_ids world current db = due_among world current db (select is_active db.sectors)

abbrev is_completed : CollectionRunStatus → Bool
is_completed CollectionRunStatus.completed = true
is_completed _ = false

abbrev pub counts_today : World → ℕ → CollectionRun → Bool
counts_today world sector_id r =
    r.sector_id == sector_id && leb (world.midnight world.now) r.started_at && is_completed r.status

abbrev pub seen : List CollectionRun → ℕ
seen [] = 0
seen (r ∷ rest) = r.listings_seen + seen rest

abbrev pub seen_today : World → ℕ → Store → ℕ
seen_today world sector_id db = seen (select (counts_today world sector_id) db.runs)

abbrev pub checkpoint_of : Option CollectionRun → Checkpoint
checkpoint_of none = record { next_page = none; last_run_at = none }
checkpoint_of (some r) = r.checkpoint

abbrev pub new_run_row : World → Sector → Checkpoint → CollectionRun
new_run_row world sector checkpoint = record {
  id = world.run_id;
  sector_id = sector.id;
  source = sector.source;
  status = CollectionRunStatus.running;
  checkpoint = checkpoint;
  listings_seen = 0;
  last_error = none;
  started_at = world.now;
  finished_at = none;
}

pub data Reason : Type 0 where
  outside_schedule not_due daily_volume_reached : Reason

-- What the first session decided.
pub data Opened : Type 0 where
  skipped : Reason → Opened
  opened : Sector → CollectionRun → (remaining_volume : ℕ) → Opened

abbrev pub open_run : World → Sector → Option CollectionRun → Store → Opened × Store
open_run world sector previous db =
    let used = seen_today world sector.id db in
    let run = new_run_row world sector (checkpoint_of previous) in
    if leb sector.daily_volume used
    then (skipped daily_volume_reached, db)
    else (opened sector run (sector.daily_volume - used), record db { runs = db.runs ++ run ∷ [] })

abbrev pub open_if_due : World → Sector → Store → Opened × Store
open_if_due world sector db =
    let previous = previous_run sector.id db in
    if is_sector_due (last_start previous) sector.frequency_minutes world.now
    then open_run world sector previous db
    else (skipped not_due, db)

unfoldable pub open_session : World → ℕ → Store → Result Error (Opened × Store)
open_session world sector_id db = do
  sector ← or_raise (get (λ s. s.id) sector_id db.sectors) sector_not_found
  within ← schedule_open world sector world.now
  ok (if within then open_if_due world sector db else (skipped outside_schedule, db))
