-- ===== src/Collection/Finish.antt =====
-- How a collection ends: its run is completed or failed, and where the next one goes on.
use auto_bot_lbc_pj.Prelude.{
  ℕ, ◌+◌, ◌*◌, ◌≤◌, ◌<◌, ◌⊎◌, List, [], ◌∷◌, ◌++◌, none, some, ◌≡◌, arith, get, Result, ok, err,
}
use auto_bot_lbc_pj.Collection.Listings.{Persisted}
use auto_bot_lbc_pj.Collection.Sectors.{
  Sector, Checkpoint, CollectionRun, CollectionRunStatus, Store, Params, World, Error, Reason,
  skipped, opened, open_session, new_run_row, checkpoint_of, previous_run,
}
use auto_bot_lbc_pj.Collection.Collect.{Answer, answer_skipped, answer_collected, params, page_or_1}

-- The pages of a run: at least one, at most a hundred; one page of twenty more than the volume that is left needs, or
-- a hundred.
pub params-pages :
    (sector : Sector) (checkpoint : Checkpoint) (remaining : ℕ)
    → let pages = (params sector checkpoint remaining).max_pages in
      (1 ≤ pages)
      × (pages ≤ 100)
      × (20 * pages ≤ remaining + 20)
      × ((remaining < 20 * pages) ⊎ (pages ≡ 100))
unfolding params
params-pages sector checkpoint remaining = omega arith

-- The first session of a collection has opened a run.
abbrev pub HasOpened : World → Store → ℕ → Type 0
HasOpened world db sector_id =
    (sector : Sector) × (run : CollectionRun) × (remaining : ℕ) × (db' : Store) × (open_session
        world sector_id db
      ≡ ok (opened sector run remaining, db'))

-- The answer and the runs that a collection of the sector leaves. The first session says which case it is: it raises or
-- refuses, and there is no run more, or it opens a run, and there is exactly one more, which has ended, with the pages
-- read if it was completed and with the checkpoint of the run before if it failed.
pub data Ended (world : World) (db : Store) (sector_id : ℕ)
    : Result Error Answer → List CollectionRun → Type 0 where
  not_opened :
      (e : Error)
      → open_session world sector_id db ≡ err e
      → Ended world db sector_id (err e) db.runs
  skips :
      (why : Reason)
      → open_session world sector_id db ≡ ok (skipped why, db)
      → Ended world db sector_id (ok (answer_skipped why)) db.runs
  completes :
      (p : Persisted) (n pages : ℕ) (r : CollectionRun)
      → HasOpened world db sector_id
      → r.status ≡ CollectionRunStatus.completed
      → r.id ≡ world.run_id
      → r.sector_id ≡ sector_id
      → r.listings_seen ≡ n
      → 1 ≤ pages
      → pages ≤ 100
      → r.checkpoint.next_page
        ≡ some (page_or_1 (checkpoint_of (previous_run sector_id db)).next_page + pages)
      → Ended world db sector_id (ok (answer_collected p n)) (db.runs ++ r ∷ [])
  fails :
      (e : Error) (r : CollectionRun)
      → HasOpened world db sector_id
      → r.status ≡ CollectionRunStatus.failed
      → r.id ≡ world.run_id
      → r.sector_id ≡ sector_id
      → r.last_error ≡ some e
      → r.checkpoint ≡ checkpoint_of (previous_run sector_id db)
      → Ended world db sector_id (err e) (db.runs ++ r ∷ [])

abbrev EndedPair : World → Store → ℕ → Result Error Answer × Store → Type 0
EndedPair world db sector_id (a, db') = Ended world db sector_id a db'.runs

module _ (world : World) (sector : Sector) (db : Store)
    (fresh : get (λ (r : CollectionRun). r.id) world.run_id db.runs ≡ none)
    (began : HasOpened world db sector.id) where
  abbrev run : CollectionRun
  run = new_run_row world sector (checkpoint_of (previous_run sector.id db))

  abbrev p : ℕ → Params
  p remaining = params sector run.checkpoint remaining
