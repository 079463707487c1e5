-- ===== src/Collection/Opening.antt =====
-- What the first session of a collection does to the tables.
use auto_bot_lbc_pj.Prelude.{
  ℕ, true, false, [], ◌∷◌, ◌++◌, ◌≡◌, refl, subst, inl, inr, get, get_id, leb, if_both,
  Option-cases, Result-cases, Returns,
}
use auto_bot_lbc_pj.Collection.Schedule.{is_sector_due}
use auto_bot_lbc_pj.Collection.Sectors.{
  Sector, Store, World, Opened, skipped, opened, schedule_open, last_start, previous_run,
  checkpoint_of, new_run_row, seen_today, open_if_due, open_run, open_session,
}

-- Nothing, or the new run's row at the end.
abbrev pub Opens : World → ℕ → Store → Opened → Store → Type 0
Opens world sector_id db (skipped reason) db' = db' ≡ db
Opens world sector_id db (opened sector run remaining) db' =
    (sector.id ≡ sector_id)
    × (run ≡ new_run_row world sector (checkpoint_of (previous_run sector_id db)))
    × (db' ≡ record db { runs = db.runs ++ run ∷ [] })

abbrev OpensPair : World → ℕ → Store → Opened × Store → Type 0
OpensPair world sector_id db (o, db') = Opens world sector_id db o db'

open_run-Opens :
    (world : World) (sector : Sector) (db : Store)
    → OpensPair world sector.id db (open_run world sector (previous_run sector.id db) db)
open_run-Opens world sector db =
    if_both (OpensPair world sector.id db) (leb sector.daily_volume (seen_today world sector.id db))
      _ _ refl (refl, refl, refl)

open_if_due-Opens :
    (world : World) (sector : Sector) (db : Store)
    → OpensPair world sector.id db (open_if_due world sector db)
open_if_due-Opens world sector db =
    if_both (OpensPair world sector.id db)
      (is_sector_due (last_start (previous_run sector.id db)) sector.frequency_minutes world.now) _
      _ (open_run-Opens world sector db) refl

pub open_session-Opens :
    (world : World) (sector_id : ℕ) (db : Store)
    → Returns (Opens world sector_id db) (open_session world sector_id db)
unfolding open_session
open_session-Opens world sector_id db = elim (Option-cases (get (λ s. s.id) sector_id db.sectors)) [
  | inl missing ↦ rw missing tt
  | inr (sector, there) ↦
      let same = get_id (λ s. s.id) sector_id db.sectors sector there in
      elim (Result-cases (schedule_open world sector world.now)) [
        | inr (e, malformed) ↦ rw (there, malformed) tt
        | inl (false, closed) ↦ rw (there, closed) refl
        | inl (true, within) ↦
            rw (there, within)
              (subst (λ n. OpensPair world n db (open_if_due world sector db)) same
                (open_if_due-Opens world sector db))
      ]
]
