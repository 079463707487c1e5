-- ===== src/Collection/Schedule.antt =====
-- When a sector may be collected.
use auto_bot_lbc_pj.Prelude.{
  ℕ, ◌+◌, ◌*◌, Bool, true, false, not, ◌&&◌, ◌||◌, Option, none, some, ltb, leb, ◌≡◌, arith,
  if◌then◌else◌,
}

-- Times of day in seconds: `start <= current < end`, or over midnight.
unfoldable pub is_within_sector_schedule : (start end current : ℕ) → Bool
is_within_sector_schedule start end current =
    if leb start end
    then leb start current && ltb current end
    else leb start current || ltb current end

unfoldable pub is_sector_due : (last_started_at : Option ℕ) (frequency_minutes current : ℕ) → Bool
is_sector_due last_started_at frequency_minutes current = elim last_started_at [
  | none ↦ true
  | some last ↦ leb (last + 60 * frequency_minutes) current
]

-- A schedule and the one with its ends swapped divide the day: at each moment exactly one of them is open, unless
-- the ends are the same; then neither ever is.
pub is_within_sector_schedule-swapped :
    (start end current : ℕ)
    → is_within_sector_schedule start end current ≡ (
        if leb start end && leb end start
        then false
        else not (is_within_sector_schedule end start current))
unfolding is_within_sector_schedule
is_within_sector_schedule-swapped start end current = ground arith
