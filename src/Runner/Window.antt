-- ===== src/Runner/Window.antt =====
-- app/services/campaign_runner.py: when a batch may start and how long a SIM rests between messages.
use auto_bot_lbc_pj.Prelude.{
  ℕ, ◌+◌, ◌-◌, ◌*◌, ◌/◌, ◌%◌, ◌≤◌, ◌<◌, String, Bool, true, false, ◌&&◌, List, [], ◌∷◌, Option,
  none, some, ltb, if◌then◌else◌, ◌≡◌, arith, select, str_eq,
}
use auto_bot_lbc_pj.Models.{sms_is_sent}
use auto_bot_lbc_pj.Tables.{SmsLog, Db}
use auto_bot_lbc_pj.Sms.Messages.{Settings, seconds_per_day, within_window}

-- A time of the wall clock in Paris, in seconds; its hour.
abbrev pub hour_of : ℕ → ℕ
hour_of wall = wall % seconds_per_day / 3600

abbrev pub is_within_sms_window : Settings → ℕ → Bool
is_within_sms_window s wall = within_window s (hour_of wall)

abbrev opening_today : Settings → ℕ → ℕ
opening_today s wall = wall / seconds_per_day * seconds_per_day + s.sms_hour_start * 3600

unfoldable pub next_sms_window_start : Settings → ℕ → ℕ
next_sms_window_start s wall =
    if ltb (hour_of wall) s.sms_hour_start
    then opening_today s wall
    else opening_today s wall + seconds_per_day

-- The latest `sent_at` of the messages that a SIM has sent.
abbrev later_of : ℕ → Option ℕ → ℕ
later_of t none = t
later_of t (some u) = if ltb t u then u else t

abbrev latest_time : List SmsLog → Option ℕ
latest_time [] = none
latest_time (r ∷ rest) = some (later_of r.sent_at (latest_time rest))

abbrev pub last_sent_at : String → Db → Option ℕ
last_sent_at sim db =
    latest_time (select (λ r. str_eq r.sim_id sim && sms_is_sent r.status) db.sms_log)

-- `gap` is what `random.randint(120, 720)` gives; the differences stop at 0 as the source's `max` makes them.
unfoldable pub compute_inter_sms_delay_seconds : (gap : ℕ) (sim : String) (now : ℕ) → Db → ℕ
compute_inter_sms_delay_seconds gap sim now db = elim (last_sent_at sim db) [
  | none ↦ gap
  | some last ↦ gap - (now - last)
]

-- The next start of the window is in the future, at most a day away, and in the window, if that opens at an
-- hour of the day and closes later, and the given time is outside it.
pub next_sms_window_start-is_within_sms_window :
    (s : Settings) (wall : ℕ)
    → s.sms_hour_start < 24
    → s.sms_hour_start < s.sms_hour_end
    → is_within_sms_window s wall ≡ false
    → (wall < next_sms_window_start s wall)
      × (next_sms_window_start s wall ≤ wall + seconds_per_day)
      × (is_within_sms_window s (next_sms_window_start s wall) ≡ true)
unfolding next_sms_window_start
next_sms_window_start-is_within_sms_window s wall hour wide closed = ground arith

-- Where a SIM's last message is not dated in the future, the next one goes out at least the drawn gap after
-- it, and the wait is never longer than that gap.
pub compute_inter_sms_delay_seconds-gap :
    (gap : ℕ) (sim : String) (now last : ℕ) (db : Db)
    → last_sent_at sim db ≡ some last
    → last ≤ now
    → (last + gap ≤ now + compute_inter_sms_delay_seconds gap sim now db)
      × (compute_inter_sms_delay_seconds gap sim now db ≤ gap)
unfolding compute_inter_sms_delay_seconds
compute_inter_sms_delay_seconds-gap gap sim now last db h past =
    rw (h, compute_inter_sms_delay_seconds) (omega (arith, past), omega (arith, past))
