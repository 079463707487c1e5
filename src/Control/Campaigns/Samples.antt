-- ===== src/Control/Campaigns/Samples.antt =====
-- Runs of `execute_campaign_command` on a small database, and the theorems at them.
use auto_bot_lbc_pj.Prelude.{ℕ, ◌+◌, String, List, [], ◌∷◌, some, ◌≡◌, refl, ok}
use auto_bot_lbc_pj.Models.{CampaignStatus}
use auto_bot_lbc_pj.Tables.{Db}
use auto_bot_lbc_pj.Samples.{empty_db, campaign}
use auto_bot_lbc_pj.Control.Common.{start, pause, resume, cancel, Caller, Outside, insert_run}
use auto_bot_lbc_pj.Control.Campaigns.{
  CampaignCommandResponse, execute_campaign_command, command_session, duplicate_session,
  fresh_session, visit_type, visit_types, dispatch, set_status, command_event, new_run,
}
use auto_bot_lbc_pj.Control.Campaigns.Replay.{execute_campaign_command-replay}
use auto_bot_lbc_pj.Control.Campaigns.Statuses.{
  Command, status_of, Reach, run_commands, run_commands-Reach, run_commands-settled,
}

abbrev outside : ℕ → Outside
outside n = record { now = n; new_id = λ i. n + i; apply_async = λ type id. some "task" }

abbrev caller : String → Caller
caller key = record { idempotency_key = key; actor = "ann"; role = "operator" }

abbrev pending_db : Db
pending_db = record empty_db { campaigns = campaign CampaignStatus.pending ∷ [] }

abbrev started : CampaignCommandResponse
started = record {
  campaign_id = 1;
  workflow_id = some 100;
  status = CampaignStatus.running;
  action = start;
}

abbrev started_db : Db
started_db = (execute_campaign_command (outside 100) (caller "k") 1 start pending_db).1

program : Unit {0}
unfolding execute_campaign_command command_session duplicate_session fresh_session visit_type
    visit_types dispatch set_status command_event new_run insert_run
program = tt

execute-start :
    execute_campaign_command (outside 100) (caller "k") 1 start pending_db
    ≡ (ok started, started_db)
unfolding program
execute-start = refl

-- The campaign is paused in between, under another key.
abbrev pausing : List Command
pausing = (outside 300, caller "c", 1, pause) ∷ []

execute_campaign_command-replay_example :
    let later = run_commands pausing started_db in
    (status_of 1 started_db ≡ some CampaignStatus.running)
    × (now : CampaignStatus) × (status_of 1 later ≡ some now)
    × Reach CampaignStatus.running now
    × (execute_campaign_command (outside 200) (caller "k") 1 start later ≡ (
      ok (record { campaign_id = 1; workflow_id = some 100; status = now; action = start }),
      later,
    ))
execute_campaign_command-replay_example =
    execute_campaign_command-replay (outside 100) (outside 200) (caller "k") (caller "k") 1 start
      start pending_db started_db started pausing refl execute-start

-- The second answer says PAUSED where the first one said RUNNING.
paused_meanwhile : status_of 1 (run_commands pausing started_db) ≡ some CampaignStatus.paused
unfolding program run_commands
paused_meanwhile = refl

abbrev history : List Command
history =
    (outside 100, caller "a", 1, start)
    ∷ (outside 200, caller "b", 1, pause)
    ∷ (outside 300, caller "c", 1, cancel)
    ∷ (outside 400, caller "d", 1, resume)
    ∷ []

history_ends : status_of 1 (run_commands history pending_db) ≡ some CampaignStatus.cancelled
unfolding program run_commands
history_ends = refl

run_commands-Reach_example :
    (t : CampaignStatus) × (status_of 1 (run_commands history pending_db) ≡ some t)
    × Reach CampaignStatus.pending t
run_commands-Reach_example = run_commands-Reach history 1 pending_db CampaignStatus.pending refl

run_commands-settled_example :
    status_of 1 (
      run_commands history (record empty_db { campaigns = campaign CampaignStatus.completed ∷ [] }))
    ≡ some CampaignStatus.completed
run_commands-settled_example =
    run_commands-settled history 1
      (record empty_db { campaigns = campaign CampaignStatus.completed ∷ [] })
      CampaignStatus.completed tt refl
