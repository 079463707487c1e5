-- ===== src/Control/Workflows/Samples.antt =====
-- Runs of `command_workflow` on a small database, and the theorems at them.
use auto_bot_lbc_pj.Prelude.{◌+◌, true, [], ◌∷◌, some, ◌≡◌, refl, ok}
use auto_bot_lbc_pj.Models.{CampaignStatus, WorkflowStatus}
use auto_bot_lbc_pj.Tables.{Db}
use auto_bot_lbc_pj.Samples.{empty_db, campaign, run}
use auto_bot_lbc_pj.Control.Common.{Action, retry, Caller, Outside}
use auto_bot_lbc_pj.Control.Campaigns.{campaign_transition}
use auto_bot_lbc_pj.Control.Workflows.{Remote, command_workflow}
use auto_bot_lbc_pj.Control.Workflows.Mirror.{campaign_status, command_workflow-revives}

abbrev outside : Outside
outside = record { now = 50; new_id = λ i. 90 + i; apply_async = λ type id. some "task" }

abbrev remote : Remote
remote = record { stop_task = λ t. true; revoke = λ t k. true }

abbrev caller : Caller
caller = record { idempotency_key = "k"; actor = "ann"; role = "operator" }

abbrev db : CampaignStatus → WorkflowStatus → Db
db c w = record empty_db { campaigns = campaign c ∷ []; workflows = run w ∷ [] }

command_workflow-revives_example :
    ((a : Action)
      → ¬ ((t : CampaignStatus) × (campaign_transition CampaignStatus.cancelled a ≡ ok t)))
    × (campaign_status 1
          (command_workflow outside remote caller 7 retry
            (db CampaignStatus.cancelled WorkflowStatus.cancelled)).1
        ≡ some CampaignStatus.running)
command_workflow-revives_example =
    command_workflow-revives outside remote caller 7
      (db CampaignStatus.cancelled WorkflowStatus.cancelled) (run WorkflowStatus.cancelled) 1
      (campaign CampaignStatus.cancelled) refl refl refl refl refl refl refl
