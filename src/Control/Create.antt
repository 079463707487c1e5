-- ===== src/Control/Create.antt =====
-- app/services/campaign_control.py: `create_controlled_campaign`.
use auto_bot_lbc_pj.Prelude.{ℕ, String, List, [], ◌∷◌, ◌++◌, Option, none, some, get}
use auto_bot_lbc_pj.Models.{CampaignStatus}
use auto_bot_lbc_pj.Tables.{Campaign, AuditEvent, Db}
use auto_bot_lbc_pj.Control.Common.{Caller, Outside, find_audit, insert_audit}

-- The arguments of `create_controlled_campaign`; `model_dump` is done by the caller.
pub record CampaignCreate : Type 0 where
  pub campaign_type : String
  pub message_template : String
  pub quota_per_sim : ℕ
  pub search_criteria : List (String × String)

new_campaign : Outside → CampaignCreate → Campaign
new_campaign out args = record {
  id = out.new_id 0;
  type = args.campaign_type;
  message_template = args.message_template;
  quota_per_sim = args.quota_per_sim;
  search_criteria = args.search_criteria;
  status = CampaignStatus.pending;
  sent = 0;
  failed = 0;
  scheduled_at = none;
  last_error = none;
  created_at = out.now;
}

created_event : Outside → Caller → CampaignCreate → AuditEvent
created_event out caller args = record {
  id = out.new_id 1;
  actor = caller.actor;
  role = caller.role;
  action = "campaign.create";
  target_type = some "campaign";
  target_id = some (out.new_id 0);
  idempotency_key = some caller.idempotency_key;
  input_summary = ("type", args.campaign_type) ∷ args.search_criteria;
  result_status = "created";
  workflow_run_id = none;
}

-- The campaign of an earlier `create` under the same key, if it still stands.
abbrev earlier_campaign : Option AuditEvent → Db → Option Campaign
earlier_campaign none db = none
earlier_campaign (some event) db = elim event.target_id [
  | none ↦ none
  | some target ↦ get (λ c. c.id) target db.campaigns
]

pub create_controlled_campaign : Outside → Caller → CampaignCreate → Db → Campaign × Db
unfolding new_campaign created_event
create_controlled_campaign out caller args db =
    elim (earlier_campaign (find_audit caller.idempotency_key db) db) [
      | some campaign ↦ (campaign, db)
      | none ↦ (
        new_campaign out args,
        insert_audit (created_event out caller args)
            (record db { campaigns = db.campaigns ++ new_campaign out args ∷ [] }),
      )
    ]
