-- ===== src/Control.antt =====
-- The operators' commands on campaigns and workflow runs (app/services/campaign_control.py,
-- app/services/workflow_control.py): the code in `Campaigns` and `Workflows`, and what both use.
pub mod Common
pub mod Create
pub mod Campaigns
pub mod Workflows
