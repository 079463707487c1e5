-- ===== src/Accounts.antt =====
-- app/services/account_control.py: commands on the accounts of the site, and the runs that they leave.
pub mod Commands
pub mod Creation
pub mod Inspect
pub mod Polling
pub mod Overdue
pub mod Stuck
pub mod Replay
mod Samples
