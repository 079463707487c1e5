-- ===== src/Sms.antt =====
-- SMS prospecting: the blacklist, the texts and times of messages, the follow-up sequences of contacts,
-- what comes in, and the campaigns (app/services/blacklist.py, sms_sequence.py, sms_inbox.py,
-- campaign_runner.py, app/webhooks/sms.py).
pub mod Blacklist
pub mod Messages
pub mod Sequences
pub mod Run
mod Samples
