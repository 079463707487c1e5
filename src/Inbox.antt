-- ===== src/Inbox.antt =====
-- What sellers write back, and the contacts that are written to: app/services/sms_inbox.py,
-- app/webhooks/sms.py, app/services/phone_extractor.py and the second half of
-- app/services/sms_sequence.py.
pub mod Phones
pub mod Classify
pub mod Contacts
pub mod Record
pub mod Webhook
pub mod Stops
pub mod Delivery
pub mod Silence
pub mod Ensured
pub mod Imported
pub mod History
pub mod Answer
mod Samples
