-- ===== src/Inbox/Answer.antt =====
-- From an answer on: the webhook, the sequences and their runs together.
