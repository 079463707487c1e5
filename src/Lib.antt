-- ===== src/Lib.antt =====
-- A verification library for the acquisition back end of Control Tower: the services that import leads, contact
-- sellers by SMS, rent numbers for codes, warm accounts up, and let operators command all of it.
--
-- The program. A Python service (app/) keeps its state in one PostgreSQL database (app/tables.py). HTTP
-- handlers (app/api) and Celery tasks (app/tasks.py) call the services (app/services), each of which opens
-- sessions with `get_db` (app/db.py): a session commits if its block returns and rolls back if it raises.
-- What is outside is reached through app/boundaries.py. Operators create and command campaigns
-- (campaign_control.py) and their runs (workflow_control.py); a task sends a campaign's batches
-- (campaign_runner.py), another one the due steps of the sequences (sms_sequence.py), and both ask the
-- blacklist (blacklist.py). What sellers answer comes in by a webhook (webhooks/sms.py), is stored as an
-- event and recorded in the background or by a replay (sms_inbox.py); an answer ends the contact's sequences.
-- sector_collection.py claims a sector's account, proxy and SIM (resource_lock.py gives each to one owner
-- at a time), scrapes and stores the listings (listing_persistence.py). apify_ingestion.py imports the
-- leads that Apify's actors have collected, which apify_normalizer.py reads, into the same tables.
-- phone_operations.py follows each rented number, warm_up.py and account_control.py each account, and
-- connector_monitor.py the providers' states.
--
-- The model. A table is the list of its rows, the database a record of tables (`Db`), and a service's
-- operation a function from the database to an answer and the database after it. SELECT, UPDATE and INSERT
-- are `find`, `select`, `update`, `modify` and `++` (Prelude/Table); an exception is `err`, a session is
-- `commit` (Prelude/Sessions), so a rollback gives back the database before. A loop over rows is recursion
-- on their list. What calls for something outside (the clock, uuid4, Celery, the providers of messages and
-- numbers, Python's text functions) takes a record of functions (`Outside`, `World`, `Texts`, `Env`, `Apify`): theorems
-- hold for all its values, so for whatever a provider answers and whenever it fails. Tables that one component
-- alone uses are lists of its own: those of Collection/Sectors and Apify/Rows, and the states in
-- Monitor/Refresh. The table of listings has two views, `Db` with what the senders and the import of leads use, and
-- Collection/Listings with what the scrapers store; no operation uses both.
--
--   Prelude, Prelude/*    tests on numbers, lists, tables, sessions and their lemmas
--   Models                the enumerations of app/models.py
--   Tables                the rows of app/tables.py, with the columns that the modelled services use
--   Samples               small rows on which the tests run
--   Control               commands of operators: Control/Create and Control/Campaigns are
--                         app/services/campaign_control.py (create_controlled_campaign,
--                         execute_campaign_command), Control/Workflows is
--                         app/services/workflow_control.py (command_workflow)
--   Sms                   Sms/Blacklist is app/services/blacklist.py; Sms/Messages, Sms/Sequences and
--                         Sms/Run are app/services/sms_sequence.py (run_due_sms_sequences)
--   Runner                app/services/campaign_runner.py: Runner the loop of run_campaign, Runner/Batch
--                         its sessions, Runner/Window the sending window and the waiting times
--   Phone                 app/services/phone_operations.py: Phone/Codes the texts, Phone/Activations a
--                         number's row, Phone/Operations the marks and the reconciliation,
--                         Phone/Requests a history of them
--   WarmUp                app/services/warm_up.py (evaluate_warmup_batch, update_account_health)
--   Locks                 app/services/resource_lock.py (claim_resource, release_resource)
--   Inbox                 Inbox/Phones is app/services/phone_extractor.py, Inbox/Classify and
--                         Inbox/Record are app/services/sms_inbox.py (classify_sms,
--                         record_inbound_sms), Inbox/Webhook is app/webhooks/sms.py and the replay
--                         of sms_inbox.py, Inbox/Contacts the start and the end of sequences in
--                         app/services/sms_sequence.py; Inbox/History lets all of them, the runs of
--                         the due sequences and the import of items from Apify follow each other
--                         in any order, and Inbox/Answer starts such a history with an answer
--   Collection            Collection/Listings is app/services/listing_persistence.py; Collection/Schedule,
--                         Collection/Sectors and Collection/Collect are
--                         app/services/sector_collection.py (collect_sector, get_due_sector_ids)
--   Accounts              app/services/account_control.py: Accounts/Commands the commands on an account,
--                         Accounts/Creation the runs that create one, Accounts/Overdue when they are
--                         given up, Accounts/Inspect the inspection
--   Apify                 Apify/Payload, Apify/Candidates, Apify/Fields, Apify/Normalize and
--                         Apify/Fallback are app/services/apify_normalizer.py (flatten_payload,
--                         collect_candidates, normalize_apify_item, with its fallback); Apify/Items,
--                         Apify/Ingestion and Apify/Import are app/services/apify_ingestion.py
--                         (import_one_item, import_run); Apify/Runs, Apify/Launch, Apify/Hook
--                         and Apify/Reconcile are app/services/apify_runs.py, and Apify/History lets
--                         its requests follow each other; Apify/Rows holds the tables
--   Monitor               app/services/connector_monitor.py: Monitor/Probes what a probe says,
--                         Monitor/Connectors each of them, Monitor/Escapes what they let through,
--                         Monitor/Refresh the table of states
--
-- Below each of them stand the modules with its theorems and, as Samples, runs at concrete inputs.
--
-- Numbers and bounds. Numbers are natural numbers: identifiers, times in seconds, counts, and costs in a
-- fixed unit (the numbers of a payload are integers); where the source subtracts, the model's subtraction stops at 0 as the source's `max` does.
-- Recursion is on lists, but for the polling loop of an inspection, which runs on fuel: one question more
-- than the timeout has seconds is enough when the poll interval is positive; and for the stack of
-- flatten_payload, to which a round for each value of the payload is enough. The sizes of batches and limits
-- are those of the source or arguments.
--
-- Not modelled: logging, the HTTP schemas, metrics and notifications; the interleaving of two sessions that
-- run at the same time, but for what other processes do to campaigns and runs between two listings of a
-- batch; sleeping, which changes no state; the automation of the browser, the lengths of columns,
-- a write that the database refuses for another reason than a unique column (but for the items of an import), the
-- accounts of Apify and the learning of profiles, the analysis of listings, mailboxes, the other webhooks,
-- roles and tokens, balances, migrations and the front end.
pub mod Prelude
pub mod Models
pub mod Tables
pub mod Samples
pub mod Control
pub mod Sms
pub mod Inbox
pub mod Collection
pub mod Accounts
pub mod Monitor
pub mod Apify
pub mod Phone
pub mod Runner
pub mod WarmUp
pub mod Locks
