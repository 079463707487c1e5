-- ===== src/Phone/Operations.antt =====
-- app/services/phone_operations.py: what the registration of an account marks, and the reconciliation.
use auto_bot_lbc_pj.Prelude.{
  ℕ, ◌+◌, suc, String, List, [], ◌∷◌, Option, none, some, ltb, leb, if◌then◌else◌, select, take,
  length, Result, ok, err,
}
use auto_bot_lbc_pj.Models.{PhoneActivationStatus, activation_is_active, activation_is_received}
use auto_bot_lbc_pj.Tables.{PhoneActivation, Db}
use auto_bot_lbc_pj.Phone.Codes.{Texts}
use auto_bot_lbc_pj.Phone.Activations.{
  or_else_text, Error, Outside, by_order, change, set_status, refresh_phone_activation,
}

-- `sms_text or activation.received_sms`.
abbrev pub received_row : ℕ → String → Option String → PhoneActivation → PhoneActivation
received_row now code sms a = record a {
  status = PhoneActivationStatus.received;
  received_code = some code;
  received_sms = or_else_text sms a.received_sms;
  received_at = some now;
}

-- An `sms_text` that is empty counts as `none`.
unfoldable pub mark_phone_activation_received : ℕ → String → String → Option String → Db → Db
mark_phone_activation_received now order code sms db = elim (by_order order db) [
  | none ↦ db
  | some a ↦ change a.id (received_row now code sms) db
]

abbrev pub used_row : ℕ → PhoneActivation → PhoneActivation
used_row now a = record a { status = PhoneActivationStatus.used; used_at = some now }

unfoldable pub mark_phone_activation_used : ℕ → String → Db → Db
mark_phone_activation_used now order db = elim (by_order order db) [
  | none ↦ db
  | some a ↦ change a.id (used_row now) db
]

-- `.order_by(PhoneActivation.created_at.desc())`.
abbrev pub insert_newest : PhoneActivation → List PhoneActivation → List PhoneActivation
insert_newest a [] = a ∷ []
insert_newest a (b ∷ rest) =
    let later = insert_newest a rest in
    if ltb a.created_at b.created_at then b ∷ later else a ∷ b ∷ rest

abbrev pub newest_first : List PhoneActivation → List PhoneActivation
newest_first [] = []
newest_first (a ∷ rest) = insert_newest a (newest_first rest)

abbrev pub to_reconcile : ℕ → Db → List PhoneActivation
to_reconcile limit db =
    take limit (newest_first (select (λ a. activation_is_active a.status) db.activations))

-- The first session's loop: the rows to refresh, how many have expired, and the database.
unfoldable pub expire_due : ℕ → List PhoneActivation → Db → (List ℕ × ℕ) × Db
expire_due now [] db = (([], 0), db)
expire_due now (a ∷ rest) db =
    let due = leb a.expires_at now in
    let later =
      expire_due now rest
        (if due then change a.id (set_status PhoneActivationStatus.expired) db else db) in
    (if due then (later.0.0, suc later.0.1) else (a.id ∷ later.0.0, later.0.1), later.1)

abbrev pub count_received : PhoneActivation → ℕ
count_received a = if activation_is_received a.status then 1 else 0

-- One iteration's count before those of the rest, unless one of them raises.
abbrev pub tally : Result Error PhoneActivation → Db → Result Error ℕ × Db → Result Error ℕ × Db
tally (err e) db rest = (err e, db)
tally (ok a) db (err e, db') = (err e, db')
tally (ok a) db (ok received, db') = (ok (count_received a + received), db')

-- The loop after it; each refresh meets its own clock and answers.
unfoldable pub refresh_all : (ℕ → Outside) → Texts → List ℕ → Db → Result Error ℕ × Db
refresh_all later texts [] db = (ok 0, db)
refresh_all later texts (id ∷ ids) db =
    let refreshed = refresh_phone_activation (later id) texts id db in
    let rest = refresh_all later texts ids refreshed.1 in tally refreshed.0 refreshed.1 rest

pub record Counts : Type 0 where
  pub checked : ℕ
  pub expired : ℕ
  pub received : ℕ

abbrev pub counts : ℕ → ℕ → Result Error ℕ → Result Error Counts
counts checked expired (ok received) =
    ok (record { checked = checked; expired = expired; received = received })
counts checked expired (err e) = err e

unfoldable pub reconcile_phone_activations :
    ℕ → (ℕ → Outside) → Texts → ℕ → Db → Result Error Counts × Db
reconcile_phone_activations now later texts limit db =
    let rows = to_reconcile limit db in
    let first = expire_due now rows db in
    let second = refresh_all later texts first.0.0 first.1 in
    (counts (length rows) first.0.1 second.0, second.1)
