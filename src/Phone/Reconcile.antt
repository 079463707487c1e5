-- ===== src/Phone/Reconcile.antt =====
-- What a reconciliation counts.
use auto_bot_lbc_pj.Prelude.{
  ℕ, List, [], ◌∷◌, length, ◌≡◌, ◌≤◌, ◌+◌, refl, inl, inr, arith, Bool-cases, leb, Result, ok, err,
  length-take_le, select, suc,
}
use auto_bot_lbc_pj.Models.{PhoneActivationStatus, activation_is_active}
use auto_bot_lbc_pj.Tables.{PhoneActivation, Db}
use auto_bot_lbc_pj.Phone.Activations.{Outside, Error, refresh_phone_activation, change, set_status}
use auto_bot_lbc_pj.Phone.Operations.{
  tally, Counts, expire_due, refresh_all, reconcile_phone_activations, to_reconcile, newest_first,
  count_received, counts,
}
use auto_bot_lbc_pj.Phone.Codes.{Texts}

expire_due_split :
    (now : ℕ) (rows : List PhoneActivation) (db : Db)
    → length (expire_due now rows db).0.0 + (expire_due now rows db).0.1 ≡ length rows
unfolding expire_due
expire_due_split now [] db = refl
expire_due_split now (a ∷ rest) db = elim (Bool-cases (leb a.expires_at now)) [
  | inl due ↦ rw due (
      omega (
        arith,
        expire_due_split now rest (change a.id (set_status PhoneActivationStatus.expired) db),
      ))
  | inr alive ↦ rw alive (omega (arith, expire_due_split now rest db))
]

count_received_le : (a : PhoneActivation) → count_received a ≤ 1
count_received_le a = ground arith

tally_le :
    (r : Result Error PhoneActivation) (db : Db) (rest : Result Error ℕ × Db) (most n : ℕ)
    → ((k : ℕ) → rest.0 ≡ ok k → k ≤ most)
    → (tally r db rest).0 ≡ ok n
    → n ≤ suc most
tally_le (err e) db rest most n bound h = cc
tally_le (ok a) db (err e, db') most n bound h = cc
tally_le (ok a) db (ok k, db') most n bound h = ground (arith, bound k refl, count_received_le a)

refresh_all_le :
    (later : ℕ → Outside) (texts : Texts) (ids : List ℕ) (db : Db) (n : ℕ)
    → (refresh_all later texts ids db).0 ≡ ok n
    → n ≤ length ids
unfolding refresh_all
refresh_all_le later texts [] db n h = ground arith
refresh_all_le later texts (id ∷ ids) db n h =
    tally_le (refresh_phone_activation (later id) texts id db).0 _ _ (length ids) n
      (refresh_all_le later texts ids (refresh_phone_activation (later id) texts id db).1) h

counts_ok :
    (checked expired : ℕ) (r : Result Error ℕ) (c : Counts)
    → counts checked expired r ≡ ok c
    → (n : ℕ) × (r ≡ ok n) × (c ≡ record { checked = checked; expired = expired; received = n })
counts_ok checked expired (ok n) c h = (n, refl, cc)
counts_ok checked expired (err e) c h = cc

-- A reconciliation that returns has checked at most `limit` activations, and those that it found expired
-- and those that got their code are together at most as many.
pub reconcile_phone_activations-counts :
    (now : ℕ) (later : ℕ → Outside) (texts : Texts) (limit : ℕ) (db : Db) (c : Counts)
    → (reconcile_phone_activations now later texts limit db).0 ≡ ok c
    → (c.expired + c.received ≤ c.checked) × (c.checked ≤ limit)
unfolding reconcile_phone_activations
reconcile_phone_activations-counts now later texts limit db c h =
    let rows = to_reconcile limit db in
    let first = expire_due now rows db in
    let (n, done, is) =
      counts_ok (length rows) first.0.1 (refresh_all later texts first.0.0 first.1).0 c h in
    let most = refresh_all_le later texts first.0.0 first.1 n done in
    let all = expire_due_split now rows db in
    let few =
      length-take_le limit
        (newest_first (select (λ a. activation_is_active a.status) db.activations)) in
    rw is (omega (arith, most, all), few)
