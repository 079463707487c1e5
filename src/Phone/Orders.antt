-- ===== src/Phone/Orders.antt =====
-- An order of the provider has one activation.
use auto_bot_lbc_pj.Prelude.{
  ℕ, String, List, [], ◌∷◌, ◌++◌, Option, none, some, get, select, length, ◌≡◌, ◌≤◌, refl, inl, inr,
  arith, str_eq, Option-cases, Result-cases, Bool-cases, if_both, leb, length-select-update,
  length-select-snoc, length-select-find-none, ap, subst, ◌==◌, str_eq_iff, ok, err, Result,
}
use auto_bot_lbc_pj.Models.{PhoneActivationStatus, PhoneActivationOrigin, ActivationOrder}
use auto_bot_lbc_pj.Tables.{PhoneActivation, Db}
use auto_bot_lbc_pj.Phone.Activations.{
  Outside, Error, order_is, refresh_row, cancel_row, relink, on_row, change, by_order,
  new_activation, record_phone_activation, reserve_phone_activation, refresh_phone_activation,
  set_status, cancel_phone_activation, link_phone_activation, bought,
}
use auto_bot_lbc_pj.Phone.Operations.{
  tally, expire_due, refresh_all, mark_phone_activation_received, mark_phone_activation_used,
  received_row, used_row, reconcile_phone_activations, to_reconcile,
}
use auto_bot_lbc_pj.Phone.Codes.{Texts}
use auto_bot_lbc_pj.Phone.Keys.{refresh_row-SameKeys, cancel_row-SameKeys}
use auto_bot_lbc_pj.Phone.Requests.{
  Request, record_order, reserve, refresh, cancel, link, mark_received, mark_used, reconcile,
  Meeting, respond, respond_all,
}

abbrev pub with_order : String → Db → ℕ
with_order o db = length (select (order_is o) db.activations)

-- No order has two activations.
abbrev pub UniqueOrders : Db → Type 0
UniqueOrders db = (o : String) → with_order o db ≤ 1

change-UniqueOrders :
    (j : ℕ) (f : PhoneActivation → PhoneActivation) (db : Db)
    → ((a : PhoneActivation) → (f a).provider_order_id ≡ a.provider_order_id)
    → UniqueOrders db
    → UniqueOrders (change j f db)
change-UniqueOrders j f db keep h o =
    rw
      (length-select-update (order_is o) (λ a. a.id == j) f db.activations
        (λ a. ap (λ k. str_eq k o) (keep a)))
      (h o)

insert-UniqueOrders :
    (a : PhoneActivation) (db : Db)
    → by_order a.provider_order_id db ≡ none
    → UniqueOrders db
    → UniqueOrders (record db { activations = db.activations ++ a ∷ [] })
insert-UniqueOrders a db fresh h o =
    let more = length-select-snoc (order_is o) db.activations a in
    elim (Bool-cases (str_eq a.provider_order_id o)) [
      | inl same ↦
          let none_yet =
            length-select-find-none (order_is o) db.activations (
              subst (λ k. by_order k db ≡ none) ((str_eq_iff a.provider_order_id o).0 same)
                fresh) in
          rw (more, same, none_yet) (omega arith)
      | inr other ↦ rw (more, other) (omega (arith, h o))
    ]

on_row-UniqueOrders :
    (f : PhoneActivation → PhoneActivation) (id : ℕ) (db : Db)
    → ((a : PhoneActivation) → (f a).provider_order_id ≡ a.provider_order_id)
    → UniqueOrders db
    → UniqueOrders (on_row f id db).1
on_row-UniqueOrders f id db keep h = elim (Option-cases (get (λ a. a.id) id db.activations)) [
  | inl missing ↦ rw (missing, on_row) h
  | inr (a, there) ↦ rw (there, on_row) (change-UniqueOrders id f db keep h)
]

record_phone_activation-UniqueOrders :
    (out : Outside) (order : ActivationOrder) (origin : PhoneActivationOrigin) (w : Option String)
    (account : Option ℕ) (db : Db)
    → UniqueOrders db
    → UniqueOrders (record_phone_activation out order origin w account db).1
unfolding record_phone_activation
record_phone_activation-UniqueOrders out order origin w account db h =
    elim (Option-cases (by_order order.id db)) [
      | inl missing ↦
          rw (missing, record_phone_activation)
            (insert-UniqueOrders (new_activation out order origin w account) db missing h)
      | inr (a, there) ↦
          rw (there, record_phone_activation)
            (change-UniqueOrders a.id (relink w account) db (λ b. refl) h)
    ]

reserve_phone_activation-UniqueOrders :
    (out : Outside) (country : Option String) (service : String) (origin : PhoneActivationOrigin)
    (w : Option String) (db : Db)
    → UniqueOrders db
    → UniqueOrders (reserve_phone_activation out country service origin w db).1
unfolding reserve_phone_activation
reserve_phone_activation-UniqueOrders out country service origin w db h =
    elim (Result-cases (bought out country service)) [
      | inl (order, paid) ↦
          rw (paid, reserve_phone_activation)
            (record_phone_activation-UniqueOrders out order origin w none db h)
      | inr (e, failed) ↦ rw (failed, reserve_phone_activation) h
    ]

expire_due-UniqueOrders :
    (now : ℕ) (rows : List PhoneActivation) (db : Db)
    → UniqueOrders db
    → UniqueOrders (expire_due now rows db).1
unfolding expire_due
expire_due-UniqueOrders now [] db h = h
expire_due-UniqueOrders now (a ∷ rest) db h = expire_due-UniqueOrders now rest _ (
    if_both UniqueOrders (leb a.expires_at now) _ _
      (change-UniqueOrders a.id (set_status PhoneActivationStatus.expired) db (λ b. refl) h) h)

refresh_phone_activation-UniqueOrders :
    (out : Outside) (texts : Texts) (id : ℕ) (db : Db)
    → UniqueOrders db
    → UniqueOrders (refresh_phone_activation out texts id db).1
unfolding refresh_phone_activation
refresh_phone_activation-UniqueOrders out texts id db h =
    on_row-UniqueOrders (refresh_row out texts) id db (λ a. (refresh_row-SameKeys out texts a).1) h

tally-UniqueOrders :
    (r : Result Error PhoneActivation) (db : Db) (rest : Result Error ℕ × Db)
    → UniqueOrders db
    → UniqueOrders rest.1
    → UniqueOrders (tally r db rest).1
tally-UniqueOrders (err e) db rest h hr = h
tally-UniqueOrders (ok a) db (err e, db') h hr = hr
tally-UniqueOrders (ok a) db (ok n, db') h hr = hr

refresh_all-UniqueOrders :
    (later : ℕ → Outside) (texts : Texts) (ids : List ℕ) (db : Db)
    → UniqueOrders db
    → UniqueOrders (refresh_all later texts ids db).1
unfolding refresh_all
refresh_all-UniqueOrders later texts [] db h = h
refresh_all-UniqueOrders later texts (id ∷ ids) db h =
    let next_db = (refresh_phone_activation (later id) texts id db).1 in
    let once = refresh_phone_activation-UniqueOrders (later id) texts id db h in
    tally-UniqueOrders (refresh_phone_activation (later id) texts id db).0 next_db
      (refresh_all later texts ids next_db) once
      (refresh_all-UniqueOrders later texts ids next_db once)

link_phone_activation-UniqueOrders :
    (order : String) (account : ℕ) (db : Db)
    → UniqueOrders db
    → UniqueOrders (link_phone_activation order account db).1
unfolding link_phone_activation
link_phone_activation-UniqueOrders order account db h = elim (Option-cases (by_order order db)) [
  | inl missing ↦ rw (missing, link_phone_activation) h
  | inr (a, there) ↦
      rw (there, link_phone_activation)
        (change-UniqueOrders a.id (relink none (some account)) db (λ b. refl) h)
]

mark_phone_activation_received-UniqueOrders :
    (now : ℕ) (order code : String) (sms : Option String) (db : Db)
    → UniqueOrders db
    → UniqueOrders (mark_phone_activation_received now order code sms db)
unfolding mark_phone_activation_received
mark_phone_activation_received-UniqueOrders now order code sms db h =
    elim (Option-cases (by_order order db)) [
      | inl missing ↦ rw (missing, mark_phone_activation_received) h
      | inr (a, there) ↦
          rw (there, mark_phone_activation_received)
            (change-UniqueOrders a.id (received_row now code sms) db (λ b. refl) h)
    ]

mark_phone_activation_used-UniqueOrders :
    (now : ℕ) (order : String) (db : Db)
    → UniqueOrders db
    → UniqueOrders (mark_phone_activation_used now order db)
unfolding mark_phone_activation_used
mark_phone_activation_used-UniqueOrders now order db h = elim (Option-cases (by_order order db)) [
  | inl missing ↦ rw (missing, mark_phone_activation_used) h
  | inr (a, there) ↦
      rw (there, mark_phone_activation_used)
        (change-UniqueOrders a.id (used_row now) db (λ b. refl) h)
]

respond-UniqueOrders :
    (texts : Texts) (m : Meeting) (r : Request) (db : Db)
    → UniqueOrders db
    → UniqueOrders (respond texts m r db)
unfolding respond cancel_phone_activation reconcile_phone_activations
respond-UniqueOrders texts m (record_order order origin w account) db h =
    record_phone_activation-UniqueOrders m.out order origin w account db h
respond-UniqueOrders texts m (reserve country service origin w) db h =
    reserve_phone_activation-UniqueOrders m.out country service origin w db h
respond-UniqueOrders texts m (refresh id) db h =
    refresh_phone_activation-UniqueOrders m.out texts id db h
respond-UniqueOrders texts m (cancel id) db h =
    on_row-UniqueOrders (cancel_row m.out texts) id db (λ a. (cancel_row-SameKeys m.out texts a).1)
      h
respond-UniqueOrders texts m (link order account) db h =
    link_phone_activation-UniqueOrders order account db h
respond-UniqueOrders texts m (mark_received order code sms) db h =
    mark_phone_activation_received-UniqueOrders m.out.now order code sms db h
respond-UniqueOrders texts m (mark_used order) db h =
    mark_phone_activation_used-UniqueOrders m.out.now order db h
respond-UniqueOrders texts m (reconcile limit) db h =
    let rows = to_reconcile limit db in
    let first = expire_due m.out.now rows db in
    refresh_all-UniqueOrders m.later texts first.0.0 first.1
      (expire_due-UniqueOrders m.out.now rows db h)

-- If no order has two activations, none has after any history of all the requests, whatever the provider
-- answers.
pub respond_all-UniqueOrders :
    (texts : Texts) (history : List (Meeting × Request)) (db : Db)
    → UniqueOrders db
    → UniqueOrders (respond_all texts history db)
unfolding respond_all
respond_all-UniqueOrders texts [] db h = h
respond_all-UniqueOrders texts ((m, r) ∷ rest) db h =
    respond_all-UniqueOrders texts rest (respond texts m r db) (respond-UniqueOrders texts m r db h)
