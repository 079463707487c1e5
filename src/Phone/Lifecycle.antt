-- ===== src/Phone/Lifecycle.antt =====
-- How requests move the status of an activation.
use mathlib.Core.Option
use auto_bot_lbc_pj.Prelude.{
  ℕ, String, List, [], ◌∷◌, Option, none, some, get, ◌≡◌, refl, ◌∙◌, ap, inl, inr, true, ◌++◌,
  subst, map-some, Option-cases, Result-cases, Bool-cases, get-modify, get-append_old, All, ◌==◌,
}
use auto_bot_lbc_pj.Models.{
  PhoneActivationStatus, PhoneActivationOrigin, ActivationOrder, activation_is_terminal,
}
use auto_bot_lbc_pj.Tables.{PhoneActivation, Db}
use auto_bot_lbc_pj.Phone.Activations.{
  Outside, new_activation, refresh_row, cancel_row, relink, on_row, change, by_order,
  record_phone_activation, reserve_phone_activation, refresh_phone_activation,
  cancel_phone_activation, link_phone_activation, bought,
}
use auto_bot_lbc_pj.Phone.Codes.{Texts}
use auto_bot_lbc_pj.Phone.Keys.{refresh_row-SameKeys, cancel_row-SameKeys}
use auto_bot_lbc_pj.Phone.Requests.{
  Request, record_order, reserve, refresh, cancel, link, mark_received, mark_used, reconcile,
  Meeting, is_guarded, respond, respond_all,
}
use auto_bot_lbc_pj.Phone.Moves.{
  Reach, stays, Reach-trans, refresh_row-Reach, cancel_row-Reach, Reach-activation_is_terminal,
}

abbrev pub status_at : ℕ → Db → Option PhoneActivationStatus
status_at i db = Option.map (λ a. a.status) (get (λ a. a.id) i db.activations)

-- Each activation that was there still is, and its status has moved along the lifecycle.
abbrev pub Advances : Db → Db → Type 0
Advances db db' =
    (i : ℕ) (s : PhoneActivationStatus)
    → status_at i db ≡ some s
    → (t : PhoneActivationStatus) × (status_at i db' ≡ some t) × Reach s t

Advances-refl : (db : Db) → Advances db db
Advances-refl db i s h = (s, h, stays)

Advances-trans : (a b c : Db) → Advances a b → Advances b c → Advances a c
Advances-trans a b c f g i s h =
    let (t, at, r) = f i s h in let (u, at', q) = g i t at in (u, at', Reach-trans r q)

change-Advances :
    (j : ℕ) (f : PhoneActivation → PhoneActivation) (db : Db)
    → ((a : PhoneActivation) → (f a).id ≡ a.id)
    → ((a : PhoneActivation) → Reach a.status (f a).status)
    → Advances db (change j f db)
change-Advances j f db keep step i s h =
    let (a, there, is) = map-some (λ a. a.status) (get (λ a. a.id) i db.activations) s h in
    let after = get-modify (λ a. a.id) j i f db.activations keep in
    elim (Bool-cases (j == i)) [
      | inl same ↦ (
        (f a).status,
        rw (after, same, there) refl,
        subst (λ t. Reach t (f a).status) is (step a),
      )
      | inr other ↦ (s, rw (after, other) h, stays)
    ]

insert-Advances :
    (a : PhoneActivation) (db : Db)
    → Advances db (record db { activations = db.activations ++ a ∷ [] })
insert-Advances a db i s h =
    let (b, there, is) = map-some (λ a. a.status) (get (λ a. a.id) i db.activations) s h in
    let still = get-append_old (λ a. a.id) i db.activations (a ∷ []) b there in
    (s, rw still (ap some is), stays)

on_row-Advances :
    (f : PhoneActivation → PhoneActivation) (id : ℕ) (db : Db)
    → ((a : PhoneActivation) → (f a).id ≡ a.id)
    → ((a : PhoneActivation) → Reach a.status (f a).status)
    → Advances db (on_row f id db).1
on_row-Advances f id db keep step = elim (Option-cases (get (λ a. a.id) id db.activations)) [
  | inl missing ↦ rw (missing, on_row) (Advances-refl db)
  | inr (a, there) ↦ rw (there, on_row) (change-Advances id f db keep step)
]

record_phone_activation-Advances :
    (out : Outside) (order : ActivationOrder) (origin : PhoneActivationOrigin) (w : Option String)
    (account : Option ℕ) (db : Db)
    → Advances db (record_phone_activation out order origin w account db).1
unfolding record_phone_activation
record_phone_activation-Advances out order origin w account db =
    elim (Option-cases (by_order order.id db)) [
      | inl missing ↦
          rw (missing, record_phone_activation)
            (insert-Advances (new_activation out order origin w account) db)
      | inr (a, there) ↦
          rw (there, record_phone_activation)
            (change-Advances a.id (relink w account) db (λ b. refl) (λ b. stays))
    ]

reserve_phone_activation-Advances :
    (out : Outside) (country : Option String) (service : String) (origin : PhoneActivationOrigin)
    (w : Option String) (db : Db)
    → Advances db (reserve_phone_activation out country service origin w db).1
unfolding reserve_phone_activation
reserve_phone_activation-Advances out country service origin w db =
    elim (Result-cases (bought out country service)) [
      | inl (order, paid) ↦
          rw (paid, reserve_phone_activation)
            (record_phone_activation-Advances out order origin w none db)
      | inr (e, failed) ↦ rw (failed, reserve_phone_activation) (Advances-refl db)
    ]

link_phone_activation-Advances :
    (order : String) (account : ℕ) (db : Db)
    → Advances db (link_phone_activation order account db).1
unfolding link_phone_activation
link_phone_activation-Advances order account db = elim (Option-cases (by_order order db)) [
  | inl missing ↦ rw (missing, link_phone_activation) (Advances-refl db)
  | inr (a, there) ↦
      rw (there, link_phone_activation)
        (change-Advances a.id (relink none (some account)) db (λ b. refl) (λ b. stays))
]

respond-Advances :
    (texts : Texts) (m : Meeting) (r : Request) (db : Db)
    → is_guarded r ≡ true
    → Advances db (respond texts m r db)
unfolding respond refresh_phone_activation cancel_phone_activation
respond-Advances texts m (record_order order origin w account) db h =
    record_phone_activation-Advances m.out order origin w account db
respond-Advances texts m (reserve country service origin w) db h =
    reserve_phone_activation-Advances m.out country service origin w db
respond-Advances texts m (refresh id) db h =
    on_row-Advances (refresh_row m.out texts) id db (λ a. (refresh_row-SameKeys m.out texts a).0)
      (refresh_row-Reach m.out texts)
respond-Advances texts m (cancel id) db h =
    on_row-Advances (cancel_row m.out texts) id db (λ a. (cancel_row-SameKeys m.out texts a).0)
      (cancel_row-Reach m.out texts)
respond-Advances texts m (link order account) db h = link_phone_activation-Advances order account db
respond-Advances texts m (mark_received order code sms) db h = cc
respond-Advances texts m (mark_used order) db h = cc
respond-Advances texts m (reconcile limit) db h = cc

respond_all-Advances :
    (texts : Texts) (history : List (Meeting × Request)) (db : Db)
    → All (λ h. is_guarded h.1 ≡ true) history
    → Advances db (respond_all texts history db)
unfolding respond_all
respond_all-Advances texts [] db h = Advances-refl db
respond_all-Advances texts ((m, r) ∷ rest) db h =
    Advances-trans db (respond texts m r db) (respond_all texts rest (respond texts m r db))
      (respond-Advances texts m r db h.0)
      (respond_all-Advances texts rest (respond texts m r db) h.1)

-- An activation that was used, cancelled, expired, refunded or failed keeps that status in any history of
-- recording, reserving, refreshing, cancelling and linking.
pub respond_all-ended :
    (texts : Texts) (history : List (Meeting × Request)) (db : Db) (i : ℕ)
    (s : PhoneActivationStatus)
    → All (λ h. is_guarded h.1 ≡ true) history
    → status_at i db ≡ some s
    → activation_is_terminal s ≡ true
    → status_at i (respond_all texts history db) ≡ some s
respond_all-ended texts history db i s guarded at over =
    let (t, after, r) = respond_all-Advances texts history db guarded i s at in
    after ∙ ap some (Reach-activation_is_terminal r over)
