-- ===== src/Phone/Moves.antt =====
-- How a session moves the status of the row that it reads.
use auto_bot_lbc_pj.Prelude.{
  ◌≡◌, refl, inl, inr, arith, true, false, if_both, str_eq, leb, ◌||◌, Option-cases, Result-cases,
  Bool-cases,
}
use auto_bot_lbc_pj.Models.{PhoneActivationStatus, activation_is_terminal, activation_is_received}
use auto_bot_lbc_pj.Tables.{PhoneActivation}
use auto_bot_lbc_pj.Phone.Activations.{
  Outside, answered, arrived, in_two, ask_provider, refresh_row, cancel_row,
}
use auto_bot_lbc_pj.Phone.Codes.{Texts, Payload, provider_status}

-- One move: a live number gets its code or ends, and a number that got one may still be cancelled.
pub data Moves : PhoneActivationStatus → PhoneActivationStatus → Type 0 where
  reserved_received : Moves PhoneActivationStatus.reserved PhoneActivationStatus.received
  reserved_cancelled : Moves PhoneActivationStatus.reserved PhoneActivationStatus.cancelled
  reserved_expired : Moves PhoneActivationStatus.reserved PhoneActivationStatus.expired
  reserved_refunded : Moves PhoneActivationStatus.reserved PhoneActivationStatus.refunded
  waiting_received : Moves PhoneActivationStatus.waiting PhoneActivationStatus.received
  waiting_cancelled : Moves PhoneActivationStatus.waiting PhoneActivationStatus.cancelled
  waiting_expired : Moves PhoneActivationStatus.waiting PhoneActivationStatus.expired
  waiting_refunded : Moves PhoneActivationStatus.waiting PhoneActivationStatus.refunded
  received_cancelled : Moves PhoneActivationStatus.received PhoneActivationStatus.cancelled

pub data Reach (s : PhoneActivationStatus) : PhoneActivationStatus → Type 0 where
  stays : Reach s s
  moves : {t u : PhoneActivationStatus} → Reach s t → Moves t u → Reach s u

ruleset lifecycle = (
  stays, moves, reserved_received, reserved_cancelled, reserved_expired, reserved_refunded,
  waiting_received, waiting_cancelled, waiting_expired, waiting_refunded, received_cancelled,
)

pub Reach-trans : {s t u : PhoneActivationStatus} → Reach s t → Reach t u → Reach s u
Reach-trans r stays = r
Reach-trans r (moves q m) = moves (Reach-trans r q) m

-- The ends of a number that is still reserved or waiting.
live_Reach :
    (s : PhoneActivationStatus)
    → (activation_is_terminal s || activation_is_received s) ≡ false
    → Reach s PhoneActivationStatus.received
      × Reach s PhoneActivationStatus.cancelled
      × Reach s PhoneActivationStatus.expired
      × Reach s PhoneActivationStatus.refunded
live_Reach s h = grind (arith, lifecycle)

answered-Reach :
    (out : Outside) (texts : Texts) (p : Payload) (a : PhoneActivation)
    → (activation_is_terminal a.status || activation_is_received a.status) ≡ false
    → Reach a.status (answered out texts p a).status
answered-Reach out texts p a h =
    let to = live_Reach a.status h in
    elim (Option-cases (arrived texts p)) [
      | inr (text, there) ↦ rw (there, answered) to.0
      | inl silent ↦
          rw (silent, answered)
            (if_both (λ (b : PhoneActivation). Reach a.status b.status)
              (in_two (provider_status texts p) "CANCELLED" "CANCELED") _ _ to.1
              (if_both (λ (b : PhoneActivation). Reach a.status b.status)
                (in_two (provider_status texts p) "EXPIRED" "TIMEOUT") _ _ to.2
                (if_both (λ (b : PhoneActivation). Reach a.status b.status)
                  (str_eq (provider_status texts p) "REFUNDED") _ _ to.3 stays)))
    ]

ask_provider-Reach :
    (out : Outside) (texts : Texts) (a : PhoneActivation)
    → (activation_is_terminal a.status || activation_is_received a.status) ≡ false
    → Reach a.status (ask_provider out texts a).status
ask_provider-Reach out texts a h =
    elim (Result-cases (out.get_sms_activation a.provider_order_id)) [
      | inl (p, there) ↦ rw (there, ask_provider) (answered-Reach out texts p a h)
      | inr (e, failed) ↦ rw (failed, ask_provider) stays
    ]

cancellable_Reach :
    (s : PhoneActivationStatus)
    → activation_is_terminal s ≡ false
    → Reach s PhoneActivationStatus.cancelled
cancellable_Reach s h = grind (arith, lifecycle)

pub refresh_row-Reach :
    (out : Outside) (texts : Texts) (a : PhoneActivation)
    → Reach a.status (refresh_row out texts a).status
unfolding refresh_row
refresh_row-Reach out texts a =
    elim (Bool-cases (activation_is_terminal a.status || activation_is_received a.status)) [
      | inl over ↦ rw over stays
      | inr live ↦ rw live (elim (Bool-cases (leb a.expires_at out.now)) [
        | inl late ↦ rw late (live_Reach a.status live).2
        | inr early ↦ rw early (ask_provider-Reach out texts a live)
      ])
    ]

pub cancel_row-Reach :
    (out : Outside) (texts : Texts) (a : PhoneActivation)
    → Reach a.status (cancel_row out texts a).status
unfolding cancel_row
cancel_row-Reach out texts a = elim (Bool-cases (activation_is_terminal a.status)) [
  | inl over ↦ rw over stays
  | inr open_ ↦ rw open_ (elim (Result-cases (out.cancel_number a.provider_order_id)) [
    | inr (e, failed) ↦ rw failed stays
    | inl (true, done) ↦ rw done (cancellable_Reach a.status open_)
    | inl (false, refused) ↦ rw refused stays
  ])
]

Moves-live : {s t : PhoneActivationStatus} → Moves s t → activation_is_terminal s ≡ false
Moves-live m = grind (arith)

pub Reach-activation_is_terminal :
    {s t : PhoneActivationStatus} → Reach s t → activation_is_terminal s ≡ true → t ≡ s
Reach-activation_is_terminal stays h = refl
Reach-activation_is_terminal {s = s} (moves {t = t} r m) h =
    let same = Reach-activation_is_terminal r h in let live = Moves-live m in cc
