-- ===== src/Phone/Keys.antt =====
-- What a session writes to a row leaves its identifier and its order.
use auto_bot_lbc_pj.Prelude.{
  ◌≡◌, refl, inl, inr, ◌||◌, leb, str_eq, if_both, Option-cases, Result-cases, Bool-cases,
}
use auto_bot_lbc_pj.Models.{activation_is_terminal, activation_is_received}
use auto_bot_lbc_pj.Tables.{PhoneActivation}
use auto_bot_lbc_pj.Phone.Activations.{
  Outside, answered, arrived, in_two, ask_provider, refresh_row, cancel_row,
}
use auto_bot_lbc_pj.Phone.Codes.{Texts, Payload, provider_status}

abbrev pub SameKeys : PhoneActivation → PhoneActivation → Type 0
SameKeys a b = (b.id ≡ a.id) × (b.provider_order_id ≡ a.provider_order_id)

answered-SameKeys :
    (out : Outside) (texts : Texts) (p : Payload) (a : PhoneActivation)
    → SameKeys a (answered out texts p a)
answered-SameKeys out texts p a = elim (Option-cases (arrived texts p)) [
  | inr (text, there) ↦ rw (there, answered) (refl, refl)
  | inl silent ↦
      rw (silent, answered)
        (if_both (SameKeys a) (in_two (provider_status texts p) "CANCELLED" "CANCELED") _ _
          (refl, refl)
          (if_both (SameKeys a) (in_two (provider_status texts p) "EXPIRED" "TIMEOUT") _ _
            (refl, refl)
            (if_both (SameKeys a) (str_eq (provider_status texts p) "REFUNDED") _ _ (refl, refl)
              (refl, refl))))
]

ask_provider-SameKeys :
    (out : Outside) (texts : Texts) (a : PhoneActivation) → SameKeys a (ask_provider out texts a)
ask_provider-SameKeys out texts a =
    elim (Result-cases (out.get_sms_activation a.provider_order_id)) [
      | inl (p, there) ↦ rw (there, ask_provider) (answered-SameKeys out texts p a)
      | inr (e, failed) ↦ rw (failed, ask_provider) (refl, refl)
    ]

pub refresh_row-SameKeys :
    (out : Outside) (texts : Texts) (a : PhoneActivation) → SameKeys a (refresh_row out texts a)
unfolding refresh_row
refresh_row-SameKeys out texts a =
    if_both (SameKeys a) (activation_is_terminal a.status || activation_is_received a.status) _ _
      (refl, refl)
      (if_both (SameKeys a) (leb a.expires_at out.now) _ _ (refl, refl)
        (ask_provider-SameKeys out texts a))

pub cancel_row-SameKeys :
    (out : Outside) (texts : Texts) (a : PhoneActivation) → SameKeys a (cancel_row out texts a)
unfolding cancel_row
cancel_row-SameKeys out texts a = elim (Bool-cases (activation_is_terminal a.status)) [
  | inl over ↦ rw over (refl, refl)
  | inr live ↦ rw live (elim (Result-cases (out.cancel_number a.provider_order_id)) [
    | inr (e, failed) ↦ rw failed (refl, refl)
    | inl (b, asked) ↦ rw asked (if_both (SameKeys a) b _ _ (refl, refl) (refl, refl))
  ])
]
