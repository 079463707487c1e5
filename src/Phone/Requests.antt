-- ===== src/Phone/Requests.antt =====
-- The operations on activations as requests, and a history of them with what each meets outside.
use auto_bot_lbc_pj.Prelude.{ℕ, String, Bool, true, false, List, [], ◌∷◌, Option}
use auto_bot_lbc_pj.Models.{PhoneActivationOrigin, ActivationOrder}
use auto_bot_lbc_pj.Tables.{Db}
use auto_bot_lbc_pj.Phone.Activations.{
  Outside, record_phone_activation, reserve_phone_activation, refresh_phone_activation,
  cancel_phone_activation, link_phone_activation,
}
use auto_bot_lbc_pj.Phone.Operations.{
  mark_phone_activation_received, mark_phone_activation_used, reconcile_phone_activations,
}
use auto_bot_lbc_pj.Phone.Codes.{Texts}

pub data Request : Type 0 where
  record_order : ActivationOrder → PhoneActivationOrigin → Option String → Option ℕ → Request
  reserve : Option String → String → PhoneActivationOrigin → Option String → Request
  refresh : ℕ → Request
  cancel : ℕ → Request
  link : String → ℕ → Request
  mark_received : String → String → Option String → Request
  mark_used : String → Request
  reconcile : ℕ → Request

-- The requests that read one row and look at its status before they change it.
abbrev pub is_guarded : Request → Bool
is_guarded (mark_received _ _ _) = false
is_guarded (mark_used _) = false
is_guarded (reconcile _) = false
is_guarded _ = true

-- What one request meets: the outside of its own session, and of each row that it refreshes afterwards.
pub record Meeting : Type 0 where
  pub out : Outside
  pub later : ℕ → Outside

unfoldable pub respond : Texts → Meeting → Request → Db → Db
respond texts m (record_order order origin workflow_id account_id) db =
    (record_phone_activation m.out order origin workflow_id account_id db).1
respond texts m (reserve country service origin workflow_id) db =
    (reserve_phone_activation m.out country service origin workflow_id db).1
respond texts m (refresh id) db = (refresh_phone_activation m.out texts id db).1
respond texts m (cancel id) db = (cancel_phone_activation m.out texts id db).1
respond texts m (link order account_id) db = (link_phone_activation order account_id db).1
respond texts m (mark_received order code sms) db =
    mark_phone_activation_received m.out.now order code sms db
respond texts m (mark_used order) db = mark_phone_activation_used m.out.now order db
respond texts m (reconcile limit) db =
    (reconcile_phone_activations m.out.now m.later texts limit db).1

unfoldable pub respond_all : Texts → List (Meeting × Request) → Db → Db
respond_all texts [] db = db
respond_all texts ((m, r) ∷ rest) db = respond_all texts rest (respond texts m r db)
