-- ===== src/Control/Campaigns/Statuses.antt =====
-- How the operators' commands move the status of campaigns.
use mathlib.Core.Option
use auto_bot_lbc_pj.Prelude.{
  ℕ, List, [], ◌∷◌, Option, none, some, get, ◌≡◌, refl, sym, subst, ◌∙◌, ap, inl, inr, arith,
  Result, ok, err, Option-cases, Result-cases, get-modify, ◌==◌, Returns, Returns->>=, Returns_ok,
  Bool-cases, ==→eq,
}
use auto_bot_lbc_pj.Models.{CampaignStatus}
use auto_bot_lbc_pj.Tables.{Campaign, AuditEvent, Db}
use auto_bot_lbc_pj.Control.Common.{Action, Error, Caller, Outside, find_audit}
use auto_bot_lbc_pj.Control.Campaigns.{
  visit_types, dispatch, set_status, campaign_transition, duplicate_session, fresh_session,
  command_session, CampaignCommandResponse, execute_campaign_command, workflow_types, answer,
}
use auto_bot_lbc_pj.Control.Campaigns.Frame.{Framed, visit_types-Framed, dispatch-Framed}

abbrev pub status_of : ℕ → Db → Option CampaignStatus
status_of j db = Option.map (λ c. c.status) (get (λ c. c.id) j db.campaigns)

-- The moves that an operator may make.
pub data Moves : CampaignStatus → CampaignStatus → Type 0 where
  launches : Moves CampaignStatus.pending CampaignStatus.running
  suspends : Moves CampaignStatus.running CampaignStatus.paused
  proceeds : Moves CampaignStatus.paused CampaignStatus.running
  retries : Moves CampaignStatus.failed CampaignStatus.running
  cancels_pending : Moves CampaignStatus.pending CampaignStatus.cancelled
  cancels_running : Moves CampaignStatus.running CampaignStatus.cancelled
  cancels_paused : Moves CampaignStatus.paused CampaignStatus.cancelled

pub data Reach (s : CampaignStatus) : CampaignStatus → Type 0 where
  here : Reach s s
  moves : {t u : CampaignStatus} → Reach s t → Moves t u → Reach s u

Reach-trans : {s t u : CampaignStatus} → Reach s t → Reach t u → Reach s u
Reach-trans r here = r
Reach-trans r (moves q m) = moves (Reach-trans r q) m

ruleset operator_moves =
    (launches, suspends, proceeds, retries, cancels_pending, cancels_running, cancels_paused)

campaign_transition-Moves :
    (s : CampaignStatus) (a : Action) (t : CampaignStatus)
    → campaign_transition s a ≡ ok t
    → Moves s t
campaign_transition-Moves s a t e = grind (arith, operator_moves)

-- The status of campaign `j` after a step, from the one before it.
abbrev Advances : ℕ → Db → Db → Type 0
Advances j db db' =
    (s : CampaignStatus)
    → status_of j db ≡ some s
    → (t : CampaignStatus) × (status_of j db' ≡ some t) × Reach s t

Advances-refl : (j : ℕ) (db : Db) → Advances j db db
Advances-refl j db s e = (s, e, here)

Advances-Framed : (j : ℕ) (a b c : Db) → Framed b c → Advances j a b → Advances j a c
Advances-Framed j a b c f h s e =
    let (t, at, r) = h s e in
    (t, ap (λ cs. Option.map (λ c. c.status) (get (λ c. c.id) j cs)) f.campaigns ∙ at, r)

pub answer_state :
    (response : CampaignCommandResponse) (a : Result Error (Unit {0}) × Db)
    → (answer response a).1 ≡ a.1
answer_state response (ok _, db) = refl
answer_state response (err e, db) = refl

module _ (out : Outside) (caller : Caller) (campaign_id : ℕ) (action : Action) (j : ℕ) where
  set_status-Advances :
      (db : Db) (campaign : Campaign) (next : CampaignStatus)
      → get (λ c. c.id) campaign_id db.campaigns ≡ some campaign
      → Moves campaign.status next
      → Advances j db (set_status out caller campaign_id action next db)
  unfolding set_status
  set_status-Advances db campaign next found m s e =
      let after =
        get-modify (λ c. c.id) campaign_id j (λ c. record c { status = next; last_error = none })
          db.campaigns (λ c. refl) in
      elim (Bool-cases (campaign_id == j)) [
        | inr other ↦ (s, rw (after, other) e, here)
        | inl same ↦
            let here_too = rw (==→eq campaign_id j same) at found in
            let old : campaign.status ≡ s = ground arith in
            (next, rw (after, same, here_too), moves here (rw old at m))
      ]

  fresh-Advances :
      (db : Db)
      → Returns (λ _ db'. Advances j db db') (fresh_session out caller campaign_id action db)
  unfolding fresh_session
  fresh-Advances db = elim (Option-cases (get (λ c. c.id) campaign_id db.campaigns)) [
    | inl missing ↦ rw missing tt
    | inr (campaign, found) ↦
        rw found elim (Result-cases (campaign_transition campaign.status action)) [
          | inr (e, refused) ↦ rw refused tt
          | inl (next, allowed) ↦ rw allowed (
              Returns->>= (λ _. Framed (set_status out caller campaign_id action next db))
                (λ _ db'. Advances j db db')
                (visit_types out caller campaign_id action 0 (workflow_types campaign) _) _
                (visit_types-Framed out caller campaign_id action 0 (workflow_types campaign) _)
                λ runs db₁ f. Advances-Framed j db _ db₁ f (
                  set_status-Advances db campaign next found
                    (campaign_transition-Moves campaign.status action next allowed)))
        ]
  ]

  duplicate-Advances :
      (event : AuditEvent) (db : Db)
      → Returns
          (λ _ db'. Advances j db db')
          (duplicate_session out caller campaign_id action event db)
  unfolding duplicate_session
  duplicate-Advances event db = elim (Option-cases (get (λ c. c.id) campaign_id db.campaigns)) [
    | inl missing ↦ rw missing tt
    | inr (campaign, found) ↦ rw found (Advances-refl j db)
  ]

  session-Advances :
      (db : Db)
      → Returns (λ _ db'. Advances j db db') (command_session out caller campaign_id action db)
  unfolding command_session
  session-Advances db = elim (Option-cases (find_audit caller.idempotency_key db)) [
    | inl unused ↦ rw (unused, command_session) (fresh-Advances db)
    | inr (event, used) ↦ rw (used, command_session) (duplicate-Advances event db)
  ]

  command-Advances :
      (db : Db) → Advances j db (execute_campaign_command out caller campaign_id action db).1
  unfolding execute_campaign_command
  command-Advances db = elim (Result-cases (command_session out caller campaign_id action db)) [
    | inr (error, raised) ↦ rw (raised, execute_campaign_command) (Advances-refl j db)
    | inl (((response, runs), db₁), returned) ↦
        rw (returned, execute_campaign_command)
          (rw (answer_state response (dispatch out runs db₁)) (
            Advances-Framed j db db₁ _ (dispatch-Framed out runs db₁) (
              Returns_ok (λ _ db'. Advances j db db') _ (response, runs) db₁ returned
                (session-Advances db))))
  ]

-- One command of a history: its outside world, its caller, its campaign and its action.
abbrev pub Command : Type 0
Command = Outside × Caller × ℕ × Action

-- The database after a history of commands, whatever each of them answered.
unfoldable pub run_commands : List Command → Db → Db
run_commands [] db = db
run_commands ((out, caller, campaign_id, action) ∷ rest) db =
    run_commands rest (execute_campaign_command out caller campaign_id action db).1

-- Over any history of commands a campaign's status moves only along the moves of `Moves`.
pub run_commands-Reach :
    (cs : List Command) (j : ℕ) (db : Db) (s : CampaignStatus)
    → status_of j db ≡ some s
    → (t : CampaignStatus) × (status_of j (run_commands cs db) ≡ some t) × Reach s t
unfolding run_commands
run_commands-Reach [] j db s e = (s, e, here)
run_commands-Reach ((out, caller, campaign_id, action) ∷ rest) j db s e =
    let (t, at, r) = command-Advances out caller campaign_id action j db s e in
    let (u, au, q) =
      run_commands-Reach rest j (execute_campaign_command out caller campaign_id action db).1 t
        at in
    (u, au, Reach-trans r q)

abbrev pub IsSettled : CampaignStatus → Type 0
IsSettled CampaignStatus.completed = Unit
IsSettled CampaignStatus.cancelled = Unit
IsSettled _ = ⊥

settled_stuck : {s t : CampaignStatus} → IsSettled s → Moves s t → ⊥
settled_stuck h launches = h
settled_stuck h suspends = h
settled_stuck h proceeds = h
settled_stuck h retries = h
settled_stuck h cancels_pending = h
settled_stuck h cancels_running = h
settled_stuck h cancels_paused = h

Reach-settled : {s t : CampaignStatus} → IsSettled s → Reach s t → t ≡ s
Reach-settled h here = refl
Reach-settled h (moves r m) = absurd (settled_stuck (subst IsSettled (sym (Reach-settled h r)) h) m)

-- A completed or cancelled campaign stays so, whatever commands follow.
pub run_commands-settled :
    (cs : List Command) (j : ℕ) (db : Db) (s : CampaignStatus)
    → IsSettled s
    → status_of j db ≡ some s
    → status_of j (run_commands cs db) ≡ some s
run_commands-settled cs j db s h e =
    let (t, at, r) = run_commands-Reach cs j db s e in at ∙ ap some (Reach-settled h r)
