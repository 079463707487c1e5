-- ===== src/Control/Campaigns/Log.antt =====
-- What campaign commands do to the audit events: the event of a key stays the event of that key.
use auto_bot_lbc_pj.Prelude.{
  ℕ, String, [], ◌∷◌, List, some, get, find, ◌≡◌, ◌∙◌, ap, inl, inr, Option-cases, Result-cases,
  Returns, Returns->>=, Returns_ok, find-append_old,
}
use auto_bot_lbc_pj.Models.{CampaignStatus}
use auto_bot_lbc_pj.Tables.{AuditEvent, Db}
use auto_bot_lbc_pj.Control.Common.{Action, Caller, Outside, find_audit, key_is, insert_audit}
use auto_bot_lbc_pj.Control.Campaigns.{
  visit_types, dispatch, set_status, campaign_transition, duplicate_session, fresh_session,
  command_session, command_event, execute_campaign_command, workflow_types, first_run,
}
use auto_bot_lbc_pj.Control.Campaigns.Frame.{Framed, visit_types-Framed, dispatch-Framed}
use auto_bot_lbc_pj.Control.Campaigns.Statuses.{Command, run_commands, answer_state}

module _ (key : String) (e : AuditEvent) where
  abbrev Keeps : Db → Db → Type 0
  Keeps db db' = find_audit key db ≡ some e → find_audit key db' ≡ some e

  Keeps-Framed : (a b c : Db) → Framed b c → Keeps a b → Keeps a c
  Keeps-Framed a b c f k h = ap (find (key_is key)) f.audit ∙ k h

  module _ (out : Outside) (caller : Caller) (campaign_id : ℕ) (action : Action) where
    added :
        (event : AuditEvent) (next : CampaignStatus) (db db₁ : Db)
        → Framed (set_status out caller campaign_id action next db) db₁
        → Keeps db (insert_audit event db₁)
    unfolding set_status
    added event next db db₁ f h =
        find-append_old (key_is key) db₁.audit (event ∷ []) e (ap (find (key_is key)) f.audit ∙ h)

    fresh-Keeps :
        (db : Db) → Returns (λ _. Keeps db) (fresh_session out caller campaign_id action db)
    unfolding fresh_session
    fresh-Keeps db = elim (Option-cases (get (λ c. c.id) campaign_id db.campaigns)) [
      | inl missing ↦ rw missing tt
      | inr (campaign, found) ↦
          rw found elim (Result-cases (campaign_transition campaign.status action)) [
            | inr (error, refused) ↦ rw refused tt
            | inl (next, allowed) ↦ rw allowed (
                Returns->>= (λ _. Framed (set_status out caller campaign_id action next db))
                  (λ _. Keeps db)
                  (visit_types out caller campaign_id action 0 (workflow_types campaign) _) _
                  (visit_types-Framed out caller campaign_id action 0 (workflow_types campaign) _)
                  λ runs db₁ f.
                    added (command_event out caller campaign_id action next (first_run runs)) next
                      db db₁ f)
          ]
    ]

    duplicate-Keeps :
        (event : AuditEvent) (db : Db)
        → Returns (λ _. Keeps db) (duplicate_session out caller campaign_id action event db)
    unfolding duplicate_session
    duplicate-Keeps event db = elim (Option-cases (get (λ c. c.id) campaign_id db.campaigns)) [
      | inl missing ↦ rw missing tt
      | inr (campaign, found) ↦ rw found (λ h. h)
    ]

    session-Keeps :
        (db : Db) → Returns (λ _. Keeps db) (command_session out caller campaign_id action db)
    unfolding command_session
    session-Keeps db = elim (Option-cases (find_audit caller.idempotency_key db)) [
      | inl unused ↦ rw (unused, command_session) (fresh-Keeps db)
      | inr (event, used) ↦ rw (used, command_session) (duplicate-Keeps event db)
    ]

    command-Keeps :
        (db : Db) → Keeps db (execute_campaign_command out caller campaign_id action db).1
    unfolding execute_campaign_command
    command-Keeps db = elim (Result-cases (command_session out caller campaign_id action db)) [
      | inr (error, raised) ↦ rw (raised, execute_campaign_command) (λ h. h)
      | inl (((response, runs), db₁), returned) ↦
          rw (returned, execute_campaign_command)
            (rw (answer_state response (dispatch out runs db₁)) (
              Keeps-Framed db db₁ _ (dispatch-Framed out runs db₁)
                (Returns_ok (λ _. Keeps db) _ (response, runs) db₁ returned (session-Keeps db))))
    ]

  pub run_commands-Keeps :
      (cs : List Command) (db : Db)
      → find_audit key db ≡ some e
      → find_audit key (run_commands cs db) ≡ some e
  unfolding run_commands
  run_commands-Keeps [] db h = h
  run_commands-Keeps ((out, caller, campaign_id, action) ∷ rest) db h =
      run_commands-Keeps rest (execute_campaign_command out caller campaign_id action db).1
        (command-Keeps out caller campaign_id action db h)
