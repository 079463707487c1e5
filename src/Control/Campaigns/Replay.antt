-- ===== src/Control/Campaigns/Replay.antt =====
-- A command under a key that was used before (`AuditEvent.idempotency_key`).
use auto_bot_lbc_pj.Prelude.{
  ℕ, String, List, none, some, get, find, ◌≡◌, refl, ◌∙◌, ap, inl, inr, arith, Result, ok, err,
  Option-cases, Result-cases, get-modify, ==_refl, Returns, Returns->>=, Returns_ok,
  find-append_none, str_eq_refl,
}
use auto_bot_lbc_pj.Models.{CampaignStatus}
use auto_bot_lbc_pj.Tables.{Campaign, AuditEvent, Db}
use auto_bot_lbc_pj.Control.Common.{
  Action, Error, Caller, Outside, find_audit, key_is, insert_audit,
}
use auto_bot_lbc_pj.Control.Campaigns.{
  visit_types, dispatch, set_status, campaign_transition, duplicate_session, fresh_session,
  command_session, command_event, CampaignCommandResponse, execute_campaign_command, workflow_types,
  first_run, answer,
}
use auto_bot_lbc_pj.Control.Campaigns.Log.{run_commands-Keeps}
use auto_bot_lbc_pj.Control.Campaigns.Statuses.{
  Command, run_commands, status_of, Reach, run_commands-Reach,
}
use auto_bot_lbc_pj.Control.Campaigns.Frame.{Framed, visit_types-Framed, dispatch-Framed}

-- The database knows the answer that was given under a key.
record Recorded (key : String) (campaign_id : ℕ) (r : CampaignCommandResponse) (db : Db)
    : Type 0 where
  event : AuditEvent
  kept : find_audit key db ≡ some event
  same_run : event.workflow_run_id ≡ r.workflow_id
  campaign : Campaign
  found : get (λ c. c.id) campaign_id db.campaigns ≡ some campaign
  same_status : campaign.status ≡ r.status

Recorded-Framed :
    (key : String) (campaign_id : ℕ) (r : CampaignCommandResponse) (db db' : Db)
    → Framed db db'
    → Recorded key campaign_id r db
    → Recorded key campaign_id r db'
Recorded-Framed key campaign_id r db db' f h = record {
  event = h.event;
  kept = ap (find (key_is key)) f.audit ∙ h.kept;
  same_run = h.same_run;
  campaign = h.campaign;
  found = ap (get (λ c. c.id) campaign_id) f.campaigns ∙ h.found;
  same_status = h.same_status;
}

module _ (out : Outside) (caller : Caller) (campaign_id : ℕ) (action : Action) where
  abbrev Answered : CampaignCommandResponse × List (String × ℕ) → Db → Type 0
  Answered answer db = Recorded caller.idempotency_key campaign_id answer.0 db

  duplicate-Answered :
      (event : AuditEvent) (db : Db)
      → find_audit caller.idempotency_key db ≡ some event
      → Returns Answered (duplicate_session out caller campaign_id action event db)
  unfolding duplicate_session
  duplicate-Answered event db h = elim (Option-cases (get (λ c. c.id) campaign_id db.campaigns)) [
    | inl missing ↦ rw missing tt
    | inr (campaign, found) ↦ rw found (record {
      event = event;
      kept = h;
      same_run = refl;
      campaign = campaign;
      found = found;
      same_status = refl;
    })
  ]

  -- The state that the session commits, from the one after the loop over the types.
  recorded :
      (db : Db) (campaign : Campaign) (next : CampaignStatus) (runs : List (String × ℕ)) (db₁ : Db)
      → get (λ c. c.id) campaign_id db.campaigns ≡ some campaign
      → Framed (set_status out caller campaign_id action next db) db₁
      → find_audit caller.idempotency_key db ≡ none
      → Recorded caller.idempotency_key campaign_id
          (record {
            campaign_id = campaign_id;
            workflow_id = first_run runs;
            status = next;
            action = action;
          })
          (insert_audit (command_event out caller campaign_id action next (first_run runs)) db₁)
  unfolding set_status command_event
  recorded db campaign next runs db₁ found f h = record {
    event = command_event out caller campaign_id action next (first_run runs);
    kept =
        find-append_none (key_is caller.idempotency_key) db₁.audit _
          (ap (find (key_is caller.idempotency_key)) f.audit ∙ h)
        ∙ rw (str_eq_refl caller.idempotency_key);
    same_run = refl;
    campaign = record campaign { status = next; last_error = none };
    found =
        ap (get (λ c. c.id) campaign_id) f.campaigns
        ∙ get-modify (λ c. c.id) campaign_id campaign_id
            (λ c. record c { status = next; last_error = none }) db.campaigns (λ c. refl)
        ∙ rw (==_refl campaign_id, found);
    same_status = refl;
  }

  fresh-Answered :
      (db : Db)
      → find_audit caller.idempotency_key db ≡ none
      → Returns Answered (fresh_session out caller campaign_id action db)
  unfolding fresh_session set_status command_event
  fresh-Answered db h = elim (Option-cases (get (λ c. c.id) campaign_id db.campaigns)) [
    | inl missing ↦ rw missing tt
    | inr (campaign, found) ↦
        rw found elim (Result-cases (campaign_transition campaign.status action)) [
          | inr (e, refused) ↦ rw refused tt
          | inl (next, allowed) ↦ rw allowed (
              Returns->>= (λ _. Framed (set_status out caller campaign_id action next db)) Answered
                (visit_types out caller campaign_id action 0 (workflow_types campaign)
                  (set_status out caller campaign_id action next db))
                _ (visit_types-Framed out caller campaign_id action 0 (workflow_types campaign) _)
                (λ runs db₁ f. recorded db campaign next runs db₁ found f h))
        ]
  ]

  session-Answered : (db : Db) → Returns Answered (command_session out caller campaign_id action db)
  unfolding command_session
  session-Answered db = elim (Option-cases (find_audit caller.idempotency_key db)) [
    | inl unused ↦ rw (unused, command_session) (fresh-Answered db unused)
    | inr (event, used) ↦ rw (used, command_session) (duplicate-Answered event db used)
  ]

  answer_ok :
      (response r : CampaignCommandResponse) (a : Result Error (Unit {0}) × Db) (db' : Db)
      → answer response a ≡ (ok r, db')
      → (response ≡ r) × (a.1 ≡ db')
  answer_ok response r (ok _, db) db' e = ground arith
  answer_ok response r (err _, db) db' e = cc

  command-Recorded :
      (db : Db) (r : CampaignCommandResponse) (db' : Db)
      → execute_campaign_command out caller campaign_id action db ≡ (ok r, db')
      → Recorded caller.idempotency_key campaign_id r db'
  unfolding execute_campaign_command
  command-Recorded db r db' e =
      elim (Result-cases (command_session out caller campaign_id action db)) [
        | inr (error, raised) ↦
            let refused = rw (raised, execute_campaign_command) at e in cc refused
        | inl (((response, runs), db₁), returned) ↦
            let (same, last) =
              answer_ok response r (dispatch out runs db₁) db'
                (rw (returned, execute_campaign_command) at e) in
            rw (← same, ← last)
              (Recorded-Framed caller.idempotency_key campaign_id response db₁ _
                (dispatch-Framed out runs db₁)
                (Returns_ok Answered _ (response, runs) db₁ returned (session-Answered db)))
      ]

-- After an answered campaign command the campaign has the status that the answer says. When any campaign commands
-- follow and then the same key comes again for the campaign, for whatever action, clock and caller, the answer is the
-- first one's run with the status that the campaign has by then, which moves of operators lead to, and nothing changes.
pub execute_campaign_command-replay :
    (out out' : Outside) (caller caller' : Caller) (campaign_id : ℕ) (action action' : Action)
    (db db' : Db) (r : CampaignCommandResponse) (history : List Command)
    → caller'.idempotency_key ≡ caller.idempotency_key
    → execute_campaign_command out caller campaign_id action db ≡ (ok r, db')
    → let later = run_commands history db' in
      (status_of campaign_id db' ≡ some r.status)
      × (now : CampaignStatus) × (status_of campaign_id later ≡ some now)
      × Reach r.status now
      × (execute_campaign_command out' caller' campaign_id action' later ≡ (
        ok (record {
          campaign_id = campaign_id;
          workflow_id = r.workflow_id;
          status = now;
          action = action';
        }),
        later,
      ))
unfolding execute_campaign_command command_session duplicate_session dispatch
execute_campaign_command-replay out out' caller caller' campaign_id action action' db db' r history
      same e =
    let h = command-Recorded out caller campaign_id action db r db' e in
    let later = run_commands history db' in
    let first : status_of campaign_id db' ≡ some r.status = rw (h.found, h.same_status) refl in
    let (now, at, moved) = run_commands-Reach history campaign_id db' r.status first in
    let kept =
      ap (λ k. find_audit k later) same
      ∙ run_commands-Keeps caller.idempotency_key h.event history db' h.kept in
    elim (Option-cases (get (λ c. c.id) campaign_id later.campaigns)) [
      | inl missing ↦ let no = rw missing at at in cc
      | inr (campaign, found) ↦
          let status : campaign.status ≡ now = let it = rw found at at in cc in
          (
            first,
            now,
            at,
            moved,
            rw (kept, execute_campaign_command, command_session)
                (rw found (rw (h.same_run, status) refl)),
          )
    ]
