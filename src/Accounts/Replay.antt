-- ===== src/Accounts/Replay.antt =====
-- An account command that comes again under its key.
use text.Mathlib.Text.{◌==◌ as str_eq}
use Prim.Native.String.{◌++◌ as text_append}
use auto_bot_lbc_pj.Prelude.{
  ℕ, String, true, List, [], ◌∷◌, ◌++◌, Option, none, some, if◌then◌else◌, if_both, ◌≡◌, refl, ap,
  ◌∙◌, inl, inr, Bool-cases, Option-cases, Result-cases, Result, ok, err, commit, get, find,
  str_eq_refl, Returns, Returns->>=, Returns_ok, any, sym, find-append_old,
}
use auto_bot_lbc_pj.Models.{WorkflowStatus}
use auto_bot_lbc_pj.Tables.{AuditEvent, WorkflowRun, PlatformAccount, Db}
use auto_bot_lbc_pj.Control.Common.{Error, Caller, key_is, find_audit, insert_run}
use auto_bot_lbc_pj.Accounts.Commands.{
  Outside, inspect_account_task, check_account_pool_task, AccountAction, account_action_text,
  account_event, AccountCommandResponse, account_transition, apply_transition, account_session,
  account_tasks, answer_tasks, after_session, with_profile, duplicate_response,
  execute_account_command, is_inspect, is_warm, lower_status, new_workflow,
}

find-snoc :
    (key : String) (es : List AuditEvent) (e : AuditEvent)
    → find (key_is key) es ≡ none
    → key_is key e ≡ true
    → find (key_is key) (es ++ e ∷ []) ≡ some e
find-snoc key [] e unused keyed = rw keyed refl
find-snoc key (d ∷ es) e unused keyed = elim (Bool-cases (key_is key d)) [
  | inl used ↦ let no = rw used at unused in cc
  | inr other ↦ rw other (find-snoc key es e (rw other at unused) keyed)
]

insert_run-audit :
    (run : WorkflowRun) (db db' : Db) → insert_run run db ≡ ok db' → db'.audit ≡ db.audit
unfolding insert_run
insert_run-audit run db db' done =
    elim (Bool-cases (any (λ r. str_eq r.idempotency_key run.idempotency_key) db.workflows)) [
      | inl taken ↦ let no = rw taken at done in cc
      | inr new ↦ let it = rw new at done in cc
    ]

-- The run that a replay names, and the status of the run when its command had ended.
pub record Remembered (out : Outside) (action : AccountAction) (e : AuditEvent) : Type 0 where
  pub run : e.workflow_run_id ≡ some out.run_id
  pub status : e.result_status ≡ (if is_inspect action then "pending" else "completed")

module _ (out : Outside) (caller : Caller) (account_id : ℕ) (action : AccountAction) where
  -- The session adds its event at the end.
  abbrev Logged : Db → Db → Type 0
  Logged db db' =
      (e : AuditEvent) × (db'.audit ≡ db.audit ++ e ∷ [])
      × (key_is caller.idempotency_key e ≡ true)
      × Remembered out action e

  apply_transition-audit :
      (account : PlatformAccount) (db : Db)
      → Returns
          (λ s db'.
            (db'.audit ≡ db.audit)
            × (lower_status s ≡ (if is_inspect action then "pending" else "completed")))
          (apply_transition out caller account_id action account db)
  unfolding apply_transition
  apply_transition-audit account db = elim (Bool-cases (is_inspect action)) [
    | inl looks ↦ rw (looks, apply_transition) (refl, refl)
    | inr acts ↦ elim (Result-cases (account_transition account.status action)) [
      | inl (next, allowed) ↦ rw (acts, allowed, apply_transition) (refl, refl)
      | inr (e, refused) ↦ rw (acts, refused, apply_transition) tt
    ]
  ]

  abbrev event : String → WorkflowStatus → AuditEvent
  event name status =
      account_event out caller name "account" account_id
        (("action", account_action_text action) ∷ []) (lower_status status)

  account_session-Logged :
      (db : Db) → Returns (λ _. Logged db) (account_session out caller account_id action db)
  unfolding account_session
  account_session-Logged db = elim (Option-cases (get (λ a. a.id) account_id db.accounts)) [
    | inl missing ↦ rw missing tt
    | inr (found, there) ↦ elim (Result-cases (with_profile out caller account_id action found)) [
      | inr (e, refused) ↦ rw (there, refused) tt
      | inl (account, fine) ↦
          let name = text_append "account." (account_action_text action) in
          let run = new_workflow out caller name "account" account_id WorkflowStatus.pending in
          elim (Result-cases (insert_run run db)) [
            | inr (e, taken) ↦ rw (there, fine, taken) tt
            | inl (added, inserted) ↦
                let same = insert_run-audit run db added inserted in
                rw (there, fine, inserted)
                  (Returns->>= _ (λ _. Logged db)
                    (apply_transition out caller account_id action account added) _
                    (apply_transition-audit account added)
                    λ status db' (kept, text). (
                      event name status,
                      ap (λ l. l ++ event name status ∷ []) (kept ∙ same),
                      str_eq_refl caller.idempotency_key,
                      record { run = refl; status = text },
                    ))
          ]
    ]
  ]

  -- The tasks leave the audit as it is.
  account_tasks-audit :
      (profile : Option String) (db : Db)
      → (account_tasks out caller account_id action profile db).1.audit ≡ db.audit
  unfolding account_tasks
  account_tasks-audit profile db =
      if_both (λ (r : Result Error (Unit {0}) × Db). r.1.audit ≡ db.audit) (is_inspect action) _ _
        (elim (Option-cases (out.delay (inspect_account_task out.run_id account_id profile))) [
          | inl broken ↦ rw broken refl
          | inr (task, queued) ↦ elim (Option-cases (get (λ w. w.id) out.run_id db.workflows)) [
            | inl gone ↦ rw (queued, gone) refl
            | inr (w, there) ↦ rw (queued, there) refl
          ]
        ])
        (if_both (λ (r : Result Error (Unit {0}) × Db). r.1.audit ≡ db.audit) (is_warm action) _ _
          (elim (Option-cases (out.delay check_account_pool_task)) [
            | inl broken ↦ rw broken refl
            | inr (task, queued) ↦ rw queued refl
          ])
          refl)

  answer_tasks-db :
      (r : Result Error (Unit {0}) × Db) → (answer_tasks out caller account_id action r).1 ≡ r.1
  answer_tasks-db (err e, db) = refl
  answer_tasks-db (ok u, db) = refl

replayed :
    (out : Outside) (caller : Caller) (account_id : ℕ) (action : AccountAction) (db : Db)
    (e : AuditEvent)
    → find_audit caller.idempotency_key db ≡ some e
    → execute_account_command out caller account_id action db
      ≡ (ok (duplicate_response account_id (account_action_text action) e), db)
unfolding execute_account_command
replayed out caller account_id action db e found = rw (found, execute_account_command) refl

fresh :
    (out : Outside) (caller : Caller) (account_id : ℕ) (action : AccountAction) (db : Db)
    → find_audit caller.idempotency_key db ≡ none
    → execute_account_command out caller account_id action db
      ≡ after_session out caller account_id action
          (commit db (account_session out caller account_id action db))
unfolding execute_account_command
fresh out caller account_id action db unused = rw (unused, execute_account_command) refl

abbrev in_answer :
    {A : Type 0} → (AccountCommandResponse → A) → A → Result Error AccountCommandResponse → A
in_answer f default (ok a) = f a
in_answer f default (err e) = default

answer_tasks-ok :
    (out : Outside) (caller : Caller) (account_id : ℕ) (action : AccountAction)
    (r : Result Error (Unit {0}) × Db) (response : AccountCommandResponse)
    → (answer_tasks out caller account_id action r).0 ≡ ok response
    → (response.workflow_id ≡ some out.run_id)
      × (response.status ≡ (if is_inspect action then "queued" else "completed"))
answer_tasks-ok out caller account_id action (err e, db) response h = cc
answer_tasks-ok out caller account_id action (ok u, db) response h =
    (ap (in_answer (λ a. a.workflow_id) none) (sym h), ap (in_answer (λ a. a.status) "") (sym h))

-- A command under an unused key was answered, and the database has changed since in any way that only adds to its
-- audit events. The same key is then answered again, for whatever account and action are named, without a change and
-- with the run of the first answer. For an inspection the first answer says "queued" and the second one "pending", for
-- the other actions both say "completed".
pub execute_account_command-replay :
    (out again : Outside) (caller : Caller) (account_id other_id : ℕ)
    (action other_action : AccountAction) (db later : Db) (more : List AuditEvent)
    (response : AccountCommandResponse)
    → find_audit caller.idempotency_key db ≡ none
    → (execute_account_command out caller account_id action db).0 ≡ ok response
    → later.audit ≡ (execute_account_command out caller account_id action db).1.audit ++ more
    → (second : AccountCommandResponse) × (execute_account_command again caller other_id
          other_action later
        ≡ (ok second, later))
      × (response.workflow_id ≡ some out.run_id)
      × (second.workflow_id ≡ response.workflow_id)
      × (response.status ≡ (if is_inspect action then "queued" else "completed"))
      × (second.status ≡ (if is_inspect action then "pending" else "completed"))
execute_account_command-replay out again caller account_id other_id action other_action db later
      more response unused answered grown =
    let first = fresh out caller account_id action db unused in
    elim (Result-cases (account_session out caller account_id action db)) [
      | inr (e, raised) ↦ let no = rw (first, raised) at answered in cc
      | inl ((profile, db₁), done) ↦
          let (event, logged, keyed, remembered) =
            Returns_ok (λ _. Logged out caller account_id action db) _ _ _ done
              (account_session-Logged out caller account_id action db) in
          let tasks = account_tasks out caller account_id action profile db₁ in
          let after =
            first ∙ ap (λ m. after_session out caller account_id action (commit db m)) done in
          let kept =
            ap (λ (r : Result Error AccountCommandResponse × Db). r.1.audit) after
            ∙ ap (λ (d : Db). d.audit) (answer_tasks-db out caller account_id action tasks)
            ∙ account_tasks-audit out caller account_id action profile db₁
            ∙ logged in
          let (its_run, its_status) =
            answer_tasks-ok out caller account_id action tasks response
              (sym (ap (λ (r : Result Error AccountCommandResponse × Db). r.0) after) ∙ answered) in
          let key = caller.idempotency_key in
          (
            duplicate_response other_id (account_action_text other_action) event,
            replayed again caller other_id other_action later event (
                ap (find (key_is key)) (grown ∙ ap (λ es. es ++ more) kept)
                ∙ find-append_old (key_is key) (db.audit ++ event ∷ []) more event
                    (find-snoc key db.audit event unused keyed)),
            its_run,
            remembered.run ∙ sym its_run,
            its_status,
            remembered.status,
          )
    ]
