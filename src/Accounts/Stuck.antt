-- ===== src/Accounts/Stuck.antt =====
-- Which runs the reconciliation fails, and the inspections that it leaves running.
use text.Mathlib.Text.{◌==◌ as str_eq}
use auto_bot_lbc_pj.Prelude.{
  ℕ, String, false, List, [], ◌∷◌, Option, none, some, ◌==◌, ◌≡◌, refl, sym, ap, ◌∙◌, subst, arith,
  inl, inr, Bool-cases, Result, ok, err, commit, get, get-modify, ==_refl, All,
}
use auto_bot_lbc_pj.Models.{WorkflowStatus}
use auto_bot_lbc_pj.Tables.{WorkflowRun, Db}
use auto_bot_lbc_pj.Control.Common.{Error}
use auto_bot_lbc_pj.Accounts.Commands.{write_workflow}
use auto_bot_lbc_pj.Accounts.Creation.{
  is_stale, time_out, reconcile_creations, reconcile_account_creation_workflows,
}
use auto_bot_lbc_pj.Accounts.Overdue.{Reconciles, no_more, failed, stays, is_stale-IsOverdue}
use auto_bot_lbc_pj.Accounts.Inspect.{
  Cloud, CloudTask, Detail, PollEnd, finished, expired, raised, poll, with_poll, after_detail,
  after_create, end_session, start_inspection, inspect_account,
}

module _ (show : ℕ → String) (now p r : ℕ) where
  timed_out_runs : (w : WorkflowRun) → is_stale now p r (time_out show now p r w) ≡ false
  timed_out_runs w = ground arith

  reconcile_creations-stale :
      (ws : List WorkflowRun)
      → All (λ w. is_stale now p r w ≡ false) (reconcile_creations show now p r ws).1
  unfolding reconcile_creations
  reconcile_creations-stale [] = tt
  reconcile_creations-stale (w ∷ ws) =
      let fresh = reconcile_creations-stale ws in
      elim (Bool-cases (is_stale now p r w)) [
        | inl stale ↦ rw stale (timed_out_runs w, fresh)
        | inr live ↦ rw live (live, fresh)
      ]

  reconcile_creations-Reconciles :
      (ws : List WorkflowRun)
      → let (n, after) = reconcile_creations show now p r ws in Reconciles now p r n ws after
  unfolding reconcile_creations
  reconcile_creations-Reconciles [] = no_more
  reconcile_creations-Reconciles (w ∷ ws) =
      let (n, after) = reconcile_creations show now p r ws in
      let rest = reconcile_creations-Reconciles ws in
      let (overdue, stale_if) = is_stale-IsOverdue now p r w in
      elim (Bool-cases (is_stale now p r w)) [
        | inl stale ↦ rw stale (
            failed n w (time_out show now p r w) ws after (overdue stale)
              (record {
                id = refl;
                type = refl;
                key = refl;
                status = refl;
                code = refl;
                finished = refl;
              })
              rest)
        | inr live ↦ rw live (stays n w ws after (λ h. let no = stale_if h in cc) rest)
      ]

  reconcile_creations-live :
      (ws : List WorkflowRun)
      → All (λ w. is_stale now p r w ≡ false) ws
      → reconcile_creations show now p r ws ≡ (0, ws)
  unfolding reconcile_creations
  reconcile_creations-live [] live = refl
  reconcile_creations-live (w ∷ ws) live =
      let rest = reconcile_creations-live ws live.1 in rw (live.0, rest) refl

  -- A reconciliation sets FAILED, with the code WORKER_TIMEOUT and the time, exactly the runs of account creations that
  -- have been pending or running for at least the minutes allowed, leaves every other run as it is, and answers how
  -- many it failed; a second one at that time fails none and changes nothing.
  pub reconcile_account_creation_workflows-twice :
      (db : Db)
      → let (n, db') = reconcile_account_creation_workflows show now p r db in
        Reconciles now p r n db.workflows db'.workflows
        × (reconcile_account_creation_workflows show now p r db' ≡ (0, db'))
  unfolding reconcile_account_creation_workflows
  reconcile_account_creation_workflows-twice db =
      let fresh = reconcile_creations-stale db.workflows in
      let again =
        reconcile_creations-live (reconcile_creations show now p r db.workflows).1 fresh in
      let back : ℕ × List WorkflowRun → ℕ × Db = λ o. (o.0, record db { workflows = o.1 }) in
      (reconcile_creations-Reconciles db.workflows, ap back again)

  -- A run that is not out of time stays as it is.
  get-reconcile_creations :
      (j : ℕ) (ws : List WorkflowRun) (w : WorkflowRun)
      → get (λ w. w.id) j ws ≡ some w
      → is_stale now p r w ≡ false
      → get (λ w. w.id) j (reconcile_creations show now p r ws).1 ≡ some w
  unfolding reconcile_creations
  get-reconcile_creations j [] w there live = there
  get-reconcile_creations j (v ∷ vs) w there live = elim (Bool-cases (v.id == j)) [
    | inl this ↦
        let found = rw this at there in
        let same : v ≡ w = cc in
        let live_too = subst (λ x. is_stale now p r x ≡ false) (sym same) live in
        rw (live_too, this) found
    | inr other ↦
        let later = get-reconcile_creations j vs w (rw other at there) live in
        elim (Bool-cases (is_stale now p r v)) [
          | inl stale ↦ rw (stale, other) later
          | inr fresh ↦ rw (fresh, other) later
        ]
  ]

-- The errors of an inspection leave the tables as the first session wrote them.
module _ (cloud : Cloud) (workflow_id account_id : ℕ) where
  commit_err :
      {A : Type 0} (db : Db) (m : Result Error (A × Db)) (e : Error)
      → (commit db m).0 ≡ err e
      → (commit db m).1 ≡ db
  commit_err db (ok (a, s)) e h = cc
  commit_err db (err e') e h = refl

  after_detail_err :
      (task : CloudTask) (o : Option Detail) (db : Db) (e : Error)
      → (after_detail cloud workflow_id account_id task o db).0 ≡ err e
      → (after_detail cloud workflow_id account_id task o db).1 ≡ db
  after_detail_err task none db e h = refl
  after_detail_err task (some d) db e h =
      commit_err db (end_session cloud workflow_id account_id task d db) e h

  after_poll_err :
      (task : CloudTask) (o : Option PollEnd) (db db' : Db) (e : Error)
      → with_poll cloud workflow_id account_id task o db ≡ some (err e, db')
      → db' ≡ db
  after_poll_err task none db db' e h = cc
  after_poll_err task (some (finished n)) db db' e h =
      let out = after_detail cloud workflow_id account_id task cloud.get_task db in
      let same : out ≡ (err e, db') = cc in
      sym (ap (λ o. o.1) same) ∙ after_detail_err task cloud.get_task db e (ap (λ o. o.0) same)
  after_poll_err task (some raised) db db' e h = cc
  after_poll_err task (some expired) db db' e h = cc

  after_create_err :
      (fuel : ℕ) (made : Option CloudTask) (db db' : Db) (e : Error)
      → after_create cloud workflow_id account_id fuel made db ≡ some (err e, db')
      → db' ≡ db
  after_create_err fuel none db db' e h = cc
  after_create_err fuel (some task) db db' e h =
      after_poll_err task (poll cloud fuel 0 0) db db' e h

  -- When an inspection of a run that is there raises, for whatever reason and also at the timeout, the run stays
  -- RUNNING, and since it is not of the type account.create no reconciliation, however late, ends it.
  pub inspect_account-stuck :
      (show : ℕ → String) (fuel now p r : ℕ) (db db' : Db) (run : WorkflowRun) (e : Error)
      → get (λ w. w.id) workflow_id db.workflows ≡ some run
      → str_eq run.workflow_type "account.create" ≡ false
      → inspect_account cloud workflow_id account_id fuel db ≡ some (err e, db')
      → let (_, db'') = reconcile_account_creation_workflows show now p r db' in
        (left : WorkflowRun) × (get (λ w. w.id) workflow_id db''.workflows ≡ some left)
        × (left.status ≡ WorkflowStatus.running)
  unfolding inspect_account reconcile_account_creation_workflows
  inspect_account-stuck show fuel now p r db db' run e there kind ends =
      let left = start_inspection cloud.started run in
      let begun = write_workflow workflow_id (start_inspection cloud.started) db in
      let same : db' ≡ begun =
        after_create_err fuel cloud.create_task begun db' e (rw there at ends) in
      let row : get (λ w. w.id) workflow_id begun.workflows ≡ some left =
        get-modify (λ w. w.id) workflow_id workflow_id (start_inspection cloud.started) db.workflows
          (λ w. refl)
        ∙ (rw (==_refl workflow_id, there) refl) in
      let lives : is_stale now p r left ≡ false = rw kind refl in
      (
        left,
        get-reconcile_creations show now p r workflow_id db'.workflows left
            (ap (λ (d : Db). get (λ w. w.id) workflow_id d.workflows) same ∙ row) lives,
        refl,
      )
