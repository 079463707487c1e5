-- ===== src/Accounts/Overdue.antt =====
-- Which runs of account creations a reconciliation gives up, and what it leaves of a list of runs, said without its
-- code (`reconcile_account_creation_workflows` of app/services/account_creation_workflow.py).
use text.Mathlib.Text.{◌==◌ as str_eq}
use auto_bot_lbc_pj.Prelude.{
  ℕ, suc, ◌+◌, ◌*◌, ◌≤◌, Bool, true, not, ◌&&◌, if◌then◌else◌, ltb, List, [], ◌∷◌, Option, none,
  some, ◌≡◌, refl, arith, inl, inr, Bool-cases, Option-cases, str_eq_iff,
}
use auto_bot_lbc_pj.Models.{WorkflowStatus}
use auto_bot_lbc_pj.Tables.{WorkflowRun}
use auto_bot_lbc_pj.Accounts.Creation.{is_stale, is_waiting, was_pending, reference_time}

-- A status and a starting time that are given up: pending for at least `p` minutes or running for at least `r`.
pub data WaitsTooLong (now p r t : ℕ) : WorkflowStatus → Type 0 where
  pending_for : t + 60 * p ≤ now → WaitsTooLong now p r t WorkflowStatus.pending
  running_for : t + 60 * r ≤ now → WaitsTooLong now p r t WorkflowStatus.running

abbrev pub begins : (created_at : ℕ) → (started_at : Option ℕ) → ℕ
begins created_at none = created_at
begins created_at (some t) = t

-- A creation that waits too long since its start, or since its row was created if it has not started.
abbrev pub IsOverdue : (now p r : ℕ) → WorkflowRun → Type 0
IsOverdue now p r w =
    (w.workflow_type ≡ "account.create")
    × WaitsTooLong now p r (begins w.created_at w.started_at) w.status

waits : (now p r t : ℕ) → WorkflowStatus → Bool
waits now p r t s = is_waiting s && not (ltb now (t + 60 * (if was_pending s then p else r)))

waits-WaitsTooLong :
    (now p r t : ℕ) (s : WorkflowStatus) → waits now p r t s ≡ true → WaitsTooLong now p r t s
unfolding waits
waits-WaitsTooLong now p r t WorkflowStatus.pending h = pending_for (ground arith)
waits-WaitsTooLong now p r t WorkflowStatus.running h = running_for (ground arith)
waits-WaitsTooLong now p r t _ h = cc

WaitsTooLong-waits :
    (now p r t : ℕ) (s : WorkflowStatus) → WaitsTooLong now p r t s → waits now p r t s ≡ true
unfolding waits
WaitsTooLong-waits now p r t s (pending_for h) = ground arith
WaitsTooLong-waits now p r t s (running_for h) = ground arith

begins-reference_time : (w : WorkflowRun) → reference_time w ≡ begins w.created_at w.started_at
begins-reference_time w = elim (Option-cases w.started_at) [
  | inl fresh ↦ rw fresh refl
  | inr (t, started) ↦ rw started refl
]

pub is_stale-IsOverdue :
    (now p r : ℕ) (w : WorkflowRun)
    → ((is_stale now p r w ≡ true) → IsOverdue now p r w)
      × (IsOverdue now p r w → is_stale now p r w ≡ true)
unfolding waits
is_stale-IsOverdue now p r w =
    let t = begins w.created_at w.started_at in
    let type = str_eq_iff w.workflow_type "account.create" in
    let to = waits-WaitsTooLong now p r t w.status in
    let from = WaitsTooLong-waits now p r t w.status in
    rw (begins-reference_time w) elim (Bool-cases (str_eq w.workflow_type "account.create")) [
      | inl same ↦ rw same (λ h. (type.0 same, to h), λ h. from h.1)
      | inr other ↦ rw other (λ h. cc, λ h. let no = type.1 h.0 in cc)
    ]

module _ (now p r : ℕ) where
  -- The run as failed, with the reason and the time.
  pub record TimedOut (w v : WorkflowRun) : Type 0 where
    pub id : v.id ≡ w.id
    pub type : v.workflow_type ≡ w.workflow_type
    pub key : v.idempotency_key ≡ w.idempotency_key
    pub status : v.status ≡ WorkflowStatus.failed
    pub code : v.last_error_code ≡ some "WORKER_TIMEOUT"
    pub finished : v.finished_at ≡ some now

  -- A reconciliation from one list of runs to another that fails `n` of them: the overdue ones, and no other.
  pub data Reconciles : ℕ → List WorkflowRun → List WorkflowRun → Type 0 where
    no_more : Reconciles 0 [] []
    failed :
        (n : ℕ) (w v : WorkflowRun) (ws vs : List WorkflowRun)
        → IsOverdue now p r w
        → TimedOut w v
        → Reconciles n ws vs
        → Reconciles (suc n) (w ∷ ws) (v ∷ vs)
    stays :
        (n : ℕ) (w : WorkflowRun) (ws vs : List WorkflowRun)
        → ¬ IsOverdue now p r w
        → Reconciles n ws vs
        → Reconciles n (w ∷ ws) (w ∷ vs)
