-- ===== src/Apify/Requests.antt =====
-- app/services/apify_runs.py: one row for each remote run, whatever is asked for, and a start that fails.
use text.Mathlib.Text.{◌==◌ as str_eq}
use auto_bot_lbc_pj.Prelude.{
  ℕ, ◌≤◌, String, List, [], ◌∷◌, none, some, ◌==◌, find, get, select, length, length-select-snoc,
  length-select-find-none, length-select-update, Result, ok, err, Returns, Returns->>=, commit_ind,
  ◌>>=◌, ◌≡◌, refl, subst, arith, inl, inr, ==→eq, str_eq_iff, Bool-cases, Option-cases,
  Result-cases,
}
use auto_bot_lbc_pj.Apify.Rows.{ApifyAccount, ApifyRun, Store}
use auto_bot_lbc_pj.Apify.Runs.{
  RunError, RemoteRun, run_is, write_remote, new_remote_run, add_remote_run, binding_for_remote,
  sync_known, sync_remote_run_in_session, sync_session, sync_remote_run, run_output,
}
use auto_bot_lbc_pj.Apify.Reconcile.{
  Reconciled, and_then, credentials, queue_import, reconcile_remotes, reconcile_accounts,
  reconcile_runs,
}
use auto_bot_lbc_pj.Apify.Launch.{Apify}

-- At most one row for each run of an account.
abbrev pub UniqueRuns : Store → Type 0
UniqueRuns s =
    (account_id : ℕ) (remote_id : String) → length (select (run_is account_id remote_id) s.runs) ≤ 1

add_remote_run-UniqueRuns :
    (r : ApifyRun) (s : Store)
    → find (run_is r.account_id r.apify_run_id) s.runs ≡ none
    → UniqueRuns s
    → UniqueRuns (add_remote_run r s)
add_remote_run-UniqueRuns r s fresh u a k =
    let more = length-select-snoc (run_is a k) s.runs r in
    elim (Bool-cases (r.account_id == a)) [
      | inr other ↦ rw (more, other) (omega (arith, u a k))
      | inl same ↦ elim (Bool-cases (str_eq r.apify_run_id k)) [
        | inr another ↦ rw (more, same, another) (omega (arith, u a k))
        | inl key ↦
            let none_yet = length-select-find-none (run_is a k) s.runs (
              subst (λ (x : ℕ). find (run_is x k) s.runs ≡ none) (==→eq r.account_id a same)
                (subst (λ (x : String). find (run_is r.account_id x) s.runs ≡ none)
                  ((str_eq_iff r.apify_run_id k).0 key) fresh)) in
            rw (more, same, key, none_yet) (omega arith)
      ]
    ]

sync_known-UniqueRuns :
    (new_id : ℕ) (account : ApifyAccount) (remote : RemoteRun) (s : Store)
    → UniqueRuns s
    → Returns (λ _. UniqueRuns) (sync_known new_id account remote s)
unfolding sync_known
sync_known-UniqueRuns new_id account remote s u =
    elim (Option-cases (find (run_is account.id remote.id) s.runs)) [
      | inr (r, there) ↦
          rw (there, sync_known)
            λ a k. omega (
              arith,
              u a k,
              length-select-update (run_is a k) (λ x. x.id == r.id)
                  (λ x. write_remote remote (some x.status) x) s.runs (λ x. refl),
            )
      | inl fresh ↦ elim (Option-cases (binding_for_remote account.id remote s)) [
        | inl missing ↦ rw (fresh, missing, sync_known) tt
        | inr (b, found) ↦
            rw (fresh, found, sync_known)
              (add_remote_run-UniqueRuns
                (write_remote remote none (new_remote_run new_id account b remote.id)) s fresh u)
      ]
    ]

pub in_session-UniqueRuns :
    (new_id : ℕ) (account : ApifyAccount) (remote : RemoteRun) (s : Store)
    → UniqueRuns s
    → Returns (λ _. UniqueRuns) (sync_remote_run_in_session new_id account remote s)
unfolding sync_remote_run_in_session
in_session-UniqueRuns new_id account remote s u = elim (Bool-cases (str_eq remote.id "")) [
  | inl empty ↦ rw (empty, sync_remote_run_in_session) tt
  | inr named ↦
      rw (named, sync_remote_run_in_session) (sync_known-UniqueRuns new_id account remote s u)
]

output-UniqueRuns :
    (r : ApifyRun) (s : Store)
    → UniqueRuns s
    → Returns (λ _. UniqueRuns) (run_output r >>= λ output. ok (output, s))
output-UniqueRuns r s u = elim (Result-cases (run_output r)) [
  | inl (output, good) ↦ rw good u
  | inr (e, bad) ↦ rw bad tt
]

sync_session-UniqueRuns :
    (new_id account_id : ℕ) (remote : RemoteRun) (s : Store)
    → UniqueRuns s
    → Returns (λ _. UniqueRuns) (sync_session new_id account_id remote s)
unfolding sync_session
sync_session-UniqueRuns new_id account_id remote s u =
    elim (Option-cases (get (λ a. a.id) account_id s.accounts)) [
      | inl gone ↦ rw gone tt
      | inr (account, there) ↦ rw there (
          Returns->>= (λ _. UniqueRuns) (λ _. UniqueRuns)
            (sync_remote_run_in_session new_id account remote s) _
            (in_session-UniqueRuns new_id account remote s u) λ r s' u'. output-UniqueRuns r s' u')
    ]

pub sync_remote_run-UniqueRuns :
    (new_id account_id : ℕ) (remote : RemoteRun) (s : Store)
    → UniqueRuns s
    → UniqueRuns (sync_remote_run new_id account_id remote s).1
unfolding sync_remote_run
sync_remote_run-UniqueRuns new_id account_id remote s u =
    commit_ind UniqueRuns s (sync_session new_id account_id remote s) u
      (sync_session-UniqueRuns new_id account_id remote s u)

and_then-UniqueRuns :
    {A : Type 0} {B : Type 0} (r : Result RunError A × Store)
    (f : A → Store → Result RunError B × Store)
    → UniqueRuns r.1
    → ((a : A) (s : Store) → UniqueRuns s → UniqueRuns (f a s).1)
    → UniqueRuns (and_then r f).1
and_then-UniqueRuns (ok a, s) f u next = next a s u
and_then-UniqueRuns (err e, s) f u next = u

reconcile_remotes-UniqueRuns :
    (apify : Apify) (account_id : ℕ) (remotes : List RemoteRun) (c : Reconciled) (s : Store)
    → UniqueRuns s
    → UniqueRuns (reconcile_remotes apify account_id remotes c s).1
unfolding reconcile_remotes
reconcile_remotes-UniqueRuns apify account_id [] c s u = u
reconcile_remotes-UniqueRuns apify account_id (remote ∷ rest) c s u =
    and_then-UniqueRuns (sync_remote_run (apify.fresh_run c.runs) account_id remote s) _
      (sync_remote_run-UniqueRuns (apify.fresh_run c.runs) account_id remote s u)
      λ run s' u'.
        and_then-UniqueRuns (queue_import apify account_id c run, s')
          (reconcile_remotes apify account_id rest) u'
          (reconcile_remotes-UniqueRuns apify account_id rest)

reconcile_accounts-UniqueRuns :
    (apify : Apify) (known : List (ℕ × String)) (c : Reconciled) (s : Store)
    → UniqueRuns s
    → UniqueRuns (reconcile_accounts apify known c s).1
unfolding reconcile_accounts
reconcile_accounts-UniqueRuns apify [] c s u = u
reconcile_accounts-UniqueRuns apify ((account_id, token) ∷ rest) c s u =
    elim (Option-cases (apify.list_recent_runs token)) [
      | inl raised ↦ rw (raised, reconcile_accounts) u
      | inr (remotes, given) ↦
          rw (given, reconcile_accounts)
            (and_then-UniqueRuns (reconcile_remotes apify account_id remotes c s)
              (reconcile_accounts apify rest)
              (reconcile_remotes-UniqueRuns apify account_id remotes c s u)
              (reconcile_accounts-UniqueRuns apify rest))
    ]

pub reconcile_runs-UniqueRuns :
    (apify : Apify) (s : Store) → UniqueRuns s → UniqueRuns (reconcile_runs apify s).1
unfolding reconcile_runs
reconcile_runs-UniqueRuns apify s u =
    elim (Result-cases (credentials apify (select (λ a. str_eq a.status "active") s.accounts))) [
      | inr (e, bad) ↦ rw (bad, reconcile_runs) u
      | inl (known, good) ↦
          rw (good, reconcile_runs) (reconcile_accounts-UniqueRuns apify known _ s u)
    ]
