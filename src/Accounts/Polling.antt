-- ===== src/Accounts/Polling.antt =====
-- The polling loop of an inspection ends, and where.
use auto_bot_lbc_pj.Prelude.{
  ℕ, zero, suc, ◌+◌, ◌≤◌, ◌<◌, String, Bool, true, false, Option, none, some, ltb, ◌≡◌, refl, sym,
  ap, subst, arith, inl, inr, Bool-cases, Option-cases, Result, ok, err, commit, get,
}
use auto_bot_lbc_pj.Tables.{Db}
use auto_bot_lbc_pj.Control.Common.{Error, attribute_error, provider_failed, timed_out}
use auto_bot_lbc_pj.Accounts.Commands.{write_workflow}
use auto_bot_lbc_pj.Accounts.Inspect.{
  Cloud, CloudTask, Detail, is_final, PollEnd, finished, expired, raised, poll, with_poll,
  after_poll, after_detail, timeout_error, after_create, start_inspection, end_session,
  inspect_account,
}

-- The time that has passed at the k-th question.
abbrev pub asked_at : Cloud → ℕ → ℕ
asked_at cloud zero = 0
asked_at cloud (suc k) = asked_at cloud k + cloud.interval

-- The k-th question gets an answer that does not end the loop.
abbrev pub Open : Cloud → ℕ → Type 0
Open cloud k = (s : String) × (cloud.get_task_status k ≡ some s) × (is_final s ≡ false)

abbrev pub OpenBelow : Cloud → ℕ → Type 0
OpenBelow cloud n = (k : ℕ) → k < n → Open cloud k

OpenBelow-suc : (cloud : Cloud) (n : ℕ) → OpenBelow cloud n → Open cloud n → OpenBelow cloud (suc n)
OpenBelow-suc cloud n below here k h = elim (Bool-cases (ltb k n)) [
  | inl earlier ↦ below k (ground (arith, earlier))
  | inr last ↦ let same : k ≡ n = ground (arith, last, h) in subst (Open cloud) (sym same) here
]

-- What the loop saw when it ended: up to its last question the task was open; at that one, in time, it was final or
-- the client raised; or the time was over.
abbrev pub Seen : Cloud → PollEnd → Type 0
Seen cloud (finished n) =
    OpenBelow cloud n
    × (asked_at cloud n < cloud.timeout)
    × ((s : String) × (cloud.get_task_status n ≡ some s) × (is_final s ≡ true))
Seen cloud raised =
    (n : ℕ) × OpenBelow cloud n
    × (asked_at cloud n < cloud.timeout)
    × (cloud.get_task_status n ≡ none)
Seen cloud expired = (n : ℕ) × OpenBelow cloud n × (cloud.timeout ≤ asked_at cloud n)

-- With a positive interval, as much fuel as there are seconds left and one more brings the loop to its end.
pub poll-Seen :
    (cloud : Cloud) (fuel n : ℕ)
    → 1 ≤ cloud.interval
    → cloud.timeout ≤ fuel + asked_at cloud n
    → OpenBelow cloud n
    → (e : PollEnd) × (poll cloud (suc fuel) (asked_at cloud n) n ≡ some e) × Seen cloud e
unfolding poll
poll-Seen cloud zero n positive enough below =
    let late : ltb (asked_at cloud n) cloud.timeout ≡ false = ground (arith, enough) in
    (expired, rw late refl, (n, below, omega (arith, enough)))
poll-Seen cloud (suc fuel) n positive enough below =
    elim (Bool-cases (ltb (asked_at cloud n) cloud.timeout)) [
      | inr late ↦ (expired, rw (late) refl, (n, below, ground (arith, late)))
      | inl early ↦
          let in_time : asked_at cloud n < cloud.timeout = ground (arith, early) in
          elim (Option-cases (cloud.get_task_status n)) [
            | inl broke ↦ (raised, rw (early, broke) refl, (n, below, in_time, broke))
            | inr (s, told) ↦ elim (Bool-cases (is_final s)) [
              | inl final ↦
                  (finished n, rw (early, told, final) refl, (below, in_time, (s, told, final)))
              | inr not_yet ↦
                  let (e, ends, seen) =
                    poll-Seen cloud fuel (suc n) positive (omega (arith, enough, positive))
                      (OpenBelow-suc cloud n below (s, told, not_yet)) in
                  (e, rw (early, told, not_yet) ends, seen)
            ]
          ]
    ]

-- The end of an inspection: the detail of a task that was seen final in time; a timeout after the questions that were
-- asked in time; or an exception of the client, or of a row that is not there.
pub data Justified (cloud : Cloud) : Result Error Detail → Type 0 where
  answered :
      (d : Detail) (n : ℕ)
      → Seen cloud (finished n)
      → cloud.get_task ≡ some d
      → Justified cloud (ok d)
  too_late : Seen cloud expired → Justified cloud (err timed_out)
  client_raised : Justified cloud (err provider_failed)
  row_missing : Justified cloud (err attribute_error)

module _ (cloud : Cloud) (workflow_id account_id : ℕ) where
  end_session-Justified :
      (task : CloudTask) (d : Detail) (n : ℕ) (db : Db)
      → Seen cloud (finished n)
      → cloud.get_task ≡ some d
      → Justified cloud (commit db (end_session cloud workflow_id account_id task d db)).0
  end_session-Justified task d n db seen told =
      elim (Option-cases (get (λ w. w.id) workflow_id db.workflows)) [
        | inl gone ↦ rw gone row_missing
        | inr (w, there) ↦ elim (Option-cases (get (λ a. a.id) account_id db.accounts)) [
          | inl gone ↦ rw (there, gone) row_missing
          | inr (a, here) ↦ rw (there, here) (answered d n seen told)
        ]
      ]

  after_detail-Justified :
      (task : CloudTask) (o : Option Detail) (n : ℕ) (db : Db)
      → Seen cloud (finished n)
      → cloud.get_task ≡ o
      → Justified cloud (after_detail cloud workflow_id account_id task o db).0
  after_detail-Justified task none n db seen told = client_raised
  after_detail-Justified task (some d) n db seen told = end_session-Justified task d n db seen told

  timeout_error-Justified :
      (stopped : Bool)
      → Seen cloud expired
      → Justified cloud (err (timeout_error cloud workflow_id account_id stopped))
  timeout_error-Justified true seen = too_late seen
  timeout_error-Justified false seen = client_raised

  after_poll-Justified :
      (task : CloudTask) (e : PollEnd) (db : Db)
      → Seen cloud e
      → Justified cloud (after_poll cloud workflow_id account_id task e db).0
  after_poll-Justified task (finished n) db seen =
      after_detail-Justified task cloud.get_task n db seen refl
  after_poll-Justified task raised db seen = client_raised
  after_poll-Justified task expired db seen = timeout_error-Justified cloud.stop_task seen

  -- What an inspection with a positive interval and enough fuel gives.
  abbrev Ends : Option (Result Error Detail × Db) → Type 0
  Ends o = (r : Result Error Detail × Db) × (o ≡ some r) × Justified cloud r.0

  after_create-Ends :
      (fuel : ℕ) (made : Option CloudTask) (db : Db)
      → 1 ≤ cloud.interval
      → cloud.timeout ≤ fuel
      → Ends (after_create cloud workflow_id account_id (suc fuel) made db)
  after_create-Ends fuel none db positive enough = ((err provider_failed, db), refl, client_raised)
  after_create-Ends fuel (some task) db positive enough =
      let (e, ends, seen) =
        poll-Seen cloud fuel 0 positive (omega (arith, enough))
          (λ k below. let no : ⊥ = omega (arith, below) in elim no [ ]) in
      (
        after_poll cloud workflow_id account_id task e db,
        ap (λ o. with_poll cloud workflow_id account_id task o db) ends,
        after_poll-Justified task e db seen,
      )

  -- An inspection whose poll interval is positive ends, whatever the client answers: with fuel for one question more
  -- than the timeout has seconds there is a result, which is the detail of a task that was seen final before the
  -- timeout, or the timeout after questions none of which was answered finally, or an exception of the client or
  -- of a row that is not there.
  pub inspect_account-Justified :
      (fuel : ℕ) (db : Db)
      → 1 ≤ cloud.interval
      → cloud.timeout ≤ fuel
      → (r : Result Error Detail × Db) × (inspect_account cloud workflow_id account_id (suc fuel) db
          ≡ some r)
        × Justified cloud r.0
  unfolding inspect_account
  inspect_account-Justified fuel db positive enough =
      elim (Option-cases (get (λ w. w.id) workflow_id db.workflows)) [
        | inl gone ↦ ((err attribute_error, db), rw gone refl, row_missing)
        | inr (w, there) ↦ rw there (
            after_create-Ends fuel cloud.create_task
              (write_workflow workflow_id (start_inspection cloud.started) db) positive enough)
      ]
