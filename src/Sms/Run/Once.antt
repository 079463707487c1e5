-- ===== src/Sms/Run/Once.antt =====
-- No step of a sequence is logged twice.
use auto_bot_lbc_pj.Prelude.{
  ℕ, ◌≤◌, false, List, [], ◌∷◌, ◌++◌, any, length, select, length-select-snoc, length-select_none,
  ◌≡◌, arith, Bool-cases, inl, inr, ◌==◌, ◌&&◌,
}
use auto_bot_lbc_pj.Tables.{sequence_key, SmsKey, SmsLog, Db}
use auto_bot_lbc_pj.Sms.Messages.{Settings}
use auto_bot_lbc_pj.Sms.Sequences.{World, key_is}
use auto_bot_lbc_pj.Sms.Run.{Step, sent_log, run_due_sms_sequences}
use auto_bot_lbc_pj.Sms.Run.Effect.{Effect, quiet, logs}
use auto_bot_lbc_pj.Sms.Run.Induct.{run_ind}

-- How many messages are logged for a step of a sequence.
abbrev pub times_logged : (sequence step : ℕ) → List SmsLog → ℕ
times_logged sequence step log = length (select (key_is (sequence_key sequence step)) log)

abbrev pub LoggedOnce : List SmsLog → Type 0
LoggedOnce log = (sequence step : ℕ) → times_logged sequence step log ≤ 1

snoc-LoggedOnce :
    (log : List SmsLog) (world : World) (p : Step) (cost : ℕ)
    → any (key_is (sequence_key p.sequence.id p.sequence.next_step)) log ≡ false
    → LoggedOnce log
    → LoggedOnce (log ++ sent_log world p cost ∷ [])
unfolding sent_log
snoc-LoggedOnce log world p cost new once sequence step =
    elim (Bool-cases (p.sequence.id == sequence && p.sequence.next_step == step)) [
      | inr differs ↦
          rw (length-select-snoc (key_is key) log (sent_log world p cost), differs)
            (omega (arith, once sequence step))
      | inl same ↦
          rw (length-select-snoc (key_is key) log (sent_log world p cost), same)
            (omega (arith, none_yet (ground arith) (ground arith)))
    ]
  where
    key : SmsKey
    key = sequence_key sequence step

    none_yet :
        p.sequence.id ≡ sequence
        → p.sequence.next_step ≡ step
        → length (select (key_is key) log) ≡ 0
    none_yet i j = length-select_none (key_is key) log (rw (i, j) at new)

Effect-LoggedOnce :
    (world : World) (current : ℕ) (db db' : Db)
    → Effect world current db db'
    → LoggedOnce db.sms_log
    → LoggedOnce db'.sms_log
Effect-LoggedOnce world current db db' (quiet seqs e) once = rw e once
Effect-LoggedOnce world current db db' (logs seqs p cost g e) once =
    rw e (snoc-LoggedOnce db.sms_log world p cost g.unlogged once)

-- If the log holds at most one message for each step of each sequence, so it does after a run, whatever the
-- provider answers and whether or not the run raises.
pub run_due_sms_sequences-once :
    (settings : Settings) (world : World) (current limit : ℕ) (db : Db)
    → LoggedOnce db.sms_log
    → LoggedOnce (run_due_sms_sequences settings world current limit db).1.sms_log
run_due_sms_sequences-once settings world current limit db once =
    run_ind settings world current (λ d. LoggedOnce d.sms_log) (Effect-LoggedOnce world current)
      limit db once
