-- ===== src/Sms/Run/Induct.antt =====
-- The rule for the loop: what every served sequence keeps, a run keeps.
use auto_bot_lbc_pj.Prelude.{
  ℕ, List, [], ◌∷◌, Bool-cases, inl, inr, Returns, Returns->>=, commit_ind, select, take,
}
use auto_bot_lbc_pj.Tables.{SmsSequence, Db}
use auto_bot_lbc_pj.Sms.Messages.{Settings, within_window}
use auto_bot_lbc_pj.Sms.Sequences.{World, is_due}
use auto_bot_lbc_pj.Sms.Run.{visit, visit_all, run_due_sms_sequences}
use auto_bot_lbc_pj.Sms.Run.Effect.{Effect, visit-Effect}

module _ {ℓ} (settings : Settings) (world : World) (current : ℕ) (P : Db → Type ℓ)
    (keep : (db db' : Db) → Effect world current db db' → P db → P db') where
  visit_all_ind :
      (ss : List SmsSequence) (db : Db)
      → P db
      → Returns (λ _. P) (visit_all settings world current ss db)
  unfolding visit_all
  visit_all_ind [] db h = h
  visit_all_ind (s ∷ ss) db h =
      Returns->>= (λ _. Effect world current db) (λ _. P) (visit settings world current s db) _
        (visit-Effect settings world current s db)
        λ tally db₁ e₁.
          Returns->>= (λ _. P) (λ _. P) (visit_all settings world current ss db₁) _
            (visit_all_ind ss db₁ (keep db db₁ e₁ h)) (λ tallies db₂ h₂. h₂)

  pub run_ind :
      (limit : ℕ) (db : Db) → P db → P (run_due_sms_sequences settings world current limit db).1
  unfolding run_due_sms_sequences
  run_ind limit db h = elim (Bool-cases (within_window settings (world.paris_hour current))) [
    | inr closed ↦ rw closed h
    | inl open_now ↦ rw open_now (
        commit_ind P db _ h (
          Returns->>= (λ _. P) (λ _. P)
            (visit_all settings world current (take limit (select (is_due current) db.sequences))
              db)
            _ (visit_all_ind _ db h) (λ _ db' h'. h')))
  ]
