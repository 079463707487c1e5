-- ===== src/Apify/Failure.antt =====
-- app/services/apify_runs.py: `launch_binding` when Apify does not start the run.
use auto_bot_lbc_pj.Prelude.{
  ℕ, ◌+◌, String, Bool, not, List, Option, some, ◌==◌, ==→eq, ==_refl, if◌then◌else◌, get, get_id,
  modify, modify-modify, get-modify, length, length-append, ok, err, or_raise, Returns,
  Returns->>=_pure, Returns_ok, ◌≡◌, refl, sym, subst, ap, ◌∙◌, inl, inr, Bool-cases, Option-cases,
}
use auto_bot_lbc_pj.Apify.Rows.{ApifyActorBinding, Store}
use auto_bot_lbc_pj.Apify.Runs.{
  account_not_active, secret_not_decrypted, invalid_input, start_failed, binding_not_runnable,
  binding_not_found_or_locked,
}
use auto_bot_lbc_pj.Apify.Launch.{
  Apify, Started, guard, prepared, next_time, input_or_empty, set_next_run, write_binding,
  prepare_launch, undo_launch, launch_audit, start_launch, launch_binding,
}

-- The binding that a launch has read, and the one thing that its first session writes.
abbrev pub Prepared : ℕ → Store → Started → Store → Type 0
Prepared id s started s' =
    (get (λ b. b.id) id s.bindings ≡ some started.binding)
    × ((t : Option ℕ) × (s' ≡ write_binding started.binding.id t s))

pub prepare_launch-Prepared :
    (apify : Apify) (locked : Bool) (id : ℕ) (s : Store)
    → Returns (Prepared id s) (prepare_launch apify locked id s)
unfolding prepare_launch
prepare_launch-Prepared apify locked id s =
    Returns->>=_pure (Prepared id s) (guard (not locked) binding_not_found_or_locked) _ λ free.
      elim (Option-cases (get (λ b. b.id) id s.bindings)) [
        | inl gone ↦ rw gone tt
        | inr (b, there) ↦ rw there (
            Returns->>=_pure (Prepared id s) (guard _ binding_not_runnable) _ λ runnable.
              Returns->>=_pure (Prepared id s)
                (or_raise (get (λ a. a.id) b.account_id s.accounts) account_not_active) _
                λ account. Returns->>=_pure (Prepared id s) (guard _ account_not_active) _ λ active.
                  Returns->>=_pure (Prepared id s)
                    (or_raise (apify.decrypt account.token_ciphertext) secret_not_decrypted) _
                    λ token.
                      Returns->>=_pure (Prepared id s)
                        (or_raise (apify.decrypt b.input_ciphertext) secret_not_decrypted) _
                        λ input.
                          Returns->>=_pure (Prepared id s) (guard _ invalid_input)
                            (λ json. ok (prepared apify b account token (input_or_empty input) s))
                            λ json. (there, (next_time apify b, refl)))
      ]

-- Writing a time and then the old one back leaves the binding as it was.
restored :
    (id j : ℕ) (t : Option ℕ) (b : ApifyActorBinding) (bs : List ApifyActorBinding)
    → get (λ b. b.id) id bs ≡ some b
    → get
        (λ b. b.id)
        j
        (modify
          (λ b. b.id)
          id
          (set_next_run b.next_run_at)
          (modify (λ b. b.id) id (set_next_run t) bs))
      ≡ get (λ b. b.id) j bs
restored id j t b bs there =
    ap (get (λ b. b.id) j)
      (modify-modify (λ b. b.id) id (set_next_run b.next_run_at) (set_next_run t) bs (λ c. refl))
    ∙ get-modify (λ b. b.id) id j (set_next_run b.next_run_at) bs (λ c. refl)
    ∙ elim (Bool-cases (id == j)) [
      | inr other ↦ rw (other, if◌then◌else◌)
      | inl same ↦
          let here : get (λ b. b.id) j bs ≡ some b =
            subst (λ (k : ℕ). get (λ b. b.id) k bs ≡ some b) (==→eq id j same) there in
          rw (same, here, if◌then◌else◌)
    ]

-- What is left after the second session of a launch that failed.
abbrev pub Undone : Store → Store → Type 0
Undone s after =
    ((j : ℕ) → get (λ b. b.id) j after.bindings ≡ get (λ b. b.id) j s.bindings)
    × (after.runs ≡ s.runs)
    × (length after.db.audit ≡ length s.db.audit + 1)

pub undo_launch-Undone :
    (apify : Apify) (id : ℕ) (trigger error : String) (t : Option ℕ) (b : ApifyActorBinding)
    (s : Store)
    → get (λ b. b.id) id s.bindings ≡ some b
    → Undone s (undo_launch apify id trigger error b.next_run_at (write_binding id t s))
unfolding undo_launch launch_audit
undo_launch-Undone apify id trigger error t b s there =
    let still : get (λ b. b.id) id (write_binding id t s).bindings ≡ some (set_next_run t b) =
      get-modify (λ b. b.id) id id (set_next_run t) s.bindings (λ c. refl)
      ∙ rw (==_refl id, there, if◌then◌else◌) in
    rw (still, undo_launch)
      (λ j. restored id j t b s.bindings there, refl, length-append s.db.audit _)

-- If the start of a run raises, the launch raises too and leaves every binding and every run as it was, the next
-- time of the binding included; one line of audit is new.
pub launch_binding-Undone :
    (apify : Apify) (locked : Bool) (id : ℕ) (trigger error : String) (s s1 : Store)
    (started : Started)
    → prepare_launch apify locked id s ≡ ok (started, s1)
    → apify.start started.token started.binding.resource_type started.binding.resource_id
        started.input
      ≡ err error
    → let after = launch_binding apify locked id trigger s in
      (after.0 ≡ err start_failed) × Undone s after.1
unfolding launch_binding start_launch
launch_binding-Undone apify locked id trigger error s s1 started good failed =
    let (there, (t, written)) =
      Returns_ok (Prepared id s) (prepare_launch apify locked id s) started s1 good
        (prepare_launch-Prepared apify locked id s) in
    let is = get_id (λ b. b.id) id s.bindings started.binding there in
    let s1' = written ∙ ap (λ (k : ℕ). write_binding k t s) is in
    rw (good, launch_binding, failed, start_launch)
      (
        refl,
        subst
            (λ (x : Store).
              Undone s (undo_launch apify id trigger error started.binding.next_run_at x))
            (sym s1') (undo_launch-Undone apify id trigger error t started.binding s there),
      )
