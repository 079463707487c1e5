-- ===== src/Locks/Samples.antt =====
-- Two owners at one SIM, and the theorem at them.
use auto_bot_lbc_pj.Prelude.{true, false, List, [], ◌∷◌, none, some, ◌≡◌, refl, arith}
use auto_bot_lbc_pj.Locks.{Resource, account, sim, claim_resource, release_resource}
use auto_bot_lbc_pj.Locks.Exclusion.{
  Call, claim, release, answer_call, answer_all, claim_resource-exclusive,
}

abbrev rows : List Resource
rows =
    record { kind = sim; id = 1; locked_until = some 90; locked_by = some "old" }
    ∷ record { kind = account; id = 1; locked_until = none; locked_by = none }
    ∷ []

abbrev calls : List Call
calls = claim sim 1 "bob" 300 150 ∷ release sim 1 "bob" ∷ claim account 1 "bob" 60 170 ∷ []

program : Unit {0}
unfolding claim_resource release_resource answer_call answer_all
program = tt

-- Once the claim has run out, the other owner gets the SIM.
runs_out : (claim_resource sim 1 "bob" 300 401 (claim_resource sim 1 "ann" 300 100 rows).1).0 ≡ true
unfolding program
runs_out = refl

ann_gets_it : (claim_resource sim 1 "ann" 300 100 rows).0 ≡ true
unfolding program
ann_gets_it = refl

claim_resource-exclusive_example :
    (claim_resource sim 1 "bob" 300 400
      (answer_all calls (claim_resource sim 1 "ann" 300 100 rows).1)).0
    ≡ false
claim_resource-exclusive_example =
    claim_resource-exclusive sim 1 "ann" "bob" 300 100 400 300 calls rows (omega arith) ann_gets_it
      ((refl, omega arith), (refl, ((refl, omega arith), tt))) refl (omega arith)
