-- ===== src/WarmUp/Bounds.antt =====
-- Quotas and scores stay in their ranges.
use auto_bot_lbc_pj.Prelude.{
  ℕ, suc, ◌+◌, ◌≤◌, Bool, true, false, List, [], ◌∷◌, length, ◌≡◌, inl, inr, arith, All, All-select,
  All-update, if_both, find, find-All, Option-cases, ◌==◌,
}
use auto_bot_lbc_pj.Models.{AccountStatus}
use auto_bot_lbc_pj.Tables.{PlatformAccount, Db}
use auto_bot_lbc_pj.WarmUp.{
  quota_min, quota_max, Decision, keep, promote, slow, decide, move_to, apply_decision, Tally,
  count, evaluate_all, warming, evaluate_warmup_batch, health_values, set_health, is_live_account,
  update_account_health, is_warming, is_older, can_promote,
}

-- A quota from 5 to 30, a score up to 100.
abbrev pub InRange : PlatformAccount → Type 0
InRange a = (quota_min ≤ a.quota_actuel) × (a.quota_actuel ≤ quota_max) × (a.score_sante ≤ 100)

abbrev GoodQuota : Decision → Type 0
GoodQuota keep = Unit
GoodQuota (promote q) = (quota_min ≤ q) × (q ≤ quota_max)
GoodQuota (slow q) = (quota_min ≤ q) × (q ≤ quota_max)

decide-GoodQuota : (now : ℕ) (a : PlatformAccount) → InRange a → GoodQuota (decide now a)
unfolding decide
decide-GoodQuota now a h =
    if_both GoodQuota (is_older 48 now a) _ _
      (if_both GoodQuota (can_promote a) _ _ (omega (arith, h.0), omega arith)
        (if_both GoodQuota (is_older 72 now a) _ _ (omega arith, omega (arith, h.1)) tt))
      tt

apply_decision-InRange :
    (now id : ℕ) (d : Decision) (db : Db)
    → GoodQuota d
    → All InRange db.accounts
    → All InRange (apply_decision now id d db).accounts
apply_decision-InRange now id keep db good h = h
apply_decision-InRange now id (promote q) db good h =
    All-update InRange (λ a. a.id == id) (move_to AccountStatus.actif q now) db.accounts
      (λ a same in_range. (good.0, good.1, in_range.2)) h
apply_decision-InRange now id (slow q) db good h =
    All-update InRange (λ a. a.id == id) (move_to AccountStatus.ralenti q now) db.accounts
      (λ a same in_range. (good.0, good.1, in_range.2)) h

evaluate_all-InRange :
    (now : ℕ) (rows : List PlatformAccount) (t : Tally) (db : Db)
    → All InRange rows
    → All InRange db.accounts
    → All InRange (evaluate_all now rows t db).1.accounts
unfolding evaluate_all
evaluate_all-InRange now [] t db hr h = h
evaluate_all-InRange now (a ∷ rest) t db hr h =
    evaluate_all-InRange now rest (count (decide now a) t)
      (apply_decision now a.id (decide now a) db) hr.1
      (apply_decision-InRange now a.id (decide now a) db (decide-GoodQuota now a hr.0) h)

abbrev pub total : Tally → ℕ
total t = t.promoted + t.kept + t.slowed

count-total : (d : Decision) (t : Tally) → total (count d t) ≡ suc (total t)
count-total keep t = omega arith
count-total (promote q) t = omega arith
count-total (slow q) t = omega arith

evaluate_all-total :
    (now : ℕ) (rows : List PlatformAccount) (t : Tally) (db : Db)
    → total (evaluate_all now rows t db).0 ≡ total t + length rows
unfolding evaluate_all
evaluate_all-total now [] t db = omega arith
evaluate_all-total now (a ∷ rest) t db = omega (
  arith,
  count-total (decide now a) t,
  evaluate_all-total now rest (count (decide now a) t) (apply_decision now a.id (decide now a) db),
)

health_score_le :
    (success : Bool) (a : PlatformAccount) → InRange a → (health_values success a).0.0 ≤ 100
unfolding health_values
health_score_le true a h = omega arith
health_score_le false a h = omega (arith, h.2)

-- If every account has a quota from 5 to 30 and a score up to 100, it has so after an evaluation of the
-- accounts in warm-up, whose counts add up to their number, and after an action on any account.
pub evaluate_warmup_batch-InRange :
    (now id : ℕ) (success : Bool) (db : Db)
    → All InRange db.accounts
    → All InRange (evaluate_warmup_batch now db).1.accounts
      × (total (evaluate_warmup_batch now db).0 ≡ length (warming db))
      × All InRange (update_account_health now id success db).accounts
unfolding evaluate_warmup_batch update_account_health
evaluate_warmup_batch-InRange now id success db h = (
  evaluate_all-InRange now (warming db) _ db (All-select InRange is_warming db.accounts h) h,
  omega (
    arith,
    evaluate_all-total now (warming db) (record { promoted = 0; kept = 0; slowed = 0 }) db,
  ),
  elim (Option-cases (find (is_live_account id) db.accounts)) [
    | inl missing ↦ rw (missing, update_account_health) h
    | inr (a, there) ↦
        let score =
          health_score_le success a (find-All InRange (is_live_account id) db.accounts a h there) in
        rw (there, update_account_health)
          (All-update InRange (λ b. b.id == id) (set_health (health_values success a) now)
            db.accounts (λ b same in_range. (in_range.0, in_range.1, score)) h)
  ],
)
