-- ===== src/Sms/Blacklist.antt =====
-- app/services/blacklist.py.
use text.Mathlib.Text.{◌==◌ as str_eq}
use auto_bot_lbc_pj.Prelude.{
  ℕ, String, Bool, true, false, ◌||◌, List, [], ◌∷◌, ◌++◌, any, length, Bool-cases, inl, inr, ◌⊎◌,
  str_eq_iff, if◌then◌else◌, ◌≡◌, refl, arith,
}
use auto_bot_lbc_pj.Tables.{Db}

-- `select(Blacklist.id).where(Blacklist.phone == phone)` has a row.
unfoldable pub is_blacklisted : String → Db → Bool
is_blacklisted phone db = any (λ e. str_eq e.phone phone) db.blacklist

-- INSERT ... ON CONFLICT (phone) DO NOTHING.
pub add_to_blacklist : String → String → String → Db → Db
unfolding is_blacklisted
add_to_blacklist phone source_sim source_project db =
    if is_blacklisted phone db then db else record db {
      blacklist =
          db.blacklist
          ++ record { phone = phone; source_sim = source_sim; source_project = source_project }
            ∷ [];
    }

pub get_blacklist_count : Db → ℕ
get_blacklist_count db = length db.blacklist

any-snoc {ℓ} :
    {A : Type ℓ} (p : A → Bool) (xs : List A) (a : A) → any p (xs ++ a ∷ []) ≡ (any p xs || p a)
any-snoc p [] a = ground arith
any-snoc p (x ∷ xs) a = ground (arith, any-snoc p xs a)

-- It writes to its own table alone.
pub add_to_blacklist_elsewhere :
    (phone source_sim source_project : String) (db : Db)
    → let db' = add_to_blacklist phone source_sim source_project db in
      (db'.contacts ≡ db.contacts)
      × (db'.sms_log ≡ db.sms_log)
      × (db'.webhook_events ≡ db.webhook_events)
      × (db'.sequences ≡ db.sequences)
unfolding add_to_blacklist
add_to_blacklist_elsewhere phone source_sim source_project db =
    elim (Bool-cases (is_blacklisted phone db)) [
      | inr new ↦ rw (new, add_to_blacklist) (refl, refl, refl, refl)
      | inl old ↦ rw (old, add_to_blacklist) (refl, refl, refl, refl)
    ]

-- After `add_to_blacklist` exactly the numbers listed before and the one that was added are blacklisted.
pub is_blacklisted-add_to_blacklist :
    (phone other source_sim source_project : String) (db : Db)
    → is_blacklisted other (add_to_blacklist phone source_sim source_project db)
      ≡ (is_blacklisted other db || str_eq phone other)
unfolding add_to_blacklist
is_blacklisted-add_to_blacklist phone other source_sim source_project db =
    elim (Bool-cases (is_blacklisted phone db)) [
      | inr new ↦ rw new (any-snoc (λ e. str_eq e.phone other) db.blacklist _)
      | inl old ↦ rw old (absorb (Bool-cases (str_eq phone other)) old)
    ]
  where
    absorb :
        (str_eq phone other ≡ true) ⊎ (str_eq phone other ≡ false)
        → is_blacklisted phone db ≡ true
        → is_blacklisted other db ≡ (is_blacklisted other db || str_eq phone other)
    absorb (inr differs) old = rw differs (ground arith)
    absorb (inl same) old =
        let listed = rw ((str_eq_iff phone other).0 same) at old in rw (same, listed)
