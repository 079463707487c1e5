-- ===== src/Collection/Distinct.antt =====
-- What the table of listings keeps: one row for an address and for a content, however often a listing comes.
use text.Mathlib.Text.{◌==◌ as str_eq}
use auto_bot_lbc_pj.Prelude.{
  ℕ, ◌+◌, String, Bool, true, false, ◌||◌, List, [], ◌∷◌, ◌++◌, Option, none, some, ◌≡◌, refl, sym,
  ◌∙◌, any, length, length-append, arith, inl, inr, Bool-cases, str_eq_iff,
}
use auto_bot_lbc_pj.Collection.Listings.{
  RawListing, StoredListing, Texts, Persisted, new_row, same_hash, conflicts, insert_listing,
  persist_one, persist_all,
}

str_eq_sym : (a b : String) → str_eq a b ≡ str_eq b a
str_eq_sym a b = elim (Bool-cases (str_eq a b)) [
  | inl same ↦ let e : a ≡ b = (str_eq_iff a b).0 same in rw e refl
  | inr differ ↦ elim (Bool-cases (str_eq b a)) [
    | inl same ↦ let e : b ≡ a = (str_eq_iff b a).0 same in rw e refl
    | inr differ' ↦ differ ∙ sym differ'
  ]
]

same_hash_sym : (a b : Option String) → same_hash a b ≡ same_hash b a
same_hash_sym none none = refl
same_hash_sym none (some b) = refl
same_hash_sym (some a) none = refl
same_hash_sym (some a) (some b) = str_eq_sym a b

conflicts_sym : (a b : StoredListing) → conflicts a b ≡ conflicts b a
conflicts_sym a b =
    rw (str_eq_sym b.values.url a.values.url, same_hash_sym b.content_hash a.content_hash) refl

-- No row has the address or the content of a later one.
abbrev pub Distinct : List StoredListing → Type 0
Distinct [] = Unit
Distinct (r ∷ rs) = (any (conflicts r) rs ≡ false) × Distinct rs

pub any-append :
    {A : Type 0} (p : A → Bool) (xs ys : List A) → any p (xs ++ ys) ≡ (any p xs || any p ys)
any-append p [] ys = refl
any-append p (x ∷ xs) ys = ground (arith, any-append p xs ys)

Distinct-snoc :
    (rows : List StoredListing) (row : StoredListing)
    → Distinct rows
    → any (conflicts row) rows ≡ false
    → Distinct (rows ++ row ∷ [])
Distinct-snoc [] row d new = (refl, tt)
Distinct-snoc (r ∷ rs) row d new =
    let here : conflicts row r ≡ false = ground (arith, new) in
    (
      any-append (conflicts r) rs (row ∷ []) ∙ (rw (d.0, conflicts_sym r row, here) refl),
      Distinct-snoc rs row d.1 (ground (arith, new)),
    )

-- After an insertion: what was counted, and that the rows are the old ones and as many new ones.
pub record Grown (n : ℕ) (before after : Persisted × List StoredListing) : Type 0 where
  pub counted : after.0.inserted + after.0.skipped ≡ n + (before.0.inserted + before.0.skipped)
  pub rows_counted : length after.1 + before.0.inserted ≡ length before.1 + after.0.inserted
  pub distinct : Distinct before.1 → Distinct after.1
  pub kept :
      (row : StoredListing)
      → any (conflicts row) before.1 ≡ true
      → any (conflicts row) after.1 ≡ true

module _ (texts : Texts) (sector : Option ℕ) where
  -- The counts grew by one, and the listing is now there unless its address is empty.
  pub persist_one-Grown :
      (listing : RawListing) (done : Persisted × List StoredListing)
      → Grown 1 done (persist_one texts sector listing done)
  unfolding insert_listing
  persist_one-Grown listing (p, rows) = elim (Bool-cases (str_eq listing.url "")) [
    | inl empty ↦ rw empty (record {
      counted = omega arith;
      rows_counted = omega arith;
      distinct = λ d. d;
      kept = λ row there. there;
    })
    | inr full ↦ elim (Bool-cases (any (conflicts (new_row texts sector listing)) rows)) [
      | inl old ↦
          rw (full, insert_listing, old)
            (record {
              counted = omega arith;
              rows_counted = omega arith;
              distinct = λ d. d;
              kept = λ row there. there;
            })
      | inr new ↦
          rw (full, insert_listing, new)
            (record {
              counted = omega arith;
              rows_counted = omega (arith, length-append rows (new_row texts sector listing ∷ []));
              distinct = λ d. Distinct-snoc rows (new_row texts sector listing) d new;
              kept = λ row there.
                  any-append (conflicts row) rows (new_row texts sector listing ∷ [])
                  ∙ (rw there refl);
            })
    ]
  ]

  pub persist_all-Grown :
      (listings : List RawListing) (done : Persisted × List StoredListing)
      → Grown (length listings) done (persist_all texts sector listings done)
  unfolding persist_all
  persist_all-Grown [] done = record {
    counted = omega arith;
    rows_counted = omega arith;
    distinct = λ d. d;
    kept = λ row there. there;
  }
  persist_all-Grown (l ∷ ls) done =
      let one = persist_one-Grown l done in
      let rest = persist_all-Grown ls (persist_one texts sector l done) in
      record {
        counted = omega (arith, one.counted, rest.counted);
        rows_counted = omega (arith, one.rows_counted, rest.rows_counted);
        distinct = λ d. rest.distinct (one.distinct d);
        kept = λ row there. rest.kept row (one.kept row there);
      }
