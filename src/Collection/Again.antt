-- ===== src/Collection/Again.antt =====
-- A listing that comes again is skipped, and so is another one that has the same empty details.
use text.Mathlib.Text.{◌==◌ as str_eq}
use auto_bot_lbc_pj.Prelude.{
  ℕ, ◌+◌, Bool, true, false, List, [], ◌∷◌, ◌++◌, Option, none, ◌≡◌, refl, ap, ◌∙◌, if◌then◌else◌,
  any, length, arith, inl, inr, ◌⊎◌, Bool-cases, str_eq_refl, All,
}
use auto_bot_lbc_pj.Collection.Listings.{
  RawListing, StoredListing, Texts, Persisted, new_row, conflicts, insert_listing, persist_one,
  persist_all, persist_listings, one_more_skipped,
}
use auto_bot_lbc_pj.Collection.Distinct.{Distinct, Grown, any-append, persist_all-Grown}

if_same : {A : Type 0} (b : Bool) (x y : A) → y ≡ x → (if b then x else y) ≡ x
if_same true x y e = refl
if_same false x y e = e

-- Every listing is inserted or skipped, the table grows by those inserted, and when no two of its rows had an
-- address or a content in common none have after it.
pub persist_listings-Distinct :
    (texts : Texts) (sector : Option ℕ) (listings : List RawListing) (rows : List StoredListing)
    → Distinct rows
    → let (p, after) = persist_listings texts sector listings rows in
      (p.inserted + p.skipped ≡ length listings)
      × (length after ≡ length rows + p.inserted)
      × Distinct after
unfolding persist_listings
persist_listings-Distinct texts sector listings rows d =
    let g = persist_all-Grown texts sector listings (record { inserted = 0; skipped = 0 }, rows) in
    (omega (arith, g.counted), omega (arith, g.rows_counted), g.distinct d)

module _ (texts : Texts) where
  -- A listing that would not be inserted.
  abbrev Covered : List StoredListing → RawListing → Type 0
  Covered rows l = (str_eq l.url "" ≡ true) ⊎ (any (conflicts (new_row texts none l)) rows ≡ true)

  any-snoc_last :
      (row : StoredListing) (rows : List StoredListing)
      → any (conflicts row) (rows ++ row ∷ []) ≡ true
  any-snoc_last row rows =
      any-append (conflicts row) rows (row ∷ []) ∙ (rw (str_eq_refl row.values.url) (ground arith))

  persist_one-covers :
      (sector : Option ℕ) (l : RawListing) (done : Persisted × List StoredListing)
      → Covered (persist_one texts sector l done).1 l
  unfolding insert_listing
  persist_one-covers sector l (p, rows) = elim (Bool-cases (str_eq l.url "")) [
    | inl empty ↦ inl empty
    | inr full ↦ elim (Bool-cases (any (conflicts (new_row texts sector l)) rows)) [
      | inl old ↦ inr (rw (full, insert_listing, old) old)
      | inr new ↦ inr (rw (full, insert_listing, new) (any-snoc_last (new_row texts sector l) rows))
    ]
  ]

  Covered-kept :
      (before after : Persisted × List StoredListing) (n : ℕ) (l : RawListing)
      → Grown n before after
      → Covered before.1 l
      → Covered after.1 l
  Covered-kept before after n l g (inl empty) = inl empty
  Covered-kept before after n l g (inr there) = inr (g.kept (new_row texts none l) there)

  persist_all-covers :
      (sector : Option ℕ) (ls : List RawListing) (done : Persisted × List StoredListing)
      → All (Covered (persist_all texts sector ls done).1) ls
  unfolding persist_all
  persist_all-covers sector [] done = tt
  persist_all-covers sector (l ∷ ls) done =
      let one = persist_one texts sector l done in
      (
        Covered-kept one (persist_all texts sector ls one) (length ls) l
            (persist_all-Grown texts sector ls one) (persist_one-covers sector l done),
        persist_all-covers sector ls one,
      )

  persist_one-Covered :
      (sector : Option ℕ) (l : RawListing) (p : Persisted) (rows : List StoredListing)
      → Covered rows l
      → persist_one texts sector l (p, rows) ≡ (one_more_skipped p, rows)
  unfolding insert_listing
  persist_one-Covered sector l p rows (inl empty) = rw empty refl
  persist_one-Covered sector l p rows (inr there) =
      if_same (str_eq l.url "") (one_more_skipped p, rows) _ (rw (insert_listing, there) refl)

  persist_all-Covered :
      (sector : Option ℕ) (ls : List RawListing) (p : Persisted) (rows : List StoredListing)
      → All (Covered rows) ls
      → persist_all texts sector ls (p, rows)
        ≡ (record { inserted = p.inserted; skipped = length ls + p.skipped }, rows)
  unfolding persist_all
  persist_all-Covered sector [] p rows covered =
      ap (λ n. (record { inserted = p.inserted; skipped = n }, rows)) (omega arith)
  persist_all-Covered sector (l ∷ ls) p rows covered =
      ap (persist_all texts sector ls) (persist_one-Covered sector l p rows covered.0)
      ∙ persist_all-Covered sector ls (one_more_skipped p) rows covered.1
      ∙ ap (λ n. (record { inserted = p.inserted; skipped = n }, rows)) (omega arith)

  -- Persisting the same listings again, for whatever sector, inserts none of them and changes no row.
  pub persist_listings-again :
      (sector again : Option ℕ) (listings : List RawListing) (rows : List StoredListing)
      → let after = (persist_listings texts sector listings rows).1 in
        persist_listings texts again listings after
        ≡ (record { inserted = 0; skipped = length listings }, after)
  unfolding persist_listings
  persist_listings-again sector again listings rows =
      let start : Persisted × List StoredListing = (record { inserted = 0; skipped = 0 }, rows) in
      persist_all-Covered again listings (record { inserted = 0; skipped = 0 })
        (persist_all texts sector listings start).1 (persist_all-covers sector listings start)
      ∙ ap
          (λ n. (record { inserted = 0; skipped = n }, (persist_all texts sector listings start).1))
          (omega arith)
