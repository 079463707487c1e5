-- ===== src/Collection/Leases.antt =====
-- A collection gives back whatever it has claimed, on every path.
use auto_bot_lbc_pj.Prelude.{
  ℕ, ◌+◌, String, Bool, true, false, List, [], ◌∷◌, ◌++◌, Option, none, some, ◌≡◌, refl, sym, ap,
  subst, arith, inl, inr, any, update, Bool-cases, Result, ok, err, All, All-map, All-update,
  Returns_ok, Result-cases, if_both, str_eq,
}
use Prim.Native.String.{◌++◌ as text_append}
use auto_bot_lbc_pj.Collection.Listings.{RawListing}
use auto_bot_lbc_pj.Locks.{
  Kind, account, sim, proxy, Resource, is_resource, held_by, claims, lock, claim_resource,
  release_resource,
}
use auto_bot_lbc_pj.Collection.Sectors.{
  Sector, CollectionRun, Assignment, Store, Params, World, Error, skipped, opened, open_session,
}
use auto_bot_lbc_pj.Collection.Opening.{Opens, open_session-Opens}
use auto_bot_lbc_pj.Collection.Collect.{
  Held, run_owner, params, claim_first, claim_account, claim_kind, claim_all, target_or_raise,
  and_then, assigned, scrape, or_fail, store_listings, scrape_and_store, release_all,
  run_collection, collect_sector,
}

update_none :
    {A : Type 0} (p : A → Bool) (f : A → A) (xs : List A) → any p xs ≡ false → update p f xs ≡ xs
update_none p f [] h = refl
update_none p f (x ∷ xs) h = ground (arith, update_none p f xs)

abbrev covers : Resource → Kind × ℕ → Bool
covers r (kind, id) = is_resource kind id r

-- What the run_owner holds is among the leases.
abbrev pub Leased : String → List (Kind × ℕ) → Resource → Type 0
Leased o leases r = held_by o r ≡ true → any (covers r) leases ≡ true

any-append_left :
    {A : Type 0} (p : A → Bool) (xs ys : List A) → any p xs ≡ true → any p (xs ++ ys) ≡ true
any-append_left p [] ys h = cc
any-append_left p (x ∷ xs) ys h = ground (arith, h, any-append_left p xs ys)

any_last :
    {A : Type 0} (p : A → Bool) (xs : List A) (y : A) → p y ≡ true → any p (xs ++ y ∷ []) ≡ true
any_last p [] y h = ground (arith, h)
any_last p (x ∷ xs) y h = ground (arith, any_last p xs y h)

module _ (o : String) where
  abbrev AllLeased : Held → Type 0
  AllLeased held = All (Leased o held.leases) held.locks

  claimed-Leased :
      (kind : Kind) (id now : ℕ) (held : Held)
      → AllLeased held
      → All
          (Leased o (held.leases ++ (kind, id) ∷ []))
          (update (claims kind id o now) (lock (now + 300) o) held.locks)
  claimed-Leased kind id now held h =
      All-update (Leased o (held.leases ++ (kind, id) ∷ [])) (claims kind id o now)
        (lock (now + 300) o) held.locks
        (λ r claimed _ _.
          any_last (covers (lock (now + 300) o r)) held.leases (kind, id) (ground (arith, claimed)))
        (All-map (Leased o held.leases) (Leased o (held.leases ++ (kind, id) ∷ [])) held.locks
          (λ r leased holds.
            any-append_left (covers r) held.leases ((kind, id) ∷ []) (leased holds))
          h)

  claim_first-Leased :
      (claims_at : Kind → ℕ → ℕ) (kind : Kind) (rows : List Assignment) (held : Held)
      → AllLeased held
      → AllLeased (claim_first o claims_at kind rows held).1
  unfolding claim_first claim_resource
  claim_first-Leased claims_at kind [] held h = h
  claim_first-Leased claims_at kind (a ∷ rest) held h =
      let now = claims_at kind a.id in
      elim (Bool-cases (any (claims kind a.id o now) held.locks)) [
        | inl won ↦ rw (won, claim_first) (claimed-Leased kind a.id now held h)
        | inr lost ↦
            let same = update_none (claims kind a.id o now) (lock (now + 300) o) held.locks lost in
            rw (lost, same, claim_first) (claim_first-Leased claims_at kind rest held h)
      ]

  released-Leased :
      (kind : Kind) (id : ℕ) (leases : List (Kind × ℕ)) (locks : List Resource)
      → All (Leased o ((kind, id) ∷ leases)) locks
      → All (Leased o leases) (release_resource kind id o locks)
  unfolding release_resource
  released-Leased kind id leases [] h = tt
  released-Leased kind id leases (r ∷ rs) h =
      let later = released-Leased kind id leases rs h.1 in
      elim (Bool-cases (is_resource kind id r)) [
        | inr other ↦ rw (other) (λ holds. rw other at (h.0 holds), later)
        | inl this ↦ elim (Bool-cases (held_by o r)) [
          | inl holds ↦ rw (this, holds) (λ no. cc, later)
          | inr free ↦ rw (this, free) (λ no. cc, later)
        ]
      ]

  abbrev pub Free : List Resource → Type 0
  Free locks = All (λ r. held_by o r ≡ false) locks

  release_all-Free :
      (leases : List (Kind × ℕ)) (locks : List Resource)
      → All (Leased o leases) locks
      → Free (release_all o leases locks)
  unfolding release_all
  release_all-Free [] locks h =
      All-map (Leased o []) (λ r. held_by o r ≡ false) locks
        (λ r leased. elim (Bool-cases (held_by o r)) [
          | inl holds ↦ let no = leased holds in cc
          | inr free ↦ free
        ])
        h
  release_all-Free ((kind, id) ∷ rest) locks h =
      release_all-Free rest (release_resource kind id o locks)
        (released-Leased kind id rest locks h)

and_then-Leased :
    (o : String) (r : Result Error (Option ℕ) × Held)
    (f : Option ℕ → Held → Result Error (Option ℕ) × Held)
    → AllLeased o r.1
    → ((a : Option ℕ) (held : Held) → AllLeased o held → AllLeased o (f a held).1)
    → AllLeased o (and_then r f).1
and_then-Leased o (err e, held) f h step = h
and_then-Leased o (ok a, held) f h step = step a held h

target_held : (kind : Kind) (r : Option Assignment × Held) → (target_or_raise kind r).1 ≡ r.1
target_held kind (none, held) = refl
target_held kind (some a, held) = refl

module _ (world : World) (run : CollectionRun) where
  abbrev o : String
  o = run_owner world run

  claim_account-Leased :
      (sector : Sector) (db : Store) (held : Held)
      → AllLeased o held
      → AllLeased o (claim_account world run sector db held).1
  unfolding claim_account
  claim_account-Leased sector db held h =
      if_both (λ (r : Result Error (Option ℕ) × Held). AllLeased o r.1)
        (str_eq sector.source "leboncoin") _ _
        (let after = claim_first o world.claims_at account (assigned account sector db) held in
          subst (AllLeased o) (sym (target_held account after))
            (claim_first-Leased o world.claims_at account (assigned account sector db) held h))
        h

  claim_kind-Leased :
      (kind : Kind) (rows : List Assignment) (account_id : Option ℕ) (held : Held)
      → AllLeased o held
      → AllLeased o (claim_kind world run kind rows account_id held).1
  unfolding claim_kind
  claim_kind-Leased kind [] account_id held h = h
  claim_kind-Leased kind (a ∷ rest) account_id held h =
      claim_first-Leased o world.claims_at kind (a ∷ rest) held h

  claim_all-Leased :
      (sector : Sector) (db : Store) (held : Held)
      → AllLeased o held
      → AllLeased o (claim_all world run sector db held).1
  unfolding claim_all
  claim_all-Leased sector db held h =
      let at_account = claim_account world run sector db held in
      let at_proxy = claim_kind world run proxy (assigned proxy sector db) in
      let at_sim = claim_kind world run sim (assigned sim sector db) in
      and_then-Leased o (and_then at_account at_proxy) at_sim
        (and_then-Leased o at_account at_proxy (claim_account-Leased sector db held h)
          (claim_kind-Leased proxy (assigned proxy sector db)))
        (claim_kind-Leased sim (assigned sim sector db))

  store_locks :
      (sector : Sector) (p : Params) (listings : Result Error (List RawListing)) (db : Store)
      → (or_fail world run.id (store_listings world sector run p listings db)).1.locks ≡ db.locks
  store_locks sector p (err e) db = refl
  store_locks sector p (ok listings) db = refl

  body_locks :
      (sector : Sector) (p : Params) (account_id : Result Error (Option ℕ)) (db : Store)
      → (or_fail world run.id (scrape_and_store world sector run p account_id db)).1.locks
        ≡ db.locks
  body_locks sector p (err e) db = refl
  body_locks sector p (ok a) db = store_locks sector p (scrape world sector p a) db

  run_collection-Free :
      (sector : Sector) (p : Params) (db : Store)
      → Free o db.locks
      → Free o (run_collection world sector run p db).1.locks
  unfolding run_collection
  run_collection-Free sector p db free =
      let start : Held = record { leases = []; locks = db.locks } in
      let claimed = claim_all world run sector db start in
      let leased =
        claim_all-Leased sector db start
          (All-map (λ r. held_by o r ≡ false) (Leased o []) db.locks (λ r no yes. cc) free) in
      release_all-Free o claimed.1.leases _ (
        subst (All (Leased o claimed.1.leases))
          (sym (body_locks sector p claimed.0 (record db { locks = claimed.1.locks }))) leased)

-- If the new run's run_owner holds no resource before, it holds none when the collection has returned or raised, so
-- every account, proxy and SIM that was claimed is released on every path.
pub collect_sector-Free :
    (world : World) (sector_id : ℕ) (db : Store)
    → let o = text_append "collection:" (world.show world.run_id) in
      Free o db.locks → Free o (collect_sector world sector_id db).1.locks
unfolding collect_sector
collect_sector-Free world sector_id db free =
    let name = text_append "collection:" (world.show world.run_id) in
    elim (Result-cases (open_session world sector_id db)) [
      | inr (e, raised) ↦ rw raised free
      | inl ((skipped reason, db'), done) ↦
          let same =
            Returns_ok (Opens world sector_id db) _ _ _ done
              (open_session-Opens world sector_id db) in
          rw done (subst (λ (d : Store). Free name d.locks) (sym same) free)
      | inl ((opened sector run remaining, db'), done) ↦
          let (_, row, same) =
            Returns_ok (Opens world sector_id db) _ _ _ done
              (open_session-Opens world sector_id db) in
          let p = params sector run.checkpoint remaining in
          let named : run_owner world run ≡ name =
            ap (λ (r : CollectionRun). run_owner world r) row in
          let before = subst (λ (d : Store). Free name d.locks) (sym same) free in
          rw done (
            subst (λ n. Free n (run_collection world sector run p db').1.locks) named
              (run_collection-Free world run sector p db'
                (subst (λ n. Free n db'.locks) (sym named) before)))
    ]
