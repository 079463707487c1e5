-- ===== src/Apify/Again.antt =====
-- app/services/apify_ingestion.py: a run that is imported a second time.
use auto_bot_lbc_pj.Prelude.{
  ℕ, suc, String, Bool, false, List, ◌∷◌, some, find, get, ok, ◌≡◌, sym, subst, ap, ◌∙◌, inl, inr,
  Result-cases, true, Bool-cases,
}
use auto_bot_lbc_pj.Apify.Payload.{Json}
use auto_bot_lbc_pj.Apify.Rows.{ApifyRun, ApifyItem, Store}
use auto_bot_lbc_pj.Apify.Items.{
  Env, RunContext, ItemOutcome, payload_hash, can_store, item_is, outcome, replayed_status,
  replayed_outcome,
}
use auto_bot_lbc_pj.Apify.Ingestion.{import_one_item}
use auto_bot_lbc_pj.Apify.Import.{Counters, count_item, save_page, import_items}
use auto_bot_lbc_pj.Apify.Pages.{
  Paged, Paged-trans, PagesOnly, PagesOnly-trans, save_page-PagesOnly, save_page_ok, Paged-there,
}
use auto_bot_lbc_pj.Apify.Rerun.{Recorded}

-- Two surroundings in which a dataset has the same items with the same hashes; all else may differ: the
-- clock, the new identifiers, what the language model answers, the size of a page.
pub record SameSource (env env' : Env) : Type 0 where
  pub decrypt : env'.decrypt ≡ env.decrypt
  pub dataset : env'.dataset ≡ env.dataset
  pub hash : (payload : Json) → payload_hash env' payload ≡ payload_hash env payload
  pub storable : (payload : Json) → can_store env' payload ≡ can_store env payload

abbrev pub without_new : Counters → Counters
without_new c = record c { sequences_created = 0 }

-- What the loop leaves as it was.
pub record Extends (id : ℕ) (s s' : Store) : Type 0 where
  pub accounts : s'.accounts ≡ s.accounts
  pub bindings : s'.bindings ≡ s.bindings
  pub profiles : s'.profiles ≡ s.profiles
  pub paged : Paged id s.runs s'.runs
  pub older :
      (p : ApifyItem → Bool) (r : ApifyItem) → find p s.items ≡ some r → find p s'.items ≡ some r

pub Extends-trans : (id : ℕ) (a b c : Store) → Extends id a b → Extends id b c → Extends id a c
Extends-trans id a b c f g = record {
  accounts = g.accounts ∙ f.accounts;
  bindings = g.bindings ∙ f.bindings;
  profiles = g.profiles ∙ f.profiles;
  paged = Paged-trans id a.runs b.runs c.runs f.paged g.paged;
  older = λ p r h. g.older p r (f.older p r h);
}

pub step-Extends :
    (context : RunContext) (index : ℕ) (hash : String) (s a b : Store) (o : ItemOutcome)
    → Recorded context index hash s o a
    → PagesOnly context.id a b
    → Extends context.id s b
step-Extends context index hash s a b o r p = record {
  accounts = ap (λ (x : Store). x.accounts) p.rest ∙ r.same.accounts;
  bindings = ap (λ (x : Store). x.bindings) p.rest ∙ r.same.bindings;
  profiles = ap (λ (x : Store). x.profiles) p.rest ∙ r.same.profiles;
  paged = Paged-trans context.id s.runs a.runs b.runs (inl r.same.runs) p.paged;
  older = λ q row h. ap (λ (x : Store). find q x.items) p.rest ∙ r.older q row h;
}

import_one_item-there :
    (env : Env) (context : RunContext) (index : ℕ) (payload : Json) (s : Store) (row : ApifyItem)
    → find (item_is context index (payload_hash env payload)) s.items ≡ some row
    → import_one_item env context index payload s ≡ (replayed_outcome row, s)
unfolding import_one_item
import_one_item-there env context index payload s row there = rw (there, import_one_item)

module _ (env : Env) (context : RunContext) (index : ℕ) (payload : Json) (rest : List Json)
    (raises : Bool) (c : Counters) (s : Store) where
  import_items-paged :
      let done = import_one_item env context index payload s in
      (b : Store)
      → can_store env payload ≡ true
      → save_page env context (count_item done.0 c) done.1 ≡ ok b
      → import_items env context index (payload ∷ rest) raises c s
        ≡ import_items env context (suc index) rest raises (count_item done.0 c) b
  unfolding import_items
  import_items-paged b fine page = rw (fine, page, import_items)

  pub import_items-step :
      (o : ItemOutcome) (a b : Store)
      → can_store env payload ≡ true
      → import_one_item env context index payload s ≡ (o, a)
      → save_page env context (count_item o c) a ≡ ok b
      → import_items env context index (payload ∷ rest) raises c s
        ≡ import_items env context (suc index) rest raises (count_item o c) b
  import_items-step o a b fine one page =
      import_items-paged b fine (
        subst (λ (d : ItemOutcome × Store). save_page env context (count_item d.0 c) d.1 ≡ ok b)
          (sym one) page)
      ∙ ap
          (λ (d : ItemOutcome × Store).
            import_items env context (suc index) rest raises (count_item d.0 c) b)
          one

  -- A loop that has returned has saved its pages.
  pub import_items-inv :
      (c1 : Counters) (s1 : Store)
      → import_items env context index (payload ∷ rest) raises c s ≡ (ok c1, s1)
      → let done = import_one_item env context index payload s in
        (can_store env payload ≡ true)
        × (b : Store) × (save_page env context (count_item done.0 c) done.1 ≡ ok b)
        × (import_items env context (suc index) rest raises (count_item done.0 c) b ≡ (ok c1, s1))
  unfolding import_items
  import_items-inv c1 s1 h =
      let done = import_one_item env context index payload s in
      elim (Bool-cases (can_store env payload)) [
        | inr bad ↦ let f = rw (bad, import_items) at h in let no : ⊥ = cc in elim no [ ]
        | inl fine ↦ elim (Result-cases (save_page env context (count_item done.0 c) done.1)) [
          | inl (b, page) ↦ (fine, b, page, rw (fine, page, import_items) at h)
          | inr (e, page) ↦
              let f = rw (fine, page, import_items) at h in let no : ⊥ = cc in elim no [ ]
        ]
      ]

-- The same items, imported again where those rows still are, by what another import makes of them.
unfoldable pub Replays :
    (env' : Env) → RunContext → (index : ℕ) → List Json → Bool → (c c1 : Counters) → Store → Type 0
Replays env' context index payloads raises c c1 s1 =
    (s2 : Store) (run : ApifyRun)
    → ((p : ApifyItem → Bool) (r : ApifyItem) → find p s1.items ≡ some r → find p s2.items ≡ some r)
    → get (λ r. r.id) context.id s2.runs ≡ some run
    → (s3 : Store) × (import_items env' context index payloads raises (without_new c) s2
        ≡ (ok (without_new c1), s3))
      × PagesOnly context.id s2 s3

module _ (env env' : Env) (source : SameSource env env') (context : RunContext) where
  pub Replays-step :
      (index : ℕ) (payload : Json) (rest : List Json) (raises : Bool) (c c1 : Counters) (s1 : Store)
      (o : ItemOutcome) (row : ApifyItem)
      → can_store env payload ≡ true
      → find (item_is context index (payload_hash env payload)) s1.items ≡ some row
      → replayed_status row.status ≡ o.status
      → Replays env' context (suc index) rest raises (count_item o c) c1 s1
      → Replays env' context index (payload ∷ rest) raises c c1 s1
  unfolding Replays
  Replays-step index payload rest raises c c1 s1 o row fine found reported next s2 run older there =
      let found' =
        subst (λ (h : String). find (item_is context index h) s2.items ≡ some row)
          (sym (source.hash payload))
          (older (item_is context index (payload_hash env payload)) row found) in
      let one = import_one_item-there env' context index payload s2 row found' in
      let counted : count_item (replayed_outcome row) (without_new c)
          ≡ without_new (count_item o c) =
        λ i. count_item (outcome (reported i) false) (without_new c) in
      let (b, page) =
        save_page_ok env' context (count_item (replayed_outcome row) (without_new c)) s2 run
          there in
      let step =
        import_items-step env' context index payload rest raises (without_new c) s2
          (replayed_outcome row) s2 b (source.storable payload ∙ fine) one page in
      let pages =
        save_page-PagesOnly env' context (count_item (replayed_outcome row) (without_new c)) s2 b
          page in
      let (run', there') = Paged-there context.id s2.runs b.runs run pages.paged there in
      let (s3, loop, after) =
        next b run' (λ p r h. ap (λ (x : Store). find p x.items) pages.rest ∙ older p r h) there' in
      (
        s3,
        step
            ∙ ap (λ (k : Counters). import_items env' context (suc index) rest raises k b) counted
            ∙ loop,
        PagesOnly-trans context.id s2 b s3 pages after,
      )
