-- ===== src/Apify/Pages.antt =====
-- app/services/apify_ingestion.py: the counters of a run, written after each page of items.
use auto_bot_lbc_pj.Prelude.{
  ℕ, ◌%◌, List, some, none, ◌==◌, ==_refl, if◌then◌else◌, get, modify, get-modify, modify-modify,
  ok, ◌≡◌, refl, sym, subst, ap, ◌∙◌, inl, inr, ◌⊎◌, Bool-cases, Option-cases,
}
use auto_bot_lbc_pj.Apify.Rows.{ApifyRun, Store}
use auto_bot_lbc_pj.Apify.Items.{Env, RunContext}
use auto_bot_lbc_pj.Apify.Import.{Counters, write_progress, save_run_progress, save_page, page_size}

-- The table of runs after some pages: as it was, or with the counters of one of them written.
abbrev pub Paged : ℕ → List ApifyRun → List ApifyRun → Type 0
Paged id before after =
    (after ≡ before)
    ⊎ ((c : Counters) × (after ≡ modify (λ r. r.id) id (write_progress none c) before))

pub Paged-trans : (id : ℕ) (a b c : List ApifyRun) → Paged id a b → Paged id b c → Paged id a c
Paged-trans id a b c ab (inl same) = subst (Paged id a) (sym same) ab
Paged-trans id a b c (inl same) (inr (k, e)) =
    inr (k, e ∙ ap (modify (λ r. r.id) id (write_progress none k)) same)
Paged-trans id a b c (inr (j, d)) (inr (k, e)) = inr (
  k,
  e
      ∙ ap (modify (λ r. r.id) id (write_progress none k)) d
      ∙ modify-modify (λ r. r.id) id (write_progress none k) (write_progress none j) a (λ r. refl),
)

-- The last update covers what the pages wrote.
pub Paged-covered :
    (id t : ℕ) (c : Counters) (a b : List ApifyRun)
    → Paged id a b
    → modify (λ r. r.id) id (write_progress (some t) c) b
      ≡ modify (λ r. r.id) id (write_progress (some t) c) a
Paged-covered id t c a b (inl same) = ap (modify (λ r. r.id) id (write_progress (some t) c)) same
Paged-covered id t c a b (inr (k, e)) =
    ap (modify (λ r. r.id) id (write_progress (some t) c)) e
    ∙ modify-modify (λ r. r.id) id (write_progress (some t) c) (write_progress none k) a (λ r. refl)

-- All that a page changes is the table of runs.
pub record PagesOnly (id : ℕ) (s s' : Store) : Type 0 where
  pub rest : s' ≡ record s { runs = s'.runs }
  pub paged : Paged id s.runs s'.runs

pub PagesOnly-trans :
    (id : ℕ) (a b c : Store) → PagesOnly id a b → PagesOnly id b c → PagesOnly id a c
PagesOnly-trans id a b c f g = record {
  rest = g.rest ∙ ap (λ (x : Store). record x { runs = c.runs }) f.rest;
  paged = Paged-trans id a.runs b.runs c.runs f.paged g.paged;
}

paged_store : RunContext → Counters → Store → Store
paged_store context c s = record s {
  runs = modify (λ r. r.id) context.id (write_progress none c) s.runs;
}

saved_page :
    (context : RunContext)
    → (c : Counters) → (s s' : Store) → (s' ≡ s) ⊎ (s' ≡ paged_store context c s)
    → PagesOnly context.id s s'
unfolding paged_store
saved_page context c s s' (inl e) =
    subst (PagesOnly context.id s) (sym e) (record { rest = refl; paged = inl refl })
saved_page context c s s' (inr e) =
    subst (PagesOnly context.id s) (sym e) (record { rest = refl; paged = inr (c, refl) })

pub save_page-PagesOnly :
    (env : Env) (context : RunContext) (c : Counters) (s s' : Store)
    → save_page env context c s ≡ ok s'
    → PagesOnly context.id s s'
unfolding save_page save_run_progress paged_store
save_page-PagesOnly env context c s s' h = elim (Bool-cases (c.read % page_size env == 0)) [
  | inr off ↦
      saved_page context c s s' (inl (let e = rw (off, save_page, if◌then◌else◌) at h in cc))
  | inl due ↦ elim (Option-cases (get (λ r. r.id) context.id s.runs)) [
    | inl gone ↦
        let e = rw (due, save_page, gone, save_run_progress, if◌then◌else◌) at h in
        let no : ⊥ = cc in elim no [ ]
    | inr (run, there) ↦
        saved_page context c s s'
          (inr (let e = rw (due, save_page, there, save_run_progress, if◌then◌else◌) at h in cc))
  ]
]

-- With the run in its table a page is always saved.
pub save_page_ok :
    (env : Env) (context : RunContext) (c : Counters) (s : Store) (run : ApifyRun)
    → get (λ r. r.id) context.id s.runs ≡ some run
    → (s' : Store) × (save_page env context c s ≡ ok s')
unfolding save_page save_run_progress paged_store
save_page_ok env context c s run there = elim (Bool-cases (c.read % page_size env == 0)) [
  | inr off ↦ (s, rw (off, save_page, if◌then◌else◌))
  | inl due ↦
      (paged_store context c s, rw (due, save_page, there, save_run_progress, if◌then◌else◌))
]

pub Paged-there :
    (id : ℕ) (a b : List ApifyRun) (run : ApifyRun)
    → Paged id a b
    → get (λ r. r.id) id a ≡ some run
    → (run' : ApifyRun) × (get (λ r. r.id) id b ≡ some run')
Paged-there id a b run (inl same) there = (run, ap (get (λ r. r.id) id) same ∙ there)
Paged-there id a b run (inr (c, e)) there = (
  write_progress none c run,
  ap (get (λ r. r.id) id) e
      ∙ get-modify (λ r. r.id) id id (write_progress none c) a (λ r. refl)
      ∙ rw (==_refl id, there, if◌then◌else◌),
)
