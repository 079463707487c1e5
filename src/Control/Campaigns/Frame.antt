-- ===== src/Control/Campaigns/Frame.antt =====
-- What a campaign command leaves alone, and what it does to the status of each campaign.
use auto_bot_lbc_pj.Prelude.{
  ℕ, suc, String, List, [], ◌∷◌, get, ◌≡◌, refl, ◌∙◌, inl, inr, arith, Option-cases, Returns,
  Returns->>=,
}
use auto_bot_lbc_pj.Tables.{Db}
use auto_bot_lbc_pj.Control.Common.{Action, Caller, Outside, insert_run}
use auto_bot_lbc_pj.Control.Campaigns.{visit_type, visit_types, dispatch}

-- The same campaigns and audit events.
pub record Framed (db db' : Db) : Type 0 where
  pub campaigns : db'.campaigns ≡ db.campaigns
  pub audit : db'.audit ≡ db.audit

Framed-trans : {a b c : Db} → Framed a b → Framed b c → Framed a c
Framed-trans p q = record { campaigns = q.campaigns ∙ p.campaigns; audit = q.audit ∙ p.audit }

module _ (out : Outside) (caller : Caller) (campaign_id : ℕ) (action : Action) where
  visit_type-Framed :
      (index : ℕ) (type : String) (db : Db)
      → Returns (λ _. Framed db) (visit_type out caller campaign_id action index type db)
  unfolding visit_type insert_run
  visit_type-Framed index type db = ground arith

  pub visit_types-Framed :
      (index : ℕ) (types : List String) (db : Db)
      → Returns (λ _. Framed db) (visit_types out caller campaign_id action index types db)
  unfolding visit_types
  visit_types-Framed index [] db = record { campaigns = refl; audit = refl }
  visit_types-Framed index (type ∷ types) db =
      Returns->>= (λ _. Framed db) (λ _. Framed db)
        (visit_type out caller campaign_id action index type db) _ (visit_type-Framed index type db)
        λ run_id db₁ f₁.
          Returns->>= (λ _. Framed db₁) (λ _. Framed db)
            (visit_types out caller campaign_id action (suc index) types db₁) _
            (visit_types-Framed (suc index) types db₁) (λ rest db₂ f₂. Framed-trans f₁ f₂)

pub dispatch-Framed :
    (out : Outside) (runs : List (String × ℕ)) (db : Db) → Framed db (dispatch out runs db).1
unfolding dispatch
dispatch-Framed out [] db = record { campaigns = refl; audit = refl }
dispatch-Framed out ((type, run_id) ∷ rest) db = elim (Option-cases (out.apply_async type run_id)) [
  | inl refused ↦ rw (refused, dispatch) (record { campaigns = refl; audit = refl })
  | inr (task, queued) ↦
      rw (queued, dispatch)
        elim (Option-cases (get (λ r. r.id) run_id db.workflows)) [
          | inl missing ↦ rw (missing, dispatch) (record { campaigns = refl; audit = refl })
          | inr (run, found) ↦
              rw (found, dispatch)
                (Framed-trans (record { campaigns = refl; audit = refl })
                  (dispatch-Framed out rest _))
        ]
]
