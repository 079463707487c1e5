-- ===== src/Apify/Rerun.antt =====
-- app/services/apify_ingestion.py: what the import of one item leaves as it was, and what it records.
use text.Mathlib.Text.{◌==◌ as str_eq}
use auto_bot_lbc_pj.Prelude.{
  ℕ, String, Bool, true, false, ◌&&◌, List, [], ◌∷◌, ◌++◌, none, some, ◌==◌, ==_refl, if◌then◌else◌,
  find, find-append_none, find-append_old, ok, err, ◌≡◌, refl, ap, ◌∙◌, inl, inr, Option-cases,
  Result-cases, str_eq_refl,
}
use auto_bot_lbc_pj.Inbox.Contacts.{ensure_contact_sequence_in_session}
use auto_bot_lbc_pj.Apify.Payload.{Json}
use auto_bot_lbc_pj.Apify.Normalize.{LeadStatus, NormalizedApifyLead}
use auto_bot_lbc_pj.Apify.Fallback.{normalize_apify_item_with_fallback}
use auto_bot_lbc_pj.Apify.Rows.{ApifyItem, Store}
use auto_bot_lbc_pj.Apify.Items.{
  Env, RunContext, ItemOutcome, outcome, ignored, stored_payload, payload_hash, item_is, new_item,
  replayed_status, upsert_listing,
}
use auto_bot_lbc_pj.Apify.Ingestion.{
  Processed, import_phone, process_lead, process_new_item, lead_phone, ignored_item,
  exceptional_item, imported_item, sequence_context, finish_item, failed_item, add_item,
  import_one_item,
}

-- The tables that the import of an item only reads.
pub record Same (s s' : Store) : Type 0 where
  pub accounts : s'.accounts ≡ s.accounts
  pub bindings : s'.bindings ≡ s.bindings
  pub profiles : s'.profiles ≡ s.profiles
  pub runs : s'.runs ≡ s.runs

pub Same-refl : (s : Store) → Same s s
Same-refl s = record { accounts = refl; bindings = refl; profiles = refl; runs = refl }

-- The columns of the unique key.
record SameKey (a b : ApifyItem) : Type 0 where
  account : b.account_id ≡ a.account_id
  run : b.run_id ≡ a.run_id
  index : b.dataset_index ≡ a.dataset_index
  hash : b.content_hash ≡ a.content_hash

abbrev Keeps : ApifyItem → Store → Processed → Type 0
Keeps item s (ok ((o, row), s')) =
    Same s s' × (s'.items ≡ s.items) × SameKey item row × (replayed_status row.status ≡ o.status)
Keeps item s (err name) = Unit

import_phone-Keeps :
    (env : Env) (context : RunContext) (index : ℕ) (item : ApifyItem) (payload : Json)
    (lead : NormalizedApifyLead) (phone : String) (s : Store)
    → Keeps item s (import_phone env context index item payload lead phone s)
unfolding import_phone imported_item
import_phone-Keeps env context index item payload lead phone s =
    let listed = upsert_listing env context index lead payload s.db in
    elim (Result-cases (
      ensure_contact_sequence_in_session (env.outside index) phone context.campaign_id listed.0
        (sequence_context env lead) listed.1)) [
          | inl (ensured, h) ↦
              rw (h, import_phone)
                (
                  record { accounts = refl; bindings = refl; profiles = refl; runs = refl },
                  refl,
                  record { account = refl; run = refl; index = refl; hash = refl },
                  refl,
                )
          | inr (e, h) ↦ rw (h, import_phone) tt
        ]

module _ (env : Env) (context : RunContext) (index : ℕ) (item : ApifyItem) (payload : Json)
    (lead : NormalizedApifyLead) (s : Store) where
  ignored_item-Keeps : Keeps item s (ignored_item env item lead s)
  unfolding ignored_item
  ignored_item-Keeps =
      (Same-refl s, refl, record { account = refl; run = refl; index = refl; hash = refl }, refl)

  process_lead-Keeps :
      (status : LeadStatus)
      → Keeps item s (process_lead env context index item payload lead status s)
  unfolding process_lead exceptional_item
  process_lead-Keeps LeadStatus.exception = (
    record { accounts = refl; bindings = refl; profiles = refl; runs = refl },
    refl,
    record { account = refl; run = refl; index = refl; hash = refl },
    refl,
  )
  process_lead-Keeps LeadStatus.actionable = elim (Option-cases (lead_phone lead)) [
    | inl nothing ↦ rw (nothing, process_lead) ignored_item-Keeps
    | inr (phone, there) ↦
        rw (there, process_lead) (import_phone-Keeps env context index item payload lead phone s)
  ]
  process_lead-Keeps LeadStatus.rejected = ignored_item-Keeps
  process_lead-Keeps LeadStatus.non_actionable = ignored_item-Keeps

process_new_item-Keeps :
    (env : Env) (context : RunContext) (index : ℕ) (item : ApifyItem) (payload : Json) (s : Store)
    → Keeps item s (process_new_item env context index item payload s)
unfolding process_new_item
process_new_item-Keeps env context index item payload s =
    elim (Option-cases (
      normalize_apify_item_with_fallback env.lib env.ask env.apify_ai_fallback_enabled none
        context.profile payload)) [
          | inl raised ↦ rw (raised, process_new_item) tt
          | inr (lead, made) ↦
              rw (made, process_new_item)
                (process_lead-Keeps env context index item payload lead s lead.status)
        ]

-- The row of the item is there, with the status that is reported; older rows are found as before.
pub record Recorded (context : RunContext) (index : ℕ) (hash : String) (s : Store) (o : ItemOutcome)
    (s' : Store) : Type 0 where
  pub same : Same s s'
  pub row : ApifyItem
  pub found : find (item_is context index hash) s'.items ≡ some row
  pub reported : replayed_status row.status ≡ o.status
  pub older :
      (p : ApifyItem → Bool) (r : ApifyItem) → find p s.items ≡ some r → find p s'.items ≡ some r

item_is-SameKey :
    (env : Env) (context : RunContext) (index : ℕ) (payload : Json) (row : ApifyItem)
    → SameKey (new_item env context index payload) row
    → item_is context index (payload_hash env payload) row ≡ true
item_is-SameKey env context index payload row k =
    let hash = payload_hash env payload in
    (λ i.
      k.account i == context.account_id
      && k.run i == context.id
      && k.index i == index
      && str_eq (k.hash i) hash)
    ∙ rw (==_refl context.account_id, ==_refl context.id, ==_refl index, str_eq_refl hash)

added-Recorded :
    (context : RunContext) (index : ℕ) (hash : String) (s s' : Store) (o : ItemOutcome)
    (row : ApifyItem)
    → find (item_is context index hash) s.items ≡ none
    → Same s s'
    → s'.items ≡ s.items
    → item_is context index hash row ≡ true
    → replayed_status row.status ≡ o.status
    → Recorded context index hash s o (add_item row s')
added-Recorded context index hash s s' o row fresh same items is reported = record {
  same = record {
    accounts = same.accounts;
    bindings = same.bindings;
    profiles = same.profiles;
    runs = same.runs;
  };
  row = row;
  found =
      ap (λ (l : List ApifyItem). find (item_is context index hash) (l ++ row ∷ [])) items
      ∙ find-append_none (item_is context index hash) s.items row fresh
      ∙ rw (is, if◌then◌else◌);
  reported = reported;
  older = λ p r h.
      ap (λ (l : List ApifyItem). find p (l ++ row ∷ [])) items
      ∙ find-append_old p s.items (row ∷ []) r h;
}

module _ (env : Env) (context : RunContext) (index : ℕ) (payload : Json) (s : Store) where
  finish_item-Recorded :
      (r : Processed)
      → find (item_is context index (payload_hash env payload)) s.items ≡ none
      → Keeps (new_item env context index payload) s r
      → let done = finish_item env (new_item env context index payload) s r in
        Recorded context index (payload_hash env payload) s done.0 done.1
  unfolding finish_item
  finish_item-Recorded (ok ((o, row), s')) fresh keeps =
      added-Recorded context index (payload_hash env payload) s s' o row fresh keeps.0 keeps.1
        (item_is-SameKey env context index payload row keeps.2) keeps.3
  finish_item-Recorded (err name) fresh keeps =
      added-Recorded context index (payload_hash env payload) s s (outcome ignored false)
        (failed_item env name (new_item env context index payload)) fresh (Same-refl s) refl
        (item_is-SameKey env context index payload
          (failed_item env name (new_item env context index payload))
          (record { account = refl; run = refl; index = refl; hash = refl }))
        refl

  pub import_one_item-Recorded :
      let done = import_one_item env context index payload s in
      Recorded context index (payload_hash env payload) s done.0 done.1
  unfolding import_one_item
  import_one_item-Recorded =
      elim (Option-cases (find (item_is context index (payload_hash env payload)) s.items)) [
        | inl fresh ↦
            rw (fresh, import_one_item)
              (finish_item-Recorded _ fresh (
                process_new_item-Keeps env context index (new_item env context index payload)
                  (stored_payload payload) s))
        | inr (old, there) ↦
            rw (there, import_one_item)
              (record {
                same = Same-refl s;
                row = old;
                found = there;
                reported = refl;
                older = λ p r h. h;
              })
      ]
