-- ===== src/Inbox/Imported.antt =====
-- app/services/apify_ingestion.py: an import leaves the contacts alone that are not active.
use auto_bot_lbc_pj.Prelude.{
  ℕ, String, Option, none, some, find, refl, inl, inr, Bool-cases, Option-cases, Result-cases,
  Returns_ok, ok, err,
}
use text.Mathlib.Text.{◌==◌ as str_eq}
use auto_bot_lbc_pj.Models.{ListingSource}
use auto_bot_lbc_pj.Tables.{Db}
use auto_bot_lbc_pj.Inbox.Contacts.{ensure_contact_sequence_in_session}
use auto_bot_lbc_pj.Inbox.Silence.{Inactive, Silent, Silent-trans, Silent-refl}
use auto_bot_lbc_pj.Inbox.Ensured.{ensure_session-Silent}
use auto_bot_lbc_pj.Apify.Payload.{Json}
use auto_bot_lbc_pj.Apify.Normalize.{LeadStatus, NormalizedApifyLead}
use auto_bot_lbc_pj.Apify.Fallback.{normalize_apify_item_with_fallback}
use auto_bot_lbc_pj.Apify.Rows.{ApifyItem, Store}
use auto_bot_lbc_pj.Apify.Items.{
  Env, RunContext, payload_hash, stored_payload, item_is, new_item, store_listing, source_of,
  upsert_listing,
}
use auto_bot_lbc_pj.Apify.Ingestion.{
  Processed, link_contact, import_phone, process_lead, process_new_item, lead_phone, ignored_item,
  exceptional_item, sequence_context, finish_item, import_one_item,
}

module _ (i : ℕ) where
  store_listing-Silent :
      (env : Env) (context : RunContext) (index : ℕ) (source : ListingSource) (url : String)
      (lead : NormalizedApifyLead) (payload : Json) (db : Db)
      → Inactive i db
      → Silent i db (store_listing env context index source url lead payload db).1
  unfolding store_listing
  store_listing-Silent env context index source url lead payload db h =
      elim (Option-cases (find (λ l. str_eq l.url url) db.listings)) [
        | inl new ↦ rw (new, store_listing) (record { still = h; none_more = refl })
        | inr (l, there) ↦ rw (there, store_listing) (record { still = h; none_more = refl })
      ]

  upsert_listing-Silent :
      (env : Env) (context : RunContext) (index : ℕ) (lead : NormalizedApifyLead) (payload : Json)
      (db : Db)
      → Inactive i db
      → Silent i db (upsert_listing env context index lead payload db).1
  unfolding upsert_listing
  upsert_listing-Silent env context index lead payload db h = elim (Option-cases lead.url) [
    | inl none_there ↦ rw (none_there, upsert_listing) (Silent-refl i db h)
    | inr (url, there) ↦ elim (Option-cases (source_of lead.source_platform)) [
      | inl other ↦ rw (there, other, upsert_listing) (Silent-refl i db h)
      | inr (source, known) ↦ elim (Bool-cases (str_eq url "")) [
        | inl empty ↦ rw (there, known, empty, upsert_listing) (Silent-refl i db h)
        | inr full ↦
            rw (there, known, full, upsert_listing)
              (store_listing-Silent env context index source url lead payload db h)
      ]
    ]
  ]

  link_contact-Silent :
      (listing contact : Option ℕ) (a b : Db)
      → Silent i a b
      → Silent i a (link_contact listing contact b)
  unfolding link_contact
  link_contact-Silent (some l) (some c) a b s = record { still = s.still; none_more = s.none_more }
  link_contact-Silent (some l) none a b s = s
  link_contact-Silent none contact a b s = s

  abbrev Quiet : Store → Processed → Type 0
  Quiet s (ok (x, s')) = Silent i s.db s'.db
  Quiet s (err name) = Unit

  import_phone-Quiet :
      (env : Env) (context : RunContext) (index : ℕ) (item : ApifyItem) (payload : Json)
      (lead : NormalizedApifyLead) (phone : String) (s : Store)
      → Inactive i s.db
      → Quiet s (import_phone env context index item payload lead phone s)
  unfolding import_phone
  import_phone-Quiet env context index item payload lead phone s h =
      let listed = upsert_listing env context index lead payload s.db in
      let first = upsert_listing-Silent env context index lead payload s.db h in
      let session =
        ensure_contact_sequence_in_session (env.outside index) phone context.campaign_id listed.0
          (sequence_context env lead) listed.1 in
      let second =
        ensure_session-Silent i (env.outside index) phone context.campaign_id listed.0
          (sequence_context env lead) listed.1 first.still in
      elim (Result-cases session) [
        | inr (e, bad) ↦ rw (bad, import_phone) tt
        | inl ((ensured, db), good) ↦
            rw (good, import_phone)
              (link_contact-Silent listed.0 ensured.contact_id s.db db (
                Silent-trans i first
                  λ k. Returns_ok (λ _. Silent i listed.1) session ensured db good second))
      ]

  process_lead-Quiet :
      (env : Env) (context : RunContext) (index : ℕ) (item : ApifyItem) (payload : Json)
      (lead : NormalizedApifyLead) (status : LeadStatus) (s : Store)
      → Inactive i s.db
      → Quiet s (process_lead env context index item payload lead status s)
  unfolding process_lead exceptional_item ignored_item
  process_lead-Quiet env context index item payload lead LeadStatus.exception s h =
      Silent-refl i s.db h
  process_lead-Quiet env context index item payload lead LeadStatus.actionable s h =
      elim (Option-cases (lead_phone lead)) [
        | inl nothing ↦ rw (nothing, process_lead) (Silent-refl i s.db h)
        | inr (phone, there) ↦
            rw (there, process_lead)
              (import_phone-Quiet env context index item payload lead phone s h)
      ]
  process_lead-Quiet env context index item payload lead LeadStatus.rejected s h =
      Silent-refl i s.db h
  process_lead-Quiet env context index item payload lead LeadStatus.non_actionable s h =
      Silent-refl i s.db h

  process_new_item-Quiet :
      (env : Env) (context : RunContext) (index : ℕ) (item : ApifyItem) (payload : Json) (s : Store)
      → Inactive i s.db
      → Quiet s (process_new_item env context index item payload s)
  unfolding process_new_item
  process_new_item-Quiet env context index item payload s h =
      elim (Option-cases (
        normalize_apify_item_with_fallback env.lib env.ask env.apify_ai_fallback_enabled none
          context.profile payload)) [
            | inl raised ↦ rw (raised, process_new_item) tt
            | inr (lead, made) ↦
                rw (made, process_new_item)
                  (process_lead-Quiet env context index item payload lead lead.status s h)
          ]

  finish_item-Silent :
      (env : Env) (item : ApifyItem) (s : Store) (r : Processed)
      → Inactive i s.db
      → Quiet s r
      → Silent i s.db (finish_item env item s r).1.db
  unfolding finish_item
  finish_item-Silent env item s (ok ((o, row), s')) h q = q
  finish_item-Silent env item s (err name) h q = Silent-refl i s.db h

  pub import_one_item-Silent :
      (env : Env) (context : RunContext) (index : ℕ) (payload : Json) (s : Store)
      → Inactive i s.db
      → Silent i s.db (import_one_item env context index payload s).1.db
  unfolding import_one_item
  import_one_item-Silent env context index payload s h =
      let item = new_item env context index payload in
      elim (Option-cases (find (item_is context index (payload_hash env payload)) s.items)) [
        | inr (old, there) ↦ rw (there, import_one_item) (Silent-refl i s.db h)
        | inl fresh ↦
            rw (fresh, import_one_item)
              (finish_item-Silent env item s
                (process_new_item env context index item (stored_payload payload) s) h
                (process_new_item-Quiet env context index item (stored_payload payload) s h))
      ]
