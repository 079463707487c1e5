-- ===== src/Inbox/Ensured.antt =====
-- app/services/sms_sequence.py: a new sequence leaves the contacts alone that are not active.
use auto_bot_lbc_pj.Prelude.{
  ℕ, String, List, Option, find, refl, inl, inr, Bool-cases, Option-cases, Returns,
}
use auto_bot_lbc_pj.Models.{contact_is_active}
use auto_bot_lbc_pj.Tables.{Contact, Db}
use auto_bot_lbc_pj.Sms.Blacklist.{is_blacklisted}
use auto_bot_lbc_pj.Inbox.Phones.{extract_phone}
use auto_bot_lbc_pj.Inbox.Contacts.{
  Outside, by_phone, pair_is, new_contact, ensure_contact, ensure_sequence,
  ensure_contact_sequence_in_session, campaign_runs,
}
use auto_bot_lbc_pj.Inbox.Silence.{Inactive, Silent, Silent-trans, Silent-refl, add_contact-Silent}

module _ (i : ℕ) where
  ensure_sequence-Silent :
      (out : Outside) (phone : String) (campaign : ℕ) (listing : Option ℕ)
      (context : List (String × String)) (c : Contact) (db : Db)
      → Inactive i db
      → Silent i db (ensure_sequence out phone campaign listing context c db).1
  unfolding ensure_sequence
  ensure_sequence-Silent out phone campaign listing context c db h =
      elim (Option-cases (find (pair_is c.id campaign) db.sequences)) [
        | inl new ↦ rw (new, ensure_sequence) (record { still = h; none_more = refl })
        | inr (s, there) ↦ rw (there, ensure_sequence) (record { still = h; none_more = refl })
      ]

  ensure_contact-Silent :
      (out : Outside) (phone : String) (campaign : ℕ) (listing : Option ℕ)
      (context : List (String × String)) (db : Db)
      → Inactive i db
      → Silent i db (ensure_contact out phone campaign listing context db).1
  unfolding ensure_contact
  ensure_contact-Silent out phone campaign listing context db h =
      elim (Option-cases (by_phone phone db)) [
        | inl nobody ↦
            rw (nobody, ensure_contact)
              (Silent-trans i (add_contact-Silent i (new_contact out.new_contact phone) db h)
                (ensure_sequence-Silent out phone campaign listing context _ _))
        | inr (c, there) ↦ elim (Bool-cases (contact_is_active c.status)) [
          | inl on ↦
              rw (there, on, ensure_contact)
                (ensure_sequence-Silent out phone campaign listing context c db h)
          | inr off ↦ rw (there, off, ensure_contact) (Silent-refl i db h)
        ]
      ]

  pub ensure_session-Silent :
      (out : Outside) (phone : String) (campaign : ℕ) (listing : Option ℕ)
      (context : List (String × String)) (db : Db)
      → Inactive i db
      → Returns
          (λ _. Silent i db)
          (ensure_contact_sequence_in_session out phone campaign listing context db)
  unfolding ensure_contact_sequence_in_session
  ensure_session-Silent out phone campaign listing context db h =
      elim (Option-cases (extract_phone out.phones phone)) [
        | inl bad ↦ rw (bad, ensure_contact_sequence_in_session) tt
        | inr (n, good) ↦ elim (Bool-cases (is_blacklisted n db)) [
          | inl listed ↦ rw (good, listed, ensure_contact_sequence_in_session) (Silent-refl i db h)
          | inr free ↦ elim (Bool-cases (campaign_runs campaign db)) [
            | inl runs ↦
                rw (good, free, runs, ensure_contact_sequence_in_session)
                  (ensure_contact-Silent out n campaign listing context db h)
            | inr ended ↦ rw (good, free, ended, ensure_contact_sequence_in_session) tt
          ]
        ]
      ]
