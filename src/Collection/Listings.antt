-- ===== src/Collection/Listings.antt =====
-- app/services/listing_persistence.py: listings are stored once for each address and for each content.
use text.Mathlib.Text.{◌==◌ as str_eq}
use Prim.Native.String.{◌++◌ as text_append}
use auto_bot_lbc_pj.Prelude.{
  ℕ, suc, String, Bool, false, ◌||◌, List, [], ◌∷◌, ◌++◌, Option, none, some, ◌==◌, if◌then◌else◌,
  any,
}
use auto_bot_lbc_pj.Models.{ListingSource, ListingStatus, source_value}

-- What the scrapers return.
pub record RawListing : Type 0 where
  pub source : ListingSource
  pub url : String
  pub title : Option String
  pub price : Option ℕ
  pub km : Option ℕ
  pub location : Option String
  pub phone : Option String
  pub raw_data : Option String
  pub make : Option String
  pub model : Option String
  pub year : Option ℕ
  pub fuel : Option String
  pub transmission : Option String

-- A row of the table `listings`, with the columns that an insertion writes. The table has rows of other writers too,
-- and Apify's rows have no hash.
pub record StoredListing : Type 0 where
  pub values : RawListing
  pub content_hash : Option String
  pub sector_id : Option ℕ
  pub status : ListingStatus

-- Python's `str.strip().lower()`, `str` of a number, and sha256 in hexadecimal.
pub record Texts : Type 0 where
  pub strip_lower : String → String
  pub show : ℕ → String
  pub sha256 : String → String

abbrev text_or_empty : Option String → String
text_or_empty none = ""
text_or_empty (some t) = t

-- `str(value or "")`: 0 is falsy.
abbrev number_or_empty : (show : ℕ → String) → Option ℕ → String
number_or_empty show none = ""
number_or_empty show (some n) = if n == 0 then "" else show n

abbrev bar : String → String → String
bar a b = text_append a (text_append "|" b)

unfoldable pub listing_content_hash : Texts → RawListing → String
listing_content_hash texts listing =
    let tidy = texts.strip_lower in
    texts.sha256 (
      bar (tidy (source_value listing.source)) (
        bar (tidy (text_or_empty listing.title)) (
          bar (tidy (number_or_empty texts.show listing.price)) (
            bar (tidy (number_or_empty texts.show listing.km))
              (tidy (text_or_empty listing.location))))))

abbrev pub new_row : Texts → Option ℕ → RawListing → StoredListing
new_row texts sector_id listing = record {
  values = listing;
  content_hash = some (listing_content_hash texts listing);
  sector_id = sector_id;
  status = ListingStatus.nouvelle;
}

-- A unique column takes any number of rows without a value.
abbrev pub same_hash : Option String → Option String → Bool
same_hash none b = false
same_hash (some a) none = false
same_hash (some a) (some b) = str_eq a b

-- The two unique columns.
abbrev pub conflicts : StoredListing → StoredListing → Bool
conflicts new old =
    str_eq old.values.url new.values.url || same_hash old.content_hash new.content_hash

pub record Persisted : Type 0 where
  pub inserted : ℕ
  pub skipped : ℕ

abbrev pub one_more_inserted : Persisted → Persisted
one_more_inserted p = record p { inserted = suc p.inserted }

abbrev pub one_more_skipped : Persisted → Persisted
one_more_skipped p = record p { skipped = suc p.skipped }

-- INSERT ... ON CONFLICT DO NOTHING RETURNING id, counted.
unfoldable pub insert_listing :
    StoredListing → Persisted × List StoredListing → Persisted × List StoredListing
insert_listing row (p, rows) =
    if any (conflicts row) rows
    then (one_more_skipped p, rows)
    else (one_more_inserted p, rows ++ row ∷ [])

abbrev pub persist_one :
    Texts → Option ℕ → RawListing → Persisted × List StoredListing → Persisted × List StoredListing
persist_one texts sector_id listing (p, rows) =
    if str_eq listing.url ""
    then (one_more_skipped p, rows)
    else insert_listing (new_row texts sector_id listing) (p, rows)

unfoldable pub persist_all :
    Texts
    → Option ℕ
    → List RawListing
    → Persisted × List StoredListing
    → Persisted × List StoredListing
persist_all texts sector_id [] done = done
persist_all texts sector_id (listing ∷ rest) done =
    persist_all texts sector_id rest (persist_one texts sector_id listing done)

unfoldable pub persist_listings :
    Texts → Option ℕ → List RawListing → List StoredListing → Persisted × List StoredListing
persist_listings texts sector_id listings rows =
    persist_all texts sector_id listings (record { inserted = 0; skipped = 0 }, rows)
