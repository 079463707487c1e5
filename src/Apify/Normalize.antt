-- ===== src/Apify/Normalize.antt =====
-- app/services/apify_normalizer.py: the lead that is made of a payload.
use Prim.Native.String.{String}
use mathlib.Core.Option.{map as map_option}
use auto_bot_lbc_pj.Prelude.{
  ℕ, ℤ, ◌-◌, Bool, false, true, ◌||◌, List, [], ◌∷◌, Option, none, some, ltb, if◌then◌else◌,
  put_text,
}
use auto_bot_lbc_pj.Apify.Payload.{Json, string, Flattened, size, flatten_payload}
use auto_bot_lbc_pj.Apify.Candidates.{
  TextLibrary, FieldCandidate, Collected, to_text, one_of, profile_mappings, collect_candidates,
}
use auto_bot_lbc_pj.Apify.Fields.{
  schema_paths_of, best_candidate, integer_of, infer_source_platform,
}

pub data LeadStatus : Type 0 where
  actionable non_actionable rejected exception : LeadStatus

-- `confidence` is the score, of which the source stores the 110th part.
pub record NormalizedApifyLead : Type 0 where
  pub source_platform : String
  pub source_item_id : Option String
  pub url : Option String
  pub title : Option String
  pub description : Option String
  pub phone_e164 : Option String
  pub price : Option ℤ
  pub mileage : Option ℤ
  pub location : Option String
  pub brand : Option String
  pub model : Option String
  pub year : Option ℤ
  pub seller_type : Option String
  pub confidence : ℕ
  pub status : LeadStatus
  pub error_code : Option String
  pub evidence : List (String × String)

-- `sorted(..., reverse=True)` by score, which keeps the order of equals.
unfoldable pub insert_sorted :
    FieldCandidate String → List (FieldCandidate String) → List (FieldCandidate String)
insert_sorted c [] = c ∷ []
insert_sorted c (d ∷ rest) =
    let later = insert_sorted c rest in if ltb c.2 d.2 then d ∷ later else c ∷ d ∷ rest

unfoldable pub by_score : List (FieldCandidate String) → List (FieldCandidate String)
by_score [] = []
by_score (c ∷ rest) = insert_sorted c (by_score rest)

-- The first candidate for each phone.
unfoldable pub unique_phones :
    (seen : List String) → List (FieldCandidate String) → List (FieldCandidate String)
unique_phones seen [] = []
unique_phones seen (c ∷ rest) =
    let skip = unique_phones seen rest in
    let keep = unique_phones (c.1 ∷ seen) rest in if one_of c.1 seen then skip else c ∷ keep

-- `unique_phones[0].score - unique_phones[1].score < 10`.
unfoldable pub ambiguous : List (FieldCandidate String) → Bool
ambiguous (c ∷ d ∷ rest) = ltb (c.2 - d.2) 10
ambiguous _ = false

unfoldable pub ambiguous_lead :
    TextLibrary → Flattened → List (FieldCandidate String) → NormalizedApifyLead
ambiguous_lead lib flattened unique = record {
  source_platform = infer_source_platform lib flattened;
  source_item_id = none;
  url = none;
  title = none;
  description = none;
  phone_e164 = none;
  price = none;
  mileage = none;
  location = none;
  brand = none;
  model = none;
  year = none;
  seller_type = none;
  confidence = elim unique [ [] ↦ 0 | c ∷ rest ↦ c.2 ];
  status = exception;
  error_code = some "ambiguous_phone";
  evidence = elim unique [ [] ↦ [] | c ∷ rest ↦ ("phone", c.0) ∷ [] ];
}

-- `evidence[field] = candidate.path` of the fields that were found, in their order.
evidence_of : Collected → List String → List (String × String)
unfolding best_candidate
evidence_of found [] = []
evidence_of found (field ∷ rest) = elim (best_candidate field found) [
  | none ↦ evidence_of found rest
  | some c ↦ (field, c.0) ∷ evidence_of found rest
]

abbrev lead_fields : List String
lead_fields =
    "title" ∷ "url" ∷ "description" ∷ "price" ∷ "mileage" ∷ "location" ∷ "brand" ∷ "model" ∷ "year"
    ∷ "seller_type" ∷ "source_item_id" ∷ []

phone_evidence : Option (FieldCandidate String) → List (String × String) → List (String × String)
phone_evidence none evidence = evidence
phone_evidence (some c) evidence = put_text "phone" c.0 evidence

unfoldable pub lead_status : Option (FieldCandidate String) → (has_phone_shape : Bool) → LeadStatus
lead_status (some c) shape = actionable
lead_status none true = rejected
lead_status none false = non_actionable

error_of : Option (FieldCandidate String) → (has_phone_shape : Bool) → Option String
error_of (some c) shape = none
error_of none true = some "invalid_phone"
error_of none false = none

unfoldable pub has_phone_shape : TextLibrary → Flattened → Bool
has_phone_shape lib [] = false
has_phone_shape lib ((path, string s) ∷ rest) = lib.phoneish s || has_phone_shape lib rest
has_phone_shape lib ((path, _) ∷ rest) = has_phone_shape lib rest

text_field : TextLibrary → String → Collected → Option String
text_field lib field found = map_option (λ c. to_text lib c.1) (best_candidate field found)

integer_field : TextLibrary → String → Collected → Option ℤ
integer_field lib field found = elim (best_candidate field found) [
  | none ↦ none
  | some c ↦ integer_of lib c.1
]

first_phone : List (FieldCandidate String) → Option (FieldCandidate String)
first_phone [] = none
first_phone (c ∷ rest) = some c

-- The lead of a payload whose phone is clear, or missing.
unfoldable pub selected_lead :
    TextLibrary → Flattened → Collected → Option (FieldCandidate String) → NormalizedApifyLead
unfolding evidence_of phone_evidence error_of has_phone_shape text_field integer_field
selected_lead lib flattened found phone = record {
  source_platform = infer_source_platform lib flattened;
  source_item_id = text_field lib "source_item_id" found;
  url = text_field lib "url" found;
  title = text_field lib "title" found;
  description = text_field lib "description" found;
  phone_e164 = map_option (λ c. c.1) phone;
  price = integer_field lib "price" found;
  mileage = integer_field lib "mileage" found;
  location = text_field lib "location" found;
  brand = text_field lib "brand" found;
  model = text_field lib "model" found;
  year = integer_field lib "year" found;
  seller_type = text_field lib "seller_type" found;
  confidence = elim phone [ none ↦ 0 | some c ↦ c.2 ];
  status = lead_status phone (has_phone_shape lib flattened);
  error_code = error_of phone (has_phone_shape lib flattened);
  evidence = phone_evidence phone (evidence_of found lead_fields);
}

-- The choice, from the phones in the order of their scores.
unfoldable pub choose_lead :
    TextLibrary
    → Flattened
    → Collected
    → (unique : List (FieldCandidate String)) → NormalizedApifyLead
unfolding first_phone
choose_lead lib flattened found unique =
    if ambiguous unique
    then ambiguous_lead lib flattened unique
    else selected_lead lib flattened found (first_phone unique)

unfoldable pub lead_of : TextLibrary → Flattened → Collected → NormalizedApifyLead
lead_of lib flattened found =
    choose_lead lib flattened found (unique_phones [] (by_score found.phones))

-- A round of the loop for each value of the payload is fuel enough.
unfoldable pub flattened_payload : TextLibrary → Json → Flattened
flattened_payload lib payload = elim (flatten_payload lib.show (size payload) payload) [
  | none ↦ []
  | some flattened ↦ flattened
]

unfoldable pub normalize_mapped :
    TextLibrary
    → (schema : Option Json) → (mappings : List (String × String)) → Json
    → NormalizedApifyLead
normalize_mapped lib schema mappings payload =
    let flattened = flattened_payload lib payload in
    lead_of lib flattened (collect_candidates lib (schema_paths_of lib schema) mappings flattened)

unfoldable pub normalize_apify_item :
    TextLibrary → (schema : Option Json) → (profile : Option Json) → Json → NormalizedApifyLead
normalize_apify_item lib schema profile payload =
    normalize_mapped lib schema (profile_mappings profile) payload
