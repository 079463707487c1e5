-- ===== src/Apify/Candidates.antt =====
-- app/services/apify_normalizer.py: the values of a payload that may be a field of the lead.
use Prim.Native.Char.{code}
use Prim.Native.String.{String}
use text.Mathlib.Text.{◌==◌ as str_eq}
use auto_bot_lbc_pj.Prelude.{
  ℕ, Bool, true, false, not, ◌&&◌, ◌||◌, List, [], ◌∷◌, ◌++◌, Option, none, some, ◌==◌, leb,
  if◌then◌else◌, any, contains, lookup_text, starts_with,
}
use auto_bot_lbc_pj.Inbox.Phones.{PhoneLibrary, extract_phone}
use auto_bot_lbc_pj.Apify.Payload.{
  Json, Members, null, truth, string, number, array, object, end, member, Flattened,
}

-- Python's `str` of a list or a dictionary and of an index, truth value, `lower` and `strip`; the search of `_integer`
-- for its number, its digits, and `int` of them; the search for `_PHONEISH_RE`.
pub record TextLibrary : Type 0 where
  pub repr : Json → String
  pub truthy : Json → Bool
  pub show : ℕ → String
  pub lower : String → String
  pub strip : String → String
  pub find_number : String → Option String
  pub only_digits : String → String
  pub int : String → ℕ
  pub phoneish : String → Bool
  pub phones : PhoneLibrary

abbrev pub FieldCandidate : Type 0 → Type 0
FieldCandidate A = String × A × ℕ

-- The phones under "phone", and the other fields' candidates, each in the order in which they were added.
pub record Collected : Type 0 where
  pub phones : List (FieldCandidate String)
  pub fields : List (String × FieldCandidate Json)

-- `str(value)`.
abbrev pub to_text : TextLibrary → Json → String
to_text lib (string s) = s
to_text lib (number s n) = s
to_text lib null = "None"
to_text lib (truth true) = "True"
to_text lib (truth false) = "False"
to_text lib (array es) = lib.repr (array es)
to_text lib (object ms) = lib.repr (object ms)

abbrev pub candidate_text : TextLibrary → Json → String
candidate_text lib null = ""
candidate_text lib value = to_text lib value

-- The two halves of `path.rsplit(".", 1)`, if there is a dot.
abbrev after_dot : String → Option String
after_dot String.[] = none
after_dot (String.◌∷◌ c s) = elim (after_dot s) [
  | some found ↦ some found
  | none ↦ if code c == 46 then some s else none
]

abbrev before_dot : String → Option String
before_dot String.[] = none
before_dot (String.◌∷◌ c s) = elim (before_dot s) [
  | some found ↦ some (String.◌∷◌ c found)
  | none ↦ if code c == 46 then some String.[] else none
]

-- `re.sub(r"[^a-z0-9]", "", s)`.
abbrev plain_letters : String → String
plain_letters String.[] = String.[]
plain_letters (String.◌∷◌ c s) =
    let n = code c in
    let rest = plain_letters s in
    if (leb 97 n && leb n 122) || (leb 48 n && leb n 57) then String.◌∷◌ c rest else rest

abbrev last_part : String → String
last_part path = elim (after_dot path) [ none ↦ path | some part ↦ part ]

unfoldable pub field_key : TextLibrary → String → String
field_key lib path = plain_letters (lib.lower (last_part path))

abbrev parent_of : TextLibrary → String → String
parent_of lib path = elim (before_dot path) [ none ↦ "" | some part ↦ lib.lower part ]

abbrev pub one_of : String → List String → Bool
one_of key names = any (λ name. str_eq name key) names

abbrev prefers : Option String → String → Bool
prefers none path = false
prefers (some preferred) path = str_eq preferred path

unfoldable pub score_phone_candidate :
    TextLibrary → (schema_paths : List String) (preferred_path : Option String) (path : String) → ℕ
score_phone_candidate lib schema_paths preferred_path path =
    let key = field_key lib path in
    if prefers preferred_path path
    then 110
    else if one_of path schema_paths
    then 100
    else if starts_with key "phone"
        || one_of key ("tel" ∷ "telephone" ∷ "mobile" ∷ "contactnumber" ∷ "phonenumber" ∷ [])
    then 80
    else 40

-- `mappings` of the profile, if there is one: the entries that are texts.
abbrev text_members : Members → List (String × String)
text_members end = []
text_members (member key (string s) rest) = (key, s) ∷ text_members rest
text_members (member key _ rest) = text_members rest

unfoldable pub profile_mappings : Option Json → List (String × String)
profile_mappings none = []
profile_mappings (some (object ms)) = text_members ms
profile_mappings (some _) = []

-- A new candidate, behind the older ones of its field.
abbrev pub add : String → FieldCandidate Json → Collected → Collected
add field candidate found = record found { fields = found.fields ++ (field, candidate) ∷ [] }

unfoldable pub add_if : Bool → String → FieldCandidate Json → Collected → Collected
add_if test field candidate found = if test then add field candidate found else found

abbrev pub add_phone : FieldCandidate String → Collected → Collected
add_phone candidate found = record found { phones = found.phones ++ candidate ∷ [] }

-- The fields that a text may be, by the last part of its path.
unfoldable pub collect_text : TextLibrary → (path : String) (text : String) → Collected → Collected
collect_text lib path text found0 =
    let key = field_key lib path in
    let parent = parent_of lib path in
    let kept = string (lib.strip text) in
    let titled = one_of key ("title" ∷ "adtitle" ∷ "listingtitle" ∷ []) in
    let named =
      str_eq key "name"
      && any (λ marker. contains parent marker) ("vehicle" ∷ "listing" ∷ "car" ∷ "ad" ∷ []) in
    let found1 = add_if titled "title" (path, kept, 80) found0 in
    let found2 = add_if (not titled && named) "title" (path, kept, 75) found1 in
    let urls = "url" ∷ "link" ∷ "listingurl" ∷ "adurl" ∷ [] in
    let found3 = add_if (one_of key urls) "url" (path, kept, 80) found2 in
    let bodies = "description" ∷ "body" ∷ "text" ∷ "details" ∷ [] in
    let found4 = add_if (one_of key bodies) "description" (path, kept, 80) found3 in
    let places = "location" ∷ "city" ∷ "address" ∷ "region" ∷ [] in
    let found5 = add_if (one_of key places) "location" (path, kept, 70) found4 in
    let brands = "brand" ∷ "make" ∷ "marque" ∷ [] in
    let found6 = add_if (one_of key brands) "brand" (path, kept, 80) found5 in
    let found7 = add_if (one_of key ("model" ∷ "modele" ∷ [])) "model" (path, kept, 80) found6 in
    let sellers = "sellertype" ∷ "ownertype" ∷ "accounttype" ∷ [] in
    let found8 = add_if (one_of key sellers) "seller_type" (path, kept, 75) found7 in
    let ids = "id" ∷ "itemid" ∷ "listingid" ∷ "adid" ∷ [] in
    add_if (one_of key ids) "source_item_id" (path, kept, 60) found8

unfoldable pub if_text : TextLibrary → String → Json → Collected → Collected
if_text lib path (string s) found =
    if str_eq (lib.strip s) "" then found else collect_text lib path s found
if_text lib path _ found = found

-- The fields that any value may be.
unfoldable pub collect_numbers : TextLibrary → String → Json → Collected → Collected
collect_numbers lib path value found =
    let key = field_key lib path in
    let found1 = add_if (one_of key ("price" ∷ "prix" ∷ [])) "price" (path, value, 80) found in
    let distances = "mileage" ∷ "kilometers" ∷ "kilometres" ∷ "km" ∷ [] in
    let found2 = add_if (one_of key distances) "mileage" (path, value, 80) found1 in
    add_if (one_of key ("year" ∷ "annee" ∷ [])) "year" (path, value, 80) found2

-- One round of the loop over the flattened payload.
unfoldable pub collect_value :
    TextLibrary
    → (schema_paths : List String) (preferred_path : Option String) → String
    → Json
    → Collected
    → Collected
collect_value lib schema_paths preferred path value found =
    let score = score_phone_candidate lib schema_paths preferred path in
    let with_phone =
      elim (extract_phone lib.phones (candidate_text lib value)) as (λ _. Collected) [
        | none ↦ found
        | some phone ↦ add_phone (path, phone, score) found
      ] in
    collect_numbers lib path value (if_text lib path value with_phone)

abbrev pub collect_values :
    TextLibrary → List String → Option String → Flattened → Collected → Collected
collect_values lib schema_paths preferred [] found = found
collect_values lib schema_paths preferred ((path, value) ∷ rest) found =
    collect_values lib schema_paths preferred rest
      (collect_value lib schema_paths preferred path value found)

abbrev pub lookup_value : String → Flattened → Option Json
lookup_value path [] = none
lookup_value path ((p, v) ∷ rest) = if str_eq p path then some v else lookup_value path rest

abbrev pub collect_mapping : Flattened → String → String → Collected → Collected
collect_mapping flattened field path found =
    if str_eq field "phone" then found else elim (lookup_value path flattened) [
      | none ↦ found
      | some v ↦ add field (path, v, 110) found
    ]

-- The fields that the profile maps to a path.
abbrev pub collect_mappings : Flattened → List (String × String) → Collected → Collected
collect_mappings flattened [] found = found
collect_mappings flattened ((field, path) ∷ rest) found =
    collect_mappings flattened rest (collect_mapping flattened field path found)

abbrev pub nothing_found : Collected
nothing_found = record { phones = []; fields = [] }

unfoldable pub collect_candidates :
    TextLibrary
    → (schema_paths : List String) (mappings : List (String × String)) → Flattened
    → Collected
collect_candidates lib schema_paths mappings flattened =
    collect_mappings flattened mappings
      (collect_values lib schema_paths (lookup_text "phone" mappings) flattened nothing_found)
