-- ===== src/Apify/Verdict.antt =====
-- app/services/apify_normalizer.py: the phones of a payload, and what becomes of it.
use auto_bot_lbc_pj.Prelude.{
  String, Bool, true, false, List, [], ◌∷◌, ◌++◌, Option, none, some, if◌then◌else◌, Bool-cases,
  Option-cases, inl, inr, lookup_text, ◌≡◌, refl, sym, subst, ap, ◌∙◌, arith, str_eq,
}
use mathlib.Core.List.{append-nil, append_assoc}
use auto_bot_lbc_pj.Inbox.Phones.{extract_phone}
use auto_bot_lbc_pj.Apify.Payload.{
  Json, null, truth, string, number, array, object, Flattened, size,
}
use auto_bot_lbc_pj.Apify.Flatten.{visit, flatten_payload-visit}
use auto_bot_lbc_pj.Apify.Candidates.{
  TextLibrary, FieldCandidate, Collected, candidate_text, score_phone_candidate, profile_mappings,
  add_if, collect_text, if_text, collect_numbers, collect_value, collect_values, collect_mapping,
  collect_mappings, collect_candidates, nothing_found,
}
use auto_bot_lbc_pj.Apify.Fields.{schema_paths_of}
use auto_bot_lbc_pj.Apify.Normalize.{
  has_phone_shape, flattened_payload, normalize_mapped, normalize_apify_item,
}
use auto_bot_lbc_pj.Apify.Clear.{Verdict, lead_of-Verdict}

module _ (lib : TextLibrary) (schema_paths : List String) (preferred : Option String) where
  -- The phones in the values of a payload, with their paths and scores, in order.
  pub phones_in : Flattened → List (FieldCandidate String)
  phones_in [] = []
  phones_in ((path, value) ∷ rest) =
      let later = phones_in rest in
      elim (extract_phone lib.phones (candidate_text lib value))
        as (λ _. List (FieldCandidate String)) [
          | none ↦ later
          | some phone ↦
              (path, phone, score_phone_candidate lib schema_paths preferred path) ∷ later
        ]

add_if-phones :
    (test : Bool) (field : String) (c : FieldCandidate Json) (found : Collected)
    → (add_if test field c found).phones ≡ found.phones
unfolding add_if
add_if-phones true field c found = refl
add_if-phones false field c found = refl

collect_text-phones :
    (lib : TextLibrary) (path text : String) (found : Collected)
    → (collect_text lib path text found).phones ≡ found.phones
unfolding collect_text
collect_text-phones lib path text found = simp (add_if-phones)

collect_numbers-phones :
    (lib : TextLibrary) (path : String) (value : Json) (found : Collected)
    → (collect_numbers lib path value found).phones ≡ found.phones
unfolding collect_numbers
collect_numbers-phones lib path value found = simp (add_if-phones)

if_text-phones :
    (lib : TextLibrary) (path : String) (value : Json) (found : Collected)
    → (if_text lib path value found).phones ≡ found.phones
unfolding if_text
if_text-phones lib path (string s) found = elim (Bool-cases (str_eq (lib.strip s) "")) [
  | inl empty ↦ rw (empty, if◌then◌else◌)
  | inr full ↦ rw (full, if◌then◌else◌) (collect_text-phones lib path s found)
]
if_text-phones lib path null found = refl
if_text-phones lib path (truth b) found = refl
if_text-phones lib path (number s n) found = refl
if_text-phones lib path (array es) found = refl
if_text-phones lib path (object ms) found = refl

module _ (lib : TextLibrary) (schema_paths : List String) (preferred : Option String) where
  collect_values-phones :
      (flattened : Flattened) (found : Collected)
      → (collect_values lib schema_paths preferred flattened found).phones
        ≡ found.phones ++ phones_in lib schema_paths preferred flattened
  unfolding phones_in collect_value
  collect_values-phones [] found = sym (append-nil found.phones)
  collect_values-phones ((path, value) ∷ rest) found =
      elim (Option-cases (extract_phone lib.phones (candidate_text lib value))) [
        | inl missing ↦
            collect_values-phones rest (collect_value lib schema_paths preferred path value found)
            ∙ rw (missing, phones_in)
                (ap
                  (λ (ps : List (FieldCandidate String)).
                    ps ++ phones_in lib schema_paths preferred rest)
                  (collect_numbers-phones lib path value (if_text lib path value found)
                    ∙ if_text-phones lib path value found))
        | inr (phone, there) ↦
            collect_values-phones rest (collect_value lib schema_paths preferred path value found)
            ∙ rw (there, phones_in) (simp (collect_numbers-phones, if_text-phones, append_assoc))
      ]

module _ (lib : TextLibrary) (schema_paths : List String) where
  collect_mappings-phones :
      (flattened : Flattened) (mappings : List (String × String)) (found : Collected)
      → (collect_mappings flattened mappings found).phones ≡ found.phones
  collect_mappings-phones flattened [] found = refl
  collect_mappings-phones flattened ((field, path) ∷ rest) found =
      collect_mappings-phones flattened rest (collect_mapping flattened field path found)
      ∙ ground arith

  collect_candidates-phones :
      (mappings : List (String × String)) (flattened : Flattened)
      → (collect_candidates lib schema_paths mappings flattened).phones
        ≡ phones_in lib schema_paths (lookup_text "phone" mappings) flattened
  unfolding collect_candidates
  collect_candidates-phones mappings flattened =
      collect_mappings-phones flattened mappings
        (collect_values lib schema_paths (lookup_text "phone" mappings) flattened nothing_found)
      ∙ collect_values-phones lib schema_paths (lookup_text "phone" mappings) flattened
          nothing_found

pub flattened_payload-visit :
    (lib : TextLibrary) (payload : Json)
    → flattened_payload lib payload ≡ visit lib.show "" 0 payload []
unfolding flattened_payload
flattened_payload-visit lib payload =
    rw (flatten_payload-visit lib.show payload (size payload) (omega arith), flattened_payload)

-- The values of a payload, by its recursion, and the phones in them.
abbrev pub phones_of :
    TextLibrary
    → (schema : Option Json) (profile : Option Json) → Json
    → List (FieldCandidate String)
phones_of lib schema profile payload =
    phones_in lib (schema_paths_of lib schema) (lookup_text "phone" (profile_mappings profile))
      (visit lib.show "" 0 payload [])

-- A lead is actionable for a phone of the payload that beats every other one by ten points; it is an
-- exception, without a phone, when two different phones at the top are closer; without any phone it is
-- rejected if some text has the shape of one, and not actionable otherwise. The phones are those in the
-- values that a depth-first recursion finds, each with the score of its path.
pub normalize_apify_item-Verdict :
    (lib : TextLibrary) (schema : Option Json) (profile : Option Json) (payload : Json)
    → let lead = normalize_apify_item lib schema profile payload in
      Verdict
        (has_phone_shape lib (visit lib.show "" 0 payload []))
        (phones_of lib schema profile payload)
        lead
        lead.status
unfolding normalize_apify_item normalize_mapped
normalize_apify_item-Verdict lib schema profile payload =
    let flattened = flattened_payload lib payload in
    let paths = schema_paths_of lib schema in
    let mappings = profile_mappings profile in
    let found = collect_candidates lib paths mappings flattened in
    let phones =
      collect_candidates-phones lib paths mappings flattened
      ∙ ap (phones_in lib paths (lookup_text "phone" mappings))
          (flattened_payload-visit lib payload) in
    let verdict = lead_of-Verdict lib flattened found in
    let lead = normalize_apify_item lib schema profile payload in
    subst
      (λ (ps : List (FieldCandidate String)).
        Verdict (has_phone_shape lib (visit lib.show "" 0 payload [])) ps lead lead.status)
      phones
      (subst (λ (f : Flattened). Verdict (has_phone_shape lib f) found.phones lead lead.status)
        (flattened_payload-visit lib payload) verdict)
