-- ===== src/Apify/Fallback.antt =====
-- app/services/apify_normalizer.py: `normalize_apify_item_with_fallback`, and `infer_apify_lead_fields` of
-- app/boundaries.py, which it asks.
use Prim.Native.String.{count, String}
use auto_bot_lbc_pj.Prelude.{
  Bool, true, false, not, ◌||◌, List, [], ◌∷◌, Option, none, some, leb, if◌then◌else◌, select, take,
  map, update_texts,
}
use auto_bot_lbc_pj.Inbox.Phones.{extract_phone}
use auto_bot_lbc_pj.Apify.Payload.{
  Json, Members, null, string, array, object, end, member, Flattened,
}
use auto_bot_lbc_pj.Apify.Candidates.{TextLibrary, to_text, one_of, profile_mappings, lookup_value}
use auto_bot_lbc_pj.Apify.Normalize.{
  LeadStatus, actionable, NormalizedApifyLead, flattened_payload, normalize_mapped,
  normalize_apify_item,
}

-- The answer of the language model, read as JSON, to the values and their paths; `none`: the call raises.
abbrev pub AskModel : Type 0
AskModel = Flattened → List String → Option Json

-- The entries whose value is one of the paths that were offered.
offered : List String → Members → List (String × String)
offered paths end = []
offered paths (member key (string path) rest) =
    let later = offered paths rest in if one_of path paths then (key, path) ∷ later else later
offered paths (member key _ rest) = offered paths rest

read_answer : List String → Json → List (String × String)
unfolding offered
read_answer paths (object ms) = offered paths ms
read_answer paths _ = []

unfoldable pub infer_apify_lead_fields :
    AskModel → Flattened → (candidate_paths : List String) → Option (List (String × String))
unfolding read_answer
infer_apify_lead_fields ask payload paths = elim (ask payload paths) [
  | none ↦ none
  | some answer ↦ some (read_answer paths answer)
]

unfoldable pub some_text_has_phone : TextLibrary → Flattened → Bool
some_text_has_phone lib [] = false
some_text_has_phone lib ((path, string s) ∷ rest) =
    elim (extract_phone lib.phones s) [ none ↦ false | some phone ↦ true ]
    || some_text_has_phone lib rest
some_text_has_phone lib ((path, _) ∷ rest) = some_text_has_phone lib rest

-- A text, a truth value or a number of at most 2000 characters.
is_bounded : TextLibrary → Json → Bool
is_bounded lib null = false
is_bounded lib (array es) = false
is_bounded lib (object ms) = false
is_bounded lib leaf = leb (count (to_text lib leaf)) 2000

bounded_of : TextLibrary → Flattened → Flattened
unfolding is_bounded
bounded_of lib flattened = take 100 (select (λ entry. is_bounded lib entry.1) flattened)

has_path : Flattened → String × String → Bool
has_path flattened (field, path) = elim (lookup_value path flattened) [
  | none ↦ false
  | some v ↦ true
]

is_actionable : LeadStatus → Bool
is_actionable actionable = true
is_actionable _ = false

-- The lead with the fields that the language model found, over those of the profile.
unfoldable pub normalize_inferred :
    TextLibrary
    → (schema profile : Option Json) → Json
    → Option (List (String × String))
    → Option NormalizedApifyLead
unfolding has_path
normalize_inferred lib schema profile payload none = none
normalize_inferred lib schema profile payload (some inferred) =
    let known = select (has_path (flattened_payload lib payload)) inferred in
    some (normalize_mapped lib schema (update_texts (profile_mappings profile) known) payload)

-- `none`: the call of the language model raised.
unfoldable pub normalize_apify_item_with_fallback :
    TextLibrary
    → AskModel
    → (apify_ai_fallback_enabled : Bool) (schema profile : Option Json) → Json
    → Option NormalizedApifyLead
unfolding is_actionable bounded_of
normalize_apify_item_with_fallback lib ask enabled schema profile payload =
    let result = normalize_apify_item lib schema profile payload in
    let flattened = flattened_payload lib payload in
    let bounded = bounded_of lib flattened in
    let paths = map (λ (entry : String × Json). entry.0) bounded in
    if is_actionable result.status || not enabled
    then some result
    else if some_text_has_phone lib flattened
    then normalize_inferred lib schema profile payload (infer_apify_lead_fields ask bounded paths)
    else some result
