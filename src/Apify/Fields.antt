-- ===== src/Apify/Fields.antt =====
-- app/services/apify_normalizer.py: the paths that a schema names, and the value of each field of a lead.
use Prim.Native.String.{◌++◌ as text_append, String}
use text.Mathlib.Text.{◌==◌ as str_eq}
use auto_bot_lbc_pj.Prelude.{
  ℤ, pos, Bool, ◌&&◌, ◌||◌, List, [], ◌∷◌, ◌++◌, Option, none, some, ltb, if◌then◌else◌, any,
  select, map, contains,
}
use auto_bot_lbc_pj.Apify.Payload.{
  Json, Members, truth, number, object, end, member, Flattened, member_path,
}
use auto_bot_lbc_pj.Apify.Candidates.{
  TextLibrary, FieldCandidate, Collected, to_text, field_key, one_of,
}

get_member : String → Members → Option Json
get_member name end = none
get_member name (member key value rest) =
    if str_eq key name then some value else get_member name rest

-- `str(child.get(name) or "")` and `child.get(name, "")` in a text.
or_nothing : TextLibrary → Option Json → String
or_nothing lib none = ""
or_nothing lib (some value) = if lib.truthy value then to_text lib value else ""

or_missing : TextLibrary → Option Json → String
or_missing lib none = ""
or_missing lib (some value) = to_text lib value

marked : TextLibrary → String → Members → Bool
unfolding get_member or_nothing or_missing
marked lib name child =
    let description = lib.lower (or_nothing lib (get_member "description" child)) in
    let form = or_missing lib (get_member "format" child) in
    let marker =
      lib.lower
        (text_append name (text_append " " (text_append description (text_append " " form)))) in
    any (λ word. contains marker word) ("phone" ∷ "telephone" ∷ "mobile" ∷ "contact" ∷ [])

-- The paths of a schema that name a contact; the source gathers them in a set, from a stack.
unfoldable mutual
  unfolding marked

  schema_contact_paths : TextLibrary → String → Members → List String
  schema_contact_paths lib path end = []
  schema_contact_paths lib path (member key value rest) =
      let later = schema_contact_paths lib path rest in
      let here = property_paths lib path value in if str_eq key "properties" then here else later

  property_paths : TextLibrary → String → Json → List String
  property_paths lib path (object properties) = child_paths lib path properties
  property_paths lib path _ = []

  child_paths : TextLibrary → String → Members → List String
  child_paths lib path end = []
  child_paths lib path (member name child rest) =
      child_path lib (member_path path name) name child ++ child_paths lib path rest

  child_path : TextLibrary → String → String → Json → List String
  child_path lib path name (object ms) =
      (if marked lib name ms then path ∷ [] else []) ++ schema_contact_paths lib path ms
  child_path lib path name _ = []

unfoldable pub schema_paths_of : TextLibrary → (schema : Option Json) → List String
unfolding schema_contact_paths
schema_paths_of lib (some (object ms)) = schema_contact_paths lib "" ms
schema_paths_of lib _ = []

-- The first of the candidates with the highest score.
best_from : FieldCandidate Json → List (FieldCandidate Json) → FieldCandidate Json
best_from c [] = c
best_from c (d ∷ rest) = best_from (if ltb c.2 d.2 then d else c) rest

best_of : List (String × FieldCandidate Json) → Option (FieldCandidate Json)
unfolding best_from
best_of [] = none
best_of ((field, c) ∷ rest) =
    some (best_from c (map (λ (entry : String × FieldCandidate Json). entry.1) rest))

unfoldable pub best_candidate : String → Collected → Option (FieldCandidate Json)
unfolding best_of
best_candidate field found = best_of (select (λ entry. str_eq entry.0 field) found.fields)

unfoldable pub integer_of : TextLibrary → Json → Option ℤ
integer_of lib (truth b) = none
integer_of lib (number s n) = some n
integer_of lib value = elim (lib.find_number (to_text lib value)) [
  | none ↦ none
  | some match ↦
      let digits = lib.only_digits match in
      if str_eq digits "" then none else some (pos (lib.int digits))
]

unfoldable pub infer_source_platform : TextLibrary → Flattened → String
infer_source_platform lib [] = "other"
infer_source_platform lib ((path, value) ∷ rest) =
    let text = lib.lower (to_text lib value) in
    let later = infer_source_platform lib rest in
    if contains text "leboncoin.fr"
      || (one_of (field_key lib path) ("source" ∷ "platform" ∷ []) && str_eq text "leboncoin")
    then "leboncoin"
    else if contains text "lacentrale.fr" || contains text "la_centrale"
    then "la_centrale"
    else later
