-- ===== src/Inbox/Classify.antt =====
-- `classify_sms`: what a message means for the sequences of its sender.
use text.Mathlib.Text.{◌==◌ as str_eq}
use auto_bot_lbc_pj.Prelude.{
  String, Bool, true, ◌||◌, List, [], ◌∷◌, ◌≡◌, ◌≢◌, refl, inl, inr, Bool-cases, arith, any,
  contains, contains-append, if◌then◌else◌,
}
use auto_bot_lbc_pj.Models.{SmsClassification}

abbrev stop_words : List String
stop_words = "stop" ∷ "arret" ∷ "arrêt" ∷ "desabonnement" ∷ "désabonnement" ∷ []

abbrev positive_words : List String
positive_words = "intéressé" ∷ "interesse" ∷ "disponible" ∷ "appelez" ∷ "appellez" ∷ "oui" ∷ []

abbrev negative_words : List String
negative_words = "pas intéressé" ∷ "pas interesse" ∷ "vendu" ∷ "non merci" ∷ []

abbrev question_words : List String
question_words = "combien" ∷ "prix" ∷ "kilométrage" ∷ "kilometrage" ∷ "où" ∷ "ou " ∷ []

-- `body in {...}`, `_STOP_KEYWORDS` of the webhook.
abbrev pub is_stop_word : String → Bool
is_stop_word text = any (str_eq text) stop_words

abbrev mentions : String → List String → Bool
mentions text words = any (contains text) words

-- On the normalised text.
unfoldable pub classify_text : String → SmsClassification
classify_text text =
    if is_stop_word text
    then SmsClassification.stop
    else if mentions text positive_words
    then SmsClassification.positive
    else if mentions text negative_words
    then SmsClassification.negative
    else if mentions text question_words
    then SmsClassification.information
    else if str_eq text ""
    then SmsClassification.invalid
    else SmsClassification.ambiguous

-- `squeeze` is Python's `" ".join(body.lower().strip().split())`.
unfoldable pub classify_sms : (squeeze : String → String) → String → SmsClassification
unfolding classify_text
classify_sms squeeze body = classify_text (squeeze body)

or_true : (b : Bool) → (b || true) ≡ true
or_true b = ground arith

interested_mentions :
    (text : String)
    → (contains text "pas intéressé" || contains text "pas interesse") ≡ true
    → mentions text positive_words ≡ true
interested_mentions text h = elim (Bool-cases (contains text "pas intéressé")) [
  | inl accented ↦ rw (contains-append text "pas " "intéressé" accented) refl
  | inr other ↦
      let plain = contains-append text "pas " "interesse" (rw other at h) in
      rw plain (or_true (contains text "intéressé"))
]

-- A text that says "pas intéressé" or "pas interesse", or any other text with these words, is never
-- classified as negative.
pub classify_text-ne-negative :
    (text : String)
    → (contains text "pas intéressé" || contains text "pas interesse") ≡ true
    → classify_text text ≢ SmsClassification.negative
unfolding classify_text
classify_text-ne-negative text h = elim (Bool-cases (is_stop_word text)) [
  | inl stop ↦ rw (stop, classify_text) (λ e. cc)
  | inr other ↦ rw (other, interested_mentions text h, classify_text) (λ e. cc)
]
