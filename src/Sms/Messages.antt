-- ===== src/Sms/Messages.antt =====
-- The texts and times of messages: the tables and helpers of app/services/sms_sequence.py, and
-- `render_sms_body` and the sending window of app/services/campaign_runner.py.
use Prim.Native.String.{◌++◌ as text_append}
use auto_bot_lbc_pj.Prelude.{
  ℕ, zero, suc, ◌+◌, ◌*◌, ◌/◌, ◌%◌, String, Bool, ◌&&◌, List, [], ◌∷◌, Option, none, some, leb, ltb,
  if◌then◌else◌, length,
}
use auto_bot_lbc_pj.Tables.{CampaignMessageTemplate}

-- app/config.py: `sms_hour_start`, `sms_hour_end`, `sms_stop_number`.
pub record Settings : Type 0 where
  pub sms_hour_start : ℕ
  pub sms_hour_end : ℕ
  pub sms_stop_number : String

abbrev pub default_settings : Settings
default_settings = record { sms_hour_start = 8; sms_hour_end = 20; sms_stop_number = "XXXX" }

-- Python's text functions: `template.format(url=url, title=title)`, which may raise, `a in b`, `lower()`
-- and `.replace("  ", " ").strip()`.
pub record Texts : Type 0 where
  pub format : (template url title : String) → Option String
  pub contains : (text part : String) → Bool
  pub lower : String → String
  pub tidy : String → String

abbrev pub seconds_per_day : ℕ
seconds_per_day = 86400

-- `settings.sms_hour_start <= paris_now.hour < settings.sms_hour_end`.
abbrev pub within_window : Settings → ℕ → Bool
within_window s hour = leb s.sms_hour_start hour && ltb hour s.sms_hour_end

abbrev pub stop_notice : Settings → String
stop_notice s =
    text_append "STOP au " (text_append s.sms_stop_number " pour ne plus recevoir de SMS")

abbrev pub with_notice : Settings → Texts → String → String
with_notice s texts body =
    if texts.contains (texts.lower body) (texts.lower (stop_notice s))
    then body
    else text_append body (text_append "\n" (stop_notice s))

-- `none` is the exception that `format` raises.
unfoldable pub render_sms_body : Settings → Texts → (template url title : String) → Option String
render_sms_body s texts template url title = elim (texts.format template url title) [
  | none ↦ none
  | some body ↦ some (with_notice s texts body)
]

-- `SEQUENCE_DELAYS_DAYS`.
abbrev pub sequence_delays_days : List ℕ
sequence_delays_days = 0 ∷ 7 ∷ 14 ∷ 21 ∷ 28 ∷ 35 ∷ 42 ∷ 49 ∷ []

abbrev pub step_count : ℕ
step_count = length sequence_delays_days

-- `SEQUENCE_DELAYS_DAYS[step]`; the code asks only below `step_count`.
abbrev pub nth : List ℕ → ℕ → ℕ
nth [] i = 0
nth (x ∷ xs) zero = x
nth (x ∷ xs) (suc i) = nth xs i

unfoldable pub next_due_at : (step created_at : ℕ) → ℕ
next_due_at step created_at = created_at + nth sequence_delays_days step * seconds_per_day

-- `_template_due`: the day `delay_days` after, at the template's time of day (times are in UTC).
unfoldable pub template_due : CampaignMessageTemplate → ℕ → ℕ
template_due t created_at =
    (created_at + t.delay_days * seconds_per_day) / seconds_per_day * seconds_per_day
    + t.send_hour * 3600
    + t.send_minute * 60

-- `SMS_VARIANTS`: the two variants of each step, key and text.
pub sms_variants : ℕ → (String × String) × (String × String)
sms_variants zero = (
  (
    "initial_a",
    "Bonjour, votre véhicule {title} nous intéresse. Est-il toujours disponible ? {url}",
  ),
  (
    "initial_b",
    "Bonjour, nous sommes intéressés par {title}. Pouvez-vous confirmer sa disponibilité ? {url}",
  ),
)
sms_variants (suc zero) = (
  ("j1_a", "Bonjour, je reviens vers vous au sujet de {title}. Merci pour votre retour. {url}"),
  ("j1_b", "Bonjour, petit suivi concernant {title}. Je reste disponible pour échanger. {url}"),
)
sms_variants (suc (suc zero)) = (
  ("j2_a", "Bonjour, avez-vous pu voir mon message concernant {title} ? {url}"),
  ("j2_b", "Bonjour, je voulais vérifier si {title} est encore disponible. {url}"),
)
sms_variants (suc (suc (suc zero))) = (
  (
    "j3_a",
    "Dernier rappel rapproché pour {title}. Nous pouvons échanger quand vous êtes disponible. {url}",
  ),
  ("j3_b", "Bonjour, souhaitez-vous toujours échanger au sujet de {title} ? {url}"),
)
sms_variants (suc (suc (suc (suc zero)))) = (
  ("j7_a", "Bonjour, votre annonce {title} est-elle encore d'actualité ? {url}"),
  ("j7_b", "Bonjour, je reprends contact concernant {title}. Est-il toujours disponible ? {url}"),
)
sms_variants (suc (suc (suc (suc (suc zero))))) = (
  (
    "j14_a",
    "Je clôture ma demande concernant {title}. Répondez si le véhicule est toujours disponible. {url}",
  ),
  (
    "j14_b",
    "Dernier message concernant {title}. Répondez si votre annonce est toujours active. {url}",
  ),
)
sms_variants (suc (suc (suc (suc (suc (suc zero)))))) = (
  (
    "j42_a",
    "Bonjour, je reviens vers vous au sujet de {title}. Est-il toujours disponible ? {url}",
  ),
  ("j42_b", "Dernier suivi de la semaine concernant {title}. Merci pour votre retour. {url}"),
)
sms_variants _ = (
  (
    "j49_a",
    "Dernier message concernant {title}. Répondez si le véhicule est toujours disponible. {url}",
  ),
  (
    "j49_b",
    "Je clôture cette demande concernant {title}. Nous restons joignables si besoin. {url}",
  ),
)

-- `choose_sms_variant`: `byte` is the first byte of sha256(f"{sequence_id}:{step}").
unfoldable pub choose_sms_variant : (step byte : ℕ) → String × String
unfolding sms_variants
choose_sms_variant step byte = elim (byte % 2) [
  | zero ↦ (sms_variants step).0
  | suc _ ↦ (sms_variants step).1
]
