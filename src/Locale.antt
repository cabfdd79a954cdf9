-- ===== src/Locale.antt =====
-- `detectLocale` and `setDocumentLocale` in frontend/src/i18n.ts. `toLowerCase` is a parameter.
pub mod Detection
use zen_fm.Base.{
  ℕ, Bool, true, false, ◌||◌, List, [], ◌∷◌, Option, none, some, ◌==◌, if◌then◌else◌, Text, codes,
  text_eq, split_on, find_first,
}

abbrev pub supported_locales : List Text
supported_locales =
    codes "en"
    ∷ codes "ar"
    ∷ codes "bg"
    ∷ codes "ca"
    ∷ codes "cs"
    ∷ codes "de"
    ∷ codes "el"
    ∷ codes "es"
    ∷ codes "fa"
    ∷ codes "fr"
    ∷ codes "he"
    ∷ codes "hr"
    ∷ codes "hu"
    ∷ codes "is"
    ∷ codes "it"
    ∷ codes "ja"
    ∷ codes "ko"
    ∷ codes "lv"
    ∷ codes "nl"
    ∷ codes "nl-BE"
    ∷ codes "no"
    ∷ codes "pl"
    ∷ codes "pt-BR"
    ∷ codes "pt-PT"
    ∷ codes "ro"
    ∷ codes "ru"
    ∷ codes "sk"
    ∷ codes "sv-SE"
    ∷ codes "tr"
    ∷ codes "uk"
    ∷ codes "vi"
    ∷ codes "zh-CN"
    ∷ codes "zh-HK"
    ∷ codes "zh-MO"
    ∷ codes "zh-TW"
    ∷ []

abbrev pub locale_aliases : List (Text × Text)
locale_aliases =
    (codes "nb", codes "no")
    ∷ (codes "no", codes "no")
    ∷ (codes "pt", codes "pt-PT")
    ∷ (codes "sv", codes "sv-SE")
    ∷ (codes "zh", codes "zh-CN")
    ∷ []

-- What the function returns: a text, or the function that every object inherits as `constructor`, the
-- one inherited property with a name in lower case and without an underscore.
pub data Detected : Type 0 where
  locale : Text → Detected
  inherited : Detected

abbrev pub own_alias : List (Text × Text) → Text → Option Detected
own_alias [] name = if text_eq name (codes "constructor") then some inherited else none
own_alias ((alias, target) ∷ aliases) name =
    if text_eq alias name then some (locale target) else own_alias aliases name

unfoldable pub alias_of : Text → Option Detected
alias_of name = own_alias locale_aliases name

-- `text.replace('_', '-')`: the first one.
abbrev pub replace_underscore : Text → Text
replace_underscore [] = []
replace_underscore (c ∷ text) = if c == 0x5f then 0x2d ∷ text else c ∷ replace_underscore text

abbrev pub first_part : List Text → Text
first_part [] = []
first_part (part ∷ parts) = part

-- `??`.
abbrev pub or_detected : Option Detected → Detected → Detected
or_detected none other = other
or_detected (some detected) other = detected

abbrev pub or_text : Option Text → Text → Text
or_text none other = other
or_text (some text) other = text

abbrev pub exact_or : Option Text → Detected → Detected
exact_or none other = other
exact_or (some text) other = locale text

module _ (lower : Text → Text) where
  unfoldable pub supported : (name : Text) → Option Text
  supported name = find_first (λ candidate. text_eq (lower candidate) name) supported_locales

  abbrev pub normalized : Text → Text
  normalized language = lower (replace_underscore language)

  unfoldable pub base_of : Text → Text
  unfolding split_on
  base_of language = first_part (split_on 0x2d (normalized language))

  unfoldable pub detect_locale : (language : Text) → Detected
  unfolding supported alias_of base_of
  detect_locale language = exact_or (supported (normalized language)) (
      or_detected (alias_of (normalized language)) (
        or_detected (alias_of (base_of language))
          (locale (or_text (supported (base_of language)) (codes "en")))))

-- `document.documentElement.dir`.
abbrev pub is_right_to_left : Text → Bool
is_right_to_left name =
    text_eq name (codes "ar") || text_eq name (codes "he") || text_eq name (codes "fa")
