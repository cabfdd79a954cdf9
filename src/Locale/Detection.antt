-- ===== src/Locale/Detection.antt =====
-- What is detected is a locale that the translations have.
use zen_fm.Base.{
  ◌≡◌, ◌≢◌, refl, sym, ◌∙◌, inl, inr, Bool, true, false, Bool-cases, List, [], ◌∷◌, Option, none,
  some, Text, codes, text_eq, text_eq_iff, find_first, All, arith,
}
use zen_fm.Entries.{has_text}
use zen_fm.Locale.{
  supported_locales, locale_aliases, Detected, locale, inherited, own_alias, alias_of, or_detected,
  or_text, exact_or, supported, normalized, base_of, detect_locale,
}

-- A supported locale, as a text.
abbrev pub IsSupported : Detected → Type 0
IsSupported (locale name) = has_text supported_locales name ≡ true
IsSupported inherited = ⊥

abbrev IsGood : Option Detected → Type 0
IsGood none = Unit
IsGood (some detected) = IsSupported detected

own_alias-IsGood :
    (aliases : List (Text × Text)) (name : Text)
    → All (λ alias. has_text supported_locales alias.1 ≡ true) aliases
    → name ≢ codes "constructor"
    → IsGood (own_alias aliases name)
own_alias-IsGood [] name h n = elim (Bool-cases (text_eq name (codes "constructor"))) [
  | inl e ↦ absurd (n ((text_eq_iff name (codes "constructor")).0 e))
  | inr e ↦ rw e tt
]
own_alias-IsGood ((alias, target) ∷ aliases) name h n = elim (Bool-cases (text_eq alias name)) [
  | inl e ↦ rw e h.0
  | inr e ↦ rw e (own_alias-IsGood aliases name h.1 n)
]

targets_supported : All (λ alias. has_text supported_locales alias.1 ≡ true) locale_aliases
unfolding text_eq
targets_supported = (refl, (refl, (refl, (refl, (refl, tt)))))

alias_of-IsGood : (name : Text) → name ≢ codes "constructor" → IsGood (alias_of name)
unfolding alias_of
alias_of-IsGood name n = own_alias-IsGood locale_aliases name targets_supported n

or_detected-IsSupported :
    (o : Option Detected) (d : Detected) → IsGood o → IsSupported d → IsSupported (or_detected o d)
or_detected-IsSupported none d g h = h
or_detected-IsSupported (some detected) d g h = g

find_first-here :
    (p : Text → Bool) (first : Text) (names : List Text)
    → p first ≡ true
    → find_first p (first ∷ names) ≡ some first
find_first-here p first names h = rw h refl

find_first-later :
    (p : Text → Bool) (first : Text) (names : List Text)
    → p first ≡ false
    → find_first p (first ∷ names) ≡ find_first p names
find_first-later p first names h = rw h refl

find_first-has :
    (p : Text → Bool) (names : List Text) (name : Text)
    → find_first p names ≡ some name
    → has_text names name ≡ true
find_first-has p [] name e = absurd (cc)
find_first-has p (first ∷ names) name e = elim (Bool-cases (p first)) [
  | inl h ↦
      let found : some first ≡ some name = sym (find_first-here p first names h) ∙ e in
      let same : first ≡ name = cc in rw ((text_eq_iff first name).1 same) refl
  | inr h ↦
      let later = find_first-has p names name (sym (find_first-later p first names h) ∙ e) in
      ground (arith, later)
]

module _ (lower : Text → Text) where
  supported-has :
      (name other : Text)
      → supported lower name ≡ some other
      → has_text supported_locales other ≡ true
  unfolding supported
  supported-has name other e =
      find_first-has (λ c. text_eq (lower c) name) supported_locales other e

  english : has_text supported_locales (codes "en") ≡ true
  unfolding text_eq
  english = refl

  or_english :
      (name : Text) (o : Option Text)
      → supported lower name ≡ o
      → has_text supported_locales (or_text o (codes "en")) ≡ true
  or_english name none e = english
  or_english name (some other) e = supported-has name other e

  exact_or-IsSupported :
      (name : Text) (o : Option Text) (d : Detected)
      → supported lower name ≡ o
      → IsSupported d
      → IsSupported (exact_or o d)
  exact_or-IsSupported name none d e h = h
  exact_or-IsSupported name (some other) d e h = supported-has name other e

  -- Whatever the browser's language is, and however it is put in lower case, the locale detected is one
  -- of the supported locales, unless the language or its first part is `constructor`.
  pub detect_locale-IsSupported :
      (language : Text)
      → normalized lower language ≢ codes "constructor"
      → base_of lower language ≢ codes "constructor"
      → IsSupported (detect_locale lower language)
  unfolding detect_locale
  detect_locale-IsSupported language n b =
      exact_or-IsSupported (normalized lower language) (supported lower (normalized lower language))
        (or_detected (alias_of (normalized lower language)) (
          or_detected (alias_of (base_of lower language))
            (locale (or_text (supported lower (base_of lower language)) (codes "en")))))
        refl
        (or_detected-IsSupported (alias_of (normalized lower language))
          (or_detected (alias_of (base_of lower language))
            (locale (or_text (supported lower (base_of lower language)) (codes "en"))))
          (alias_of-IsGood (normalized lower language) n)
          (or_detected-IsSupported (alias_of (base_of lower language))
            (locale (or_text (supported lower (base_of lower language)) (codes "en")))
            (alias_of-IsGood (base_of lower language) b)
            (or_english (base_of lower language) (supported lower (base_of lower language)) refl)))
