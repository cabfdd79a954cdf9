-- ===== src/Markdown/Escaping.antt =====
-- The escaped source has no markup, and loses nothing.
use zen_fm.Base.{
  ℕ, zero, suc, ◌≡◌, refl, sym, ap, ◌∙◌, inl, inr, false, Bool-cases, [], ◌∷◌, ◌++◌, ◌==◌, ==_iff,
  if◌then◌else◌, Text, codes, starts_with, contains, append_assoc,
}
use zen_fm.Markdown.{ampersand, less, greater, replace_all, escape_raw_html}

-- Reading the three character references, from the left; `skip` code units belong to the one before.
unfoldable pub unescape_from : (skip : ℕ) → Text → Text
unescape_from skip [] = []
unescape_from (suc skip) (c ∷ text) = unescape_from skip text
unescape_from zero (c ∷ text) =
    let amp = ampersand ∷ unescape_from 4 text in
    let lt = less ∷ unescape_from 3 text in
    let gt = greater ∷ unescape_from 3 text in
    let plain = c ∷ unescape_from 0 text in
    if starts_with (c ∷ text) (codes "&amp;")
    then amp
    else if starts_with (c ∷ text) (codes "&lt;")
    then lt
    else if starts_with (c ∷ text) (codes "&gt;")
    then gt
    else plain

unfoldable pub unescape : Text → Text
unfolding unescape_from
unescape text = unescape_from 0 text

abbrev encoded : ℕ → Text
encoded c =
    if c == ampersand
    then codes "&amp;"
    else if c == less
    then codes "&lt;"
    else if c == greater
    then codes "&gt;"
    else c ∷ []

replace_all-append :
    (c : ℕ) (replacement s t : Text)
    → replace_all c replacement (s ++ t)
      ≡ replace_all c replacement s ++ replace_all c replacement t
unfolding replace_all
replace_all-append c replacement [] t = refl
replace_all-append c replacement (d ∷ s) t = elim (Bool-cases (d == c)) [
  | inl e ↦
      rw (e, replace_all-append c replacement s t)
        (sym (append_assoc replacement (replace_all c replacement s) (replace_all c replacement t)))
  | inr e ↦ rw e (ap (◌∷◌ d) (replace_all-append c replacement s t))
]

escape-cons : (c : ℕ) (s : Text) → escape_raw_html (c ∷ s) ≡ encoded c ++ escape_raw_html s
unfolding escape_raw_html replace_all
escape-cons c s = elim (Bool-cases (c == ampersand)) [
  | inl e ↦ rw e refl
  | inr e ↦ elim (Bool-cases (c == less)) [
    | inl f ↦ rw (e, f) refl
    | inr f ↦ elim (Bool-cases (c == greater)) [
      | inl g ↦ rw (e, f, g) refl
      | inr g ↦ rw (e, f, g) refl
    ]
  ]
]

unescape_from-plain :
    (c : ℕ) (s : Text) → (c == ampersand) ≡ false → unescape_from 0 (c ∷ s) ≡ c ∷ unescape_from 0 s
unfolding unescape_from starts_with
unescape_from-plain c s e = rw e refl

contains-plain : (c d : ℕ) (s : Text) → (d == c) ≡ false → contains c (d ∷ s) ≡ contains c s
unfolding contains
contains-plain c d s e = rw e refl

unescape_from-encoded :
    (c : ℕ) (s : Text) → unescape_from 0 (encoded c ++ s) ≡ c ∷ unescape_from 0 s
unfolding unescape_from starts_with
unescape_from-encoded c s = elim (Bool-cases (c == ampersand)) [
  | inl e ↦ rw e (ap (λ d. d ∷ unescape_from 0 s) (sym ((==_iff c ampersand).0 e)))
  | inr e ↦ elim (Bool-cases (c == less)) [
    | inl f ↦ rw (e, f) (ap (λ d. d ∷ unescape_from 0 s) (sym ((==_iff c less).0 f)))
    | inr f ↦ elim (Bool-cases (c == greater)) [
      | inl g ↦ rw (e, f, g) (ap (λ d. d ∷ unescape_from 0 s) (sym ((==_iff c greater).0 g)))
      | inr g ↦ rw (e, f, g) (unescape_from-plain c s e)
    ]
  ]
]

contains-encoded :
    (c : ℕ) (s : Text)
    → (contains less (encoded c ++ s) ≡ contains less s)
      × (contains greater (encoded c ++ s) ≡ contains greater s)
unfolding contains
contains-encoded c s = elim (Bool-cases (c == ampersand)) [
  | inl e ↦ rw e (refl, refl)
  | inr e ↦ elim (Bool-cases (c == less)) [
    | inl f ↦ rw (e, f) (refl, refl)
    | inr f ↦ elim (Bool-cases (c == greater)) [
      | inl g ↦ rw (e, f, g) (refl, refl)
      | inr g ↦ rw (e, f, g) (contains-plain less c s f, contains-plain greater c s g)
    ]
  ]
]

-- The escaped form of a text has no `<` and no `>`, and reading the character references in it gives
-- the text back.
pub unescape-escape :
    (source : Text)
    → (unescape (escape_raw_html source) ≡ source)
      × (contains less (escape_raw_html source) ≡ false)
      × (contains greater (escape_raw_html source) ≡ false)
unfolding unescape escape_raw_html contains
unescape-escape [] = (refl, refl, refl)
unescape-escape (c ∷ source) =
    let (same, no_less, no_greater) = unescape-escape source in
    let (l, g) = contains-encoded c (escape_raw_html source) in
    rw (escape-cons c source) (
      unescape_from-encoded c (escape_raw_html source) ∙ ap (◌∷◌ c) same,
      l ∙ no_less,
      g ∙ no_greater,
    )
