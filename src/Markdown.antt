-- ===== src/Markdown.antt =====
-- `escapeRawHTML` in frontend/src/markdown.ts. The Markdown and the sanitizing libraries are not modelled.
pub mod Escaping
use zen_fm.Base.{List, [], ◌∷◌, ◌++◌, ◌==◌, if◌then◌else◌, Text, codes, ℕ}

abbrev pub ampersand : ℕ
ampersand = 0x26

abbrev pub less : ℕ
less = 0x3c

abbrev pub greater : ℕ
greater = 0x3e

-- `text.replaceAll(c, replacement)` for one code unit.
unfoldable pub replace_all : ℕ → (replacement : Text) → Text → Text
replace_all c replacement [] = []
replace_all c replacement (d ∷ text) =
    let rest = replace_all c replacement text in if d == c then replacement ++ rest else d ∷ rest

unfoldable pub escape_raw_html : Text → Text
unfolding replace_all
escape_raw_html source =
    replace_all greater (codes "&gt;")
      (replace_all less (codes "&lt;") (replace_all ampersand (codes "&amp;") source))
