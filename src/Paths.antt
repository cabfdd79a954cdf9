-- ===== src/Paths.antt =====
-- frontend/src/utils.ts: the paths and the routes of the file browser. `encodeURIComponent` and
-- `URLSearchParams` are the browser's, and stand for an escaping function that is a parameter.
use zen_fm.Base.{
  ℕ, [], ◌∷◌, ◌++◌, map, Option, none, some, ◌==◌, ◌&&◌, if◌then◌else◌, Text, codes, text_eq,
  split_on, join_with,
}

abbrev pub slash : ℕ
slash = 0x2f

abbrev pub root : Text
root = slash ∷ []

-- `value || fallback` on strings.
abbrev pub or_else : Text → Text → Text
or_else [] fallback = fallback
or_else (c ∷ s) fallback = c ∷ s

-- `replaceAll('//', '/')`: left to right, each pair once.
unfoldable pub replace_doubles : Text → Text
replace_doubles [] = []
replace_doubles (c ∷ []) = c ∷ []
replace_doubles (c ∷ d ∷ s) =
    let paired = slash ∷ replace_doubles s in
    let single = c ∷ replace_doubles (d ∷ s) in if c == slash && d == slash then paired else single

-- The parent of a child of the root is written as the empty text.
abbrev pub without_root : Text → Text
without_root parent = if text_eq parent root then [] else parent

unfoldable pub join_path : Text → Text → Text
unfolding replace_doubles
join_path parent name = or_else (replace_doubles (without_root parent ++ slash ∷ name)) root

-- The text behind the last slash, and the text before it, if there is one.
unfoldable pub before_last_slash : Text → Option Text
before_last_slash [] = none
before_last_slash (c ∷ s) = elim (before_last_slash s) [
  | some t ↦ some (c ∷ t)
  | none ↦ if c == slash then some [] else none
]

unfoldable pub after_last_slash : Text → Text
unfolding before_last_slash
after_last_slash [] = []
after_last_slash (c ∷ s) =
    let later = after_last_slash s in
    elim (before_last_slash s) [ some t ↦ later | none ↦ if c == slash then s else c ∷ s ]

abbrev pub files_prefix : Text
files_prefix = codes "/files"

module _ (encode_uri_component : Text → Text) where
  unfoldable pub files_route : Text → Text
  files_route path =
      if text_eq path root
      then files_prefix
      else files_prefix ++ join_with slash (map encode_uri_component (split_on slash path))

  -- `path.slice(0, separator) || '/'`. With no slash the separator is -1, and `slice(0, -1)` drops
  -- the last character; every path that reaches this function is absolute.
  abbrev pub parent_or_root : Option Text → Text
  parent_or_root none = root
  parent_or_root (some t) = or_else t root

  unfoldable pub file_route : (encode_form : Text → Text) → Text → Text
  unfolding files_route before_last_slash after_last_slash
  file_route encode_form path =
      files_route (parent_or_root (before_last_slash path))
      ++ codes "?file="
      ++ encode_form (after_last_slash path)
