-- ===== src/Mock/FilePaths.antt =====
-- The paths of frontend/dev/mockApi.ts. The functions of `node:path` are written out for the absolute
-- paths that they are called with.
use zen_fm.Base.{
  Bool, false, ◌||◌, List, [], ◌∷◌, ◌++◌, Option, none, some, ◌==◌, if◌then◌else◌, Text, codes,
  text_eq, starts_with, contains, split_on, join_with, any,
}
use zen_fm.Paths.{slash, root, or_else, before_last_slash, after_last_slash}

abbrev pub dot : Text
dot = codes "."

abbrev pub dots : Text
dots = codes ".."

abbrev pub drop_last : List Text → List Text
drop_last [] = []
drop_last (p ∷ []) = []
drop_last (p ∷ q ∷ ps) = p ∷ drop_last (q ∷ ps)

-- One part of a path under `posix.normalize`: empty parts and `.` are dropped, and `..` drops the
-- part before it.
abbrev pub resolve_part : List Text → Text → List Text
resolve_part done part =
    if text_eq part [] || text_eq part dot
    then done
    else if text_eq part dots
    then drop_last done
    else done ++ part ∷ []

unfoldable pub resolve : List Text → List Text → List Text
resolve done [] = done
resolve done (part ∷ parts) = resolve (resolve_part done part) parts

unfoldable pub ends_with_slash : Text → Bool
ends_with_slash [] = false
ends_with_slash (c ∷ []) = c == slash
ends_with_slash (c ∷ d ∷ s) = ends_with_slash (d ∷ s)

-- An absolute path from its parts; a slash at the end of the input stays.
abbrev pub from_parts : (trailing : Bool) → List Text → Text
from_parts trailing [] = root
from_parts trailing (p ∷ ps) =
    (slash ∷ join_with slash (p ∷ ps)) ++ (if trailing then slash ∷ [] else [])

unfoldable pub posix_normalize : Text → Text
posix_normalize path = from_parts (ends_with_slash path) (resolve [] (split_on slash path))

-- `replace(/\/$/, '')`.
unfoldable pub drop_last_slash : Text → Text
drop_last_slash [] = []
drop_last_slash (c ∷ []) = if c == slash then [] else c ∷ []
drop_last_slash (c ∷ d ∷ s) = c ∷ drop_last_slash (d ∷ s)

-- `none` is the error that is thrown.
unfoldable pub normalize_path : Text → Option Text
normalize_path value =
    let input = or_else value root in
    if contains 0 input || any (λ part. text_eq part dots) (split_on slash input)
    then none
    else some (or_else (drop_last_slash (posix_normalize (slash ∷ input))) root)

abbrev pub dirname_of : Option Text → Text
dirname_of none = dot
dirname_of (some t) = or_else t root

-- `posix.dirname` of an absolute path with no slash at its end.
unfoldable pub parent_path : Text → Text
parent_path path = if text_eq path root then root else dirname_of (before_last_slash path)

-- `posix.basename` of such a path.
unfoldable pub basename : Text → Text
basename path = after_last_slash path

unfoldable pub is_hidden : Text → Bool
is_hidden path = starts_with (basename path) dot
