-- ===== src/Dialogs/Duplicate.antt =====
-- `duplicateName` in frontend/src/components/FileDialogs.tsx: the name of a copy in the same folder.
pub mod Fresh
use zen_fm.Base.{
  ℕ, zero, suc, ◌+◌, ◌/◌, ◌%◌, Bool, List, [], ◌∷◌, ◌++◌, Option, none, some, ltb, ◌==◌,
  if◌then◌else◌, Text, codes, take, drop, length,
}
use zen_fm.Entries.{FileEntry, FileKind, is_file, has_text}

-- A number in a template literal, in decimal digits. The number bounds the count of its digits.
unfoldable pub digits_loop : (fuel n : ℕ) → Text
digits_loop zero n = []
digits_loop (suc fuel) n =
    let front = digits_loop fuel (n / 10) in
    if ltb n 10 then (0x30 + n) ∷ [] else front ++ (0x30 + n % 10) ∷ []

unfoldable pub digits : ℕ → Text
unfolding digits_loop
digits n = digits_loop (suc n) n

-- `text.lastIndexOf(c)` for one code unit; `none` stands for -1.
unfoldable pub last_index_of : (c : ℕ) → Text → Option ℕ
last_index_of c [] = none
last_index_of c (d ∷ text) = elim (last_index_of c text) [
  | some i ↦ some (suc i)
  | none ↦ if d == c then some 0 else none
]

abbrev pub dot : ℕ
dot = 0x2e

unfoldable pub extension_at : FileEntry → Option ℕ
unfolding last_index_of
extension_at entry = if is_file entry.kind then last_index_of dot entry.name else none

-- The name in front of its extension, and the extension with its dot. A name that begins with its
-- only dot has no extension.
abbrev pub parts_at : Text → Option ℕ → Text × Text
parts_at name none = (name, [])
parts_at name (some zero) = (name, [])
parts_at name (some (suc i)) = (take (suc i) name, drop (suc i) name)

abbrev pub count_label : ℕ → Text
count_label number = if number == 1 then [] else 0x20 ∷ digits number

abbrev pub candidate : Text × Text → ℕ → Text
candidate parts number = parts.0 ++ codes " copy" ++ count_label number ++ parts.1

-- The loop has no bound of its own; without a result it has used up the fuel.
unfoldable pub duplicate_loop :
    (fuel : ℕ) → Text × Text → (names : List Text) → (number : ℕ) → Option Text
unfolding digits
duplicate_loop zero parts names number = none
duplicate_loop (suc fuel) parts names number =
    let rest = duplicate_loop fuel parts names (number + 1) in
    if has_text names (candidate parts number) then rest else some (candidate parts number)

abbrev pub with_name : List Text → Option Text → Option (Text × List Text)
with_name names none = none
with_name names (some name) = some (name, name ∷ names)

-- The name, and the set of names with it.
unfoldable pub duplicate_name : FileEntry → (names : List Text) → Option (Text × List Text)
unfolding extension_at duplicate_loop
duplicate_name entry names =
    with_name names
      (duplicate_loop (suc (length names)) (parts_at entry.name (extension_at entry)) names 1)
