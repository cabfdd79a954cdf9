-- ===== src/Browser/Sorting.antt =====
-- The entries shown, in the order chosen: `storedSortPreference` and `entries` in
-- frontend/src/pages/FilesPage.tsx. `localeCompare` and the value of a
-- date are parameters; the values are counted from the earliest date that there is, and a text that is
-- no date has none.
pub mod Order
pub mod Stable
pub mod Arranged
pub mod Folders
use zen_fm.Base.{
  ℕ, Bool, true, false, not, ◌&&◌, ◌||◌, List, [], ◌∷◌, Option, none, some, ltb, if◌then◌else◌,
  Text, codes, text_eq, starts_with, select,
}
use zen_fm.Entries.{FileEntry, is_directory}

-- The number that a comparator returns, by its sign.
pub data Sign : Type 0 where
  negative null positive : Sign

abbrev pub negate : Sign → Sign
negate negative = positive
negate null = null
negate positive = negative

abbrev pub difference : ℕ → ℕ → Sign
difference a b = if ltb a b then negative else if ltb b a then positive else null

-- The difference of two dates; `NaN`, which the sort reads as 0, without one of them.
abbrev pub date_difference : Option ℕ → Option ℕ → Sign
date_difference (some a) (some b) = difference a b
date_difference _ _ = null

-- Not behind.
abbrev pub fits : Sign → Bool
fits negative = true
fits null = true
fits positive = false

pub data SortField : Type 0 where
  name size created modified : SortField

pub data SortDirection : Type 0 where
  asc desc : SortDirection

pub record Preference : Type 0 where
  pub sort : SortField
  pub direction : SortDirection

abbrev pub default_preference : Preference
default_preference = record { sort = name; direction = asc }

-- A name of `sortFields`; the created date is not one of them.
abbrev pub field_of : Text → Option SortField
field_of text =
    if text_eq text (codes "name")
    then some name
    else if text_eq text (codes "size")
    then some size
    else if text_eq text (codes "modified")
    then some modified
    else none

abbrev pub direction_of : Text → Option SortDirection
direction_of text =
    if text_eq text (codes "asc")
    then some asc
    else if text_eq text (codes "desc")
    then some desc
    else none

abbrev pub preference_of : Option SortField → Option SortDirection → Preference
preference_of none direction = default_preference
preference_of (some sort) none = default_preference
preference_of (some sort) (some direction) = record { sort = sort; direction = direction }

abbrev pub field_in : Option Text → Option SortField
field_in none = none
field_in (some text) = field_of text

abbrev pub direction_in : Option Text → Option SortDirection
direction_in none = none
direction_in (some text) = direction_of text

-- What is stored: not the JSON of an object, or an object whose properties are strings or not.
unfoldable pub stored_sort_preference : Option (Option Text × Option Text) → Preference
stored_sort_preference none = default_preference
stored_sort_preference (some (sort, direction)) =
    preference_of (field_in sort) (direction_in direction)

abbrev pub field_name : SortField → Text
field_name name = codes "name"
field_name size = codes "size"
field_name created = codes "created"
field_name modified = codes "modified"

abbrev pub direction_name : SortDirection → Text
direction_name asc = codes "asc"
direction_name desc = codes "desc"

-- `[...visible].sort(compare)`, which is stable. For a comparison that is no order the language leaves
-- the result open; this is one of the results.
module _ {ℓ} {A : Type ℓ} (compare : A → A → Sign) where
  abbrev pub insert : A → List A → List A
  insert x [] = x ∷ []
  insert x (y ∷ ys) = if fits (compare x y) then x ∷ y ∷ ys else y ∷ insert x ys

  abbrev pub sort_by : List A → List A
  sort_by [] = []
  sort_by (x ∷ xs) = insert x (sort_by xs)

abbrev pub directed : SortDirection → Sign → Sign
directed asc sign = sign
directed desc sign = negate sign

abbrev pub placed : (left_folder right_folder : Bool) → (folders files : Sign) → Sign
placed true true folders files = folders
placed true false folders files = negative
placed false true folders files = positive
placed false false folders files = files

abbrev pub flag : Option Bool → Bool
flag none = false
flag (some value) = value

unfoldable pub is_visible : (show_hidden : Bool) → FileEntry → Bool
is_visible show_hidden entry =
    show_hidden || not (flag entry.hidden) && not (starts_with entry.name (codes "."))

module _ (locale_compare : Text → Text → Sign) (value_of : Text → Option ℕ) where
  abbrev pub field_compare : SortField → FileEntry → FileEntry → Sign
  field_compare name left right = locale_compare left.name right.name
  field_compare size left right = difference left.size right.size
  field_compare created left right = locale_compare left.name right.name
  field_compare modified left right =
      date_difference (value_of left.modified_at) (value_of right.modified_at)

  -- Two folders by size are compared by name, in ascending order whatever the direction.
  abbrev pub folder_compare : SortField → SortDirection → FileEntry → FileEntry → Sign
  folder_compare name direction left right = directed direction (field_compare name left right)
  folder_compare size direction left right = locale_compare left.name right.name
  folder_compare created direction left right =
      directed direction (field_compare created left right)
  folder_compare modified direction left right =
      directed direction (field_compare modified left right)

  unfoldable pub entry_compare : SortField → SortDirection → FileEntry → FileEntry → Sign
  entry_compare sort direction left right =
      placed (is_directory left.kind) (is_directory right.kind)
        (folder_compare sort direction left right)
        (directed direction (field_compare sort left right))

  unfoldable pub shown_entries :
      Preference → (show_hidden : Bool) → (source : List FileEntry) → List FileEntry
  unfolding entry_compare is_visible
  shown_entries preference show_hidden source =
      sort_by (entry_compare preference.sort preference.direction)
        (select (is_visible show_hidden) source)
