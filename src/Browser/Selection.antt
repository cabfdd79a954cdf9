-- ===== src/Browser/Selection.antt =====
-- The selection of entries in frontend/src/pages/FilesPage.tsx: `selectEntry`, `prepareItemMenu`, the
-- entries that a menu and the shortcuts act on, and the effect on another path.
pub mod Range
use zen_fm.Base.{
  ℕ, zero, suc, ◌+◌, ◌-◌, Bool, true, false, not, ◌&&◌, ◌||◌, List, [], ◌∷◌, ◌++◌, map, Option,
  none, some, take, drop, min, max, if◌then◌else◌, Text, text_eq, select,
}
use zen_fm.Entries.{FileEntry, is_directory, is_file, is_special, has_text}

pub record Selection : Type 0 where
  pub selected : Option FileEntry
  pub paths : List Text
  pub anchor : Option Text

abbrev pub nothing_selected : Selection
nothing_selected = record { selected = none; paths = []; anchor = none }

-- `selectionPath` tells another path from the one before.
unfoldable pub change_path : (before path : Text) → Selection → Selection
change_path before path s = if text_eq before path then s else nothing_selected

unfoldable pub selectable_entries : List FileEntry → List FileEntry
selectable_entries entries = select (λ entry. is_file entry.kind || is_directory entry.kind) entries

unfoldable pub selected_entries : (selectable : List FileEntry) → Selection → List FileEntry
selected_entries selectable s = select (λ entry. has_text s.paths entry.path) selectable

abbrev pub targets_of : (selectable : List FileEntry) → Selection → FileEntry → List FileEntry
unfolding selected_entries
targets_of selectable s entry =
    if has_text s.paths entry.path then selected_entries selectable s else entry ∷ []

abbrev pub menu_of : (selectable : List FileEntry) → Selection → Option FileEntry → List FileEntry
menu_of selectable s none = []
menu_of selectable s (some entry) =
    if is_special entry.kind
    then []
    else if has_text s.paths entry.path
    then selected_entries selectable s
    else entry ∷ []

unfoldable pub menu_entries : (selectable : List FileEntry) → Selection → List FileEntry
unfolding selected_entries
menu_entries selectable s = menu_of selectable s s.selected

unfoldable pub prepare_item_menu : FileEntry → Selection → Selection
prepare_item_menu entry s =
    if is_special entry.kind
    then record { selected = some entry; paths = []; anchor = none }
    else if has_text s.paths entry.path
    then record s { selected = some entry }
    else record { selected = some entry; paths = entry.path ∷ []; anchor = some entry.path }

-- `findIndex`; `none` stands for -1.
abbrev pub suc_index : Option ℕ → Option ℕ
suc_index none = none
suc_index (some i) = some (suc i)

unfoldable pub index_of_path : List FileEntry → Text → Option ℕ
index_of_path [] path = none
index_of_path (entry ∷ entries) path =
    if text_eq entry.path path then some 0 else suc_index (index_of_path entries path)

abbrev pub anchor_index : List FileEntry → Option Text → Option ℕ
anchor_index selectable none = none
anchor_index selectable (some path) = index_of_path selectable path

-- `slice(start, end + 1)`, and its paths.
abbrev pub range_paths : List FileEntry → (from to : ℕ) → List Text
range_paths selectable from to =
    map (λ entry. entry.path) (take (max from to + 1 - min from to) (drop (min from to) selectable))

abbrev pub range_of : List FileEntry → Option ℕ → Option ℕ → Option (List Text)
range_of selectable none to = none
range_of selectable (some from) none = none
range_of selectable (some from) (some to) = some (range_paths selectable from to)

abbrev pub toggled : List Text → Text → List Text
toggled paths path =
    if has_text paths path
    then select (λ other. not (text_eq other path)) paths
    else paths ++ path ∷ []

abbrev pub select_one : (toggle : Bool) → FileEntry → Selection → Selection
select_one toggle entry s = record {
  selected = some entry;
  paths = if toggle then toggled s.paths entry.path else entry.path ∷ [];
  anchor = some entry.path;
}

abbrev pub select_range : (toggle : Bool) → FileEntry → Option (List Text) → Selection → Selection
select_range toggle entry none s = select_one toggle entry s
select_range toggle entry (some range) s = record s {
  selected = some entry;
  paths = if toggle then s.paths ++ range else range;
}

-- `toggle` is the control or the meta key.
unfoldable pub select_entry :
    (selectable : List FileEntry) → (toggle shift : Bool) → FileEntry → Selection → Selection
unfolding index_of_path
select_entry selectable toggle shift entry s =
    let range =
      range_of selectable (anchor_index selectable s.anchor)
        (index_of_path selectable entry.path) in
    if is_special entry.kind
    then record { selected = some entry; paths = []; anchor = none }
    else if shift
    then select_range toggle entry range s
    else select_one toggle entry s

-- `remove`, when all targets have been removed.
abbrev pub after_removal : Selection → Selection
after_removal s = nothing_selected
