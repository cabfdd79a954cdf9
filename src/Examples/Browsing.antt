-- ===== src/Examples/Browsing.antt =====
-- The list of a folder, the queue of uploads and the small pages' functions, at concrete inputs.
use mathlib.Core.List.{Perm}
use zen_fm.Base.{
  ℕ, Bool, ◌≡◌, ◌≤◌, refl, sym, ◌∙◌, true, false, [], ◌∷◌, ◌++◌, List, Option, none, some, Text,
  codes, All, select, length, leb, min, max, ◌&&◌, ◌≢◌, contains, arith,
}
use zen_fm.Entries.{FileEntry, FileKind, has_text}
use zen_fm.Browser.Sorting.{Preference, shown_entries, SortField, SortDirection, Sign, difference}
use zen_fm.Browser.Sorting.Order.{IsOrder, Any, difference-IsOrder, on-IsOrder}
use zen_fm.Browser.Sorting.Arranged.{shown_entries-arranged, IsInOrder, is_shown, is_tied}
use zen_fm.Browser.Sorting.Arranged
use zen_fm.Browser.Sorting.Folders.{shown_entries-HasFoldersFirst, HasFoldersFirst}
use zen_fm.Browser.Selection.{Selection, select_entry}
use zen_fm.Browser.Selection.Range.{select_entry-between}
use zen_fm.Browser.Actions
use zen_fm.Browser.Actions.{handle_key, toggle_favorite}
use zen_fm.Browser.Drops.{Shown, Drag, step, dropped}
use zen_fm.Browser.Drops.Allowed.{step-IsAllowed, IsAllowed}
use zen_fm.Uploads.Folders.{make_folders, Reply}
use zen_fm.Uploads.Folders.Levels.{make_folders-IsLevelled, IsLevelled}
use zen_fm.Uploads.Folders.Complete.{make_folders_complete, is_requested}
use zen_fm.Uploads.Batches.{UploadBatch}
use zen_fm.Uploads.Queue
use zen_fm.Uploads.Queue.{run, initial, Event}
use zen_fm.Uploads.Queue.Fifo.{run-initial-IsFifo, IsFifo, added}
use zen_fm.Favorites.{shown, overflow}
use zen_fm.Favorites.Row.{row_fits, row_width}
use zen_fm.Markdown.{escape_raw_html, less, greater}
use zen_fm.Markdown.Escaping.{unescape-escape, unescape}
use zen_fm.Locale
use zen_fm.Locale.{detect_locale, normalized, base_of}
use zen_fm.Locale.Detection.{detect_locale-IsSupported, IsSupported}

abbrev entry_of : FileKind → (name : Text) → ℕ → FileEntry
entry_of kind name size = record {
  name = name;
  path = codes "/" ++ name;
  kind = kind;
  size = size;
  created_at = none;
  modified_at = [];
  mime_type = none;
  hidden = none;
  writable = none;
}

abbrev listed : List FileEntry
listed =
    entry_of FileKind.file (codes "b") 3
    ∷ entry_of FileKind.file (codes ".c") 1
    ∷ entry_of FileKind.directory (codes "d") 0
    ∷ entry_of FileKind.file (codes "a") 3
    ∷ entry_of FileKind.file (codes "e") 7
    ∷ []

-- Names compared by their lengths alone.
abbrev by_length : Text → Text → Sign
by_length s t = difference (length s) (length t)

by_length-IsOrder : IsOrder Text Any by_length
by_length-IsOrder = on-IsOrder length Any difference difference-IsOrder

-- A text as a date, which the empty text is not.
abbrev date_of : Text → Option ℕ
date_of [] = none
date_of text = some (length text)

abbrev largest_first : Preference
largest_first = record { sort = SortField.size; direction = SortDirection.desc }

abbrev in_order : List FileEntry
in_order = shown_entries by_length date_of largest_first false listed

abbrev tied : FileEntry → Bool
tied =
    is_tied by_length date_of SortField.size SortDirection.desc
      (entry_of FileKind.file (codes "b") 3)

shown_entries-arranged_example :
    Perm in_order (select (λ e. is_shown false e.hidden e.name) listed)
    × IsInOrder (Arranged.in_order by_length date_of SortField.size SortDirection.desc) in_order
    × (select tied in_order ≡ select tied (select (λ e. is_shown false e.hidden e.name) listed))
shown_entries-arranged_example =
    shown_entries-arranged by_length date_of by_length-IsOrder largest_first false listed
      (entry_of FileKind.file (codes "b") 3) (tt, (tt, (tt, (tt, (tt, (tt, tt))))))

shown_entries-HasFoldersFirst_example : HasFoldersFirst in_order
shown_entries-HasFoldersFirst_example =
    shown_entries-HasFoldersFirst by_length date_of largest_first false listed

order_shown :
    in_order
    ≡ entry_of FileKind.directory (codes "d") 0
      ∷ entry_of FileKind.file (codes "e") 7
      ∷ entry_of FileKind.file (codes "b") 3
      ∷ entry_of FileKind.file (codes "a") 3
      ∷ []
unfolding shown_entries zen_fm.Base.starts_with
order_shown = refl

abbrev folders : List Text
folders = codes "a/b" ∷ codes "a" ∷ codes "c/d/e" ∷ codes "c/d" ∷ codes "c" ∷ []

abbrev all_made : Text → Reply
all_made directory = Reply.made

make_folders-IsLevelled_example : IsLevelled (make_folders all_made folders)
make_folders-IsLevelled_example = make_folders-IsLevelled all_made folders

make_folders_complete_example :
    is_requested (codes "c/d") (make_folders all_made folders) ≡ has_text folders (codes "c/d")
make_folders_complete_example = make_folders_complete all_made folders (codes "c/d") (λ y. refl)

groups_sent :
    make_folders all_made folders
    ≡ (codes "a" ∷ codes "c" ∷ []) ∷ (codes "a/b" ∷ codes "c/d" ∷ []) ∷ (codes "c/d/e" ∷ []) ∷ []
unfolding make_folders
groups_sent = refl

abbrev folder_batch : UploadBatch
folder_batch = record { directories = folders; files = [] }

abbrev events : List Event
events =
    Event.adds folder_batch (codes "/")
    ∷ Event.adds (record { directories = []; files = [] }) (codes "/empty")
    ∷ Event.adds folder_batch (codes "/x")
    ∷ Event.continues
    ∷ Event.ends Queue.Ending.finished
    ∷ Event.leaves
    ∷ Event.continues
    ∷ []

run-initial-IsFifo_example : IsFifo (added false events) (run events initial)
run-initial-IsFifo_example = run-initial-IsFifo events

abbrev favorites : List Text
favorites = codes "/a" ∷ codes "/b" ∷ codes "/c" ∷ []

row_fits_example :
    (shown favorites 300 ++ overflow favorites 300 ≡ favorites)
    × (length (shown favorites 300) ≤ 5)
    × (row_width (shown favorites 300) (overflow favorites 300) ≤ 300)
row_fits_example = row_fits favorites 300 (omega arith)

two_shown : shown favorites 300 ≡ codes "/a" ∷ codes "/b" ∷ []
unfolding shown
two_shown = refl

unescape-escape_example :
    (unescape (escape_raw_html (codes "<b>&lt;")) ≡ codes "<b>&lt;")
    × (contains less (escape_raw_html (codes "<b>&lt;")) ≡ false)
    × (contains greater (escape_raw_html (codes "<b>&lt;")) ≡ false)
unescape-escape_example = unescape-escape (codes "<b>&lt;")

abbrev as_it_is : Text → Text
as_it_is text = text

not_base : base_of as_it_is (codes "de_at") ≢ codes "constructor"
unfolding base_of
not_base e = cc

detect_locale-IsSupported_example : IsSupported (detect_locale as_it_is (codes "de_at"))
detect_locale-IsSupported_example =
    detect_locale-IsSupported as_it_is (codes "de_at") (λ e. cc) not_base

german : detect_locale as_it_is (codes "de_at") ≡ Locale.Detected.locale (codes "de")
unfolding detect_locale zen_fm.Base.text_eq
german = refl

abbrev three_files : List FileEntry
three_files =
    entry_of FileKind.file (codes "a") 1
    ∷ entry_of FileKind.file (codes "b") 1
    ∷ entry_of FileKind.file (codes "c") 1
    ∷ []

abbrev anchored : Selection
anchored = record { selected = none; paths = codes "/c" ∷ []; anchor = some (codes "/c") }

select_entry-between_example :
    has_text
      (select_entry three_files false true (entry_of FileKind.file (codes "b") 1) anchored).paths
      (codes "/a")
    ≡ (leb (min 2 1) 0 && leb 0 (max 2 1))
unfolding zen_fm.Browser.Selection.index_of_path zen_fm.Base.text_eq
select_entry-between_example =
    select_entry-between three_files anchored (entry_of FileKind.file (codes "b") 1)
      (entry_of FileKind.file (codes "a") 1) 2 1 0 (refl, (refl, (refl, tt))) refl refl refl refl

abbrev page : Shown
page = record { selectable = three_files; selection = anchored }

abbrev dragging : Drag
dragging = record {
  dragged = some (entry_of FileKind.file (codes "c") 1);
  drop_target = none;
  proposal = none;
  files_for = none;
}

step-IsAllowed_example : IsAllowed (step page (dropped false (codes "/d")) dragging).proposal
step-IsAllowed_example =
    step-IsAllowed page dragging (entry_of FileKind.file (codes "c") 1) false (codes "/d") 2 refl
      refl tt

abbrev quiet_page : Actions.Page
quiet_page = record {
  path_action = none;
  clipboard = [];
  deleting = [];
  preview = none;
  folder = codes "/";
  menu_open = false;
  copied_notice = false;
}

abbrev delete_key : (overlay_open : Bool) → Actions.KeyEvent
delete_key overlay_open = record {
  key = Actions.delete;
  handled = false;
  repeated = false;
  composing = false;
  alt = false;
  ctrl = false;
  meta = false;
  shift = false;
  overlay_open = overlay_open;
  control = none;
}

deletes_selection : (handle_key (delete_key false) three_files quiet_page).deleting ≡ three_files
unfolding handle_key
deletes_selection = refl

ignored_behind_dialog : handle_key (delete_key true) three_files quiet_page ≡ quiet_page
unfolding handle_key
ignored_behind_dialog = refl

toggled_twice : toggle_favorite (toggle_favorite favorites (codes "/d")) (codes "/d") ≡ favorites
unfolding toggle_favorite zen_fm.Base.text_eq
toggled_twice = refl
