-- ===== src/Browser/Actions.antt =====
-- What the menus and the keys do with the entries chosen in frontend/src/pages/FilesPage.tsx:
-- `openEntry`, `beginAction`, `copyToClipboard`, `pasteClipboard`, `beginDelete`, the handler of the
-- keys, and what is done with dropped files.
use zen_fm.Base.{
  ◌≡◌, refl, ◌⊎◌, inl, inr, Bool, true, false, not, ◌&&◌, ◌||◌, List, [], ◌∷◌, ◌++◌, Option, none,
  some, if◌then◌else◌, Text, text_eq, Bool-cases,
}
use zen_fm.Entries.{FileEntry, FileKind, is_file, has_text}
use zen_fm.Dialogs.PathAction.{PathAction}
use zen_fm.Uploads.Batches.{UploadBatch}
use zen_fm.Uploads.Queue.{is_nothing}

-- The dialog of a path action, with its entries and the destination of a paste.
pub record Action : Type 0 where
  pub action : PathAction
  pub entries : List FileEntry
  pub copy_destination : Option Text

pub record Page : Type 0 where
  pub path_action : Option Action
  pub clipboard : List FileEntry
  pub deleting : List FileEntry
  pub preview : Option FileEntry
  pub folder : Text
  pub menu_open : Bool
  pub copied_notice : Bool

-- The page navigates to a folder, and shows a file.
abbrev pub open_kind : FileKind → FileEntry → Page → Page
open_kind FileKind.directory entry p = record p { folder = entry.path }
open_kind FileKind.file entry p = record p { preview = some entry }
open_kind FileKind.symlink entry p = p
open_kind FileKind.special entry p = p

abbrev pub open_entry : FileEntry → Page → Page
open_entry entry p = open_kind entry.kind entry p

abbrev pub begin_action : PathAction → List FileEntry → Page → Page
begin_action action [] p = p
begin_action action (entry ∷ entries) p = record p {
  path_action =
      some (record { action = action; entries = entry ∷ entries; copy_destination = none });
  menu_open = false;
}

abbrev pub copy_to_clipboard : List FileEntry → Page → Page
copy_to_clipboard [] p = p
copy_to_clipboard (entry ∷ entries) p = record p {
  clipboard = entry ∷ entries;
  copied_notice = true;
  menu_open = false;
}

abbrev pub paste : (destination : Text) → List FileEntry → Page → Page
paste destination [] p = p
paste destination (entry ∷ entries) p = record p {
  path_action = some (record {
    action = PathAction.copy;
    entries = entry ∷ entries;
    copy_destination = some destination;
  });
  menu_open = false;
}

abbrev pub paste_clipboard : (destination : Text) → Page → Page
paste_clipboard destination p = paste destination p.clipboard p

abbrev pub begin_delete : List FileEntry → Page → Page
begin_delete [] p = p
begin_delete (entry ∷ entries) p = record p { deleting = entry ∷ entries; menu_open = false }

pub data Key : Type 0 where
  enter delete f2 other : Key

-- Where the key was pressed: whether the target is in a control, whether that is the area of a card,
-- and whether the card is selected.
pub record Control : Type 0 where
  pub is_card_area : Bool
  pub is_selected : Bool

pub record KeyEvent : Type 0 where
  pub key : Key
  pub handled : Bool
  pub repeated : Bool
  pub composing : Bool
  pub alt : Bool
  pub ctrl : Bool
  pub meta : Bool
  pub shift : Bool
  pub overlay_open : Bool
  pub control : Option Control

abbrev pub is_enter : Key → Bool
is_enter enter = true
is_enter delete = false
is_enter f2 = false
is_enter other = false

abbrev pub belongs_to : Key → Option Control → Bool
belongs_to key none = false
belongs_to key (some control) = not control.is_card_area || is_enter key && not control.is_selected

abbrev pub is_ignored : KeyEvent → Bool
is_ignored event =
    event.handled
    || event.repeated
    || event.composing
    || event.alt
    || event.ctrl
    || event.meta
    || event.shift
    || event.overlay_open
    || belongs_to event.key event.control

abbrev pub with_one : (FileEntry → Page → Page) → List FileEntry → Page → Page
with_one act [] p = p
with_one act (entry ∷ []) p = act entry p
with_one act (entry ∷ next ∷ entries) p = p

abbrev pub press : Key → (selected : List FileEntry) → Page → Page
press enter selected p = with_one open_entry selected p
press f2 selected p = with_one (λ entry. begin_action PathAction.rename (entry ∷ [])) selected p
press delete selected p = begin_delete selected p
press other selected p = p

unfoldable pub handle_key : KeyEvent → (selected : List FileEntry) → Page → Page
handle_key event selected p = if is_ignored event then p else press event.key selected p

-- A key never changes the clipboard, and what it marks for deletion is the selection.
opened :
    (kind : FileKind) (entry : FileEntry) (p : Page)
    → ((open_kind kind entry p).clipboard ≡ p.clipboard)
      × (((open_kind kind entry p).deleting ≡ p.deleting)
          ⊎ ((open_kind kind entry p).deleting ≡ entry ∷ []))
opened FileKind.directory entry p = (refl, inl refl)
opened FileKind.file entry p = (refl, inl refl)
opened FileKind.symlink entry p = (refl, inl refl)
opened FileKind.special entry p = (refl, inl refl)

press-deleting :
    (key : Key) (selected : List FileEntry) (p : Page)
    → ((press key selected p).clipboard ≡ p.clipboard)
      × (((press key selected p).deleting ≡ p.deleting)
          ⊎ ((press key selected p).deleting ≡ selected))
press-deleting enter [] p = (refl, inl refl)
press-deleting enter (entry ∷ next ∷ entries) p = (refl, inl refl)
press-deleting enter (entry ∷ []) p = opened entry.kind entry p
press-deleting f2 [] p = (refl, inl refl)
press-deleting f2 (entry ∷ []) p = (refl, inl refl)
press-deleting f2 (entry ∷ next ∷ entries) p = (refl, inl refl)
press-deleting delete [] p = (refl, inl refl)
press-deleting delete (entry ∷ entries) p = (refl, inr refl)
press-deleting other selected p = (refl, inl refl)

handle_key-deleting :
    (event : KeyEvent) (selected : List FileEntry) (p : Page)
    → ((handle_key event selected p).clipboard ≡ p.clipboard)
      × (((handle_key event selected p).deleting ≡ p.deleting)
          ⊎ ((handle_key event selected p).deleting ≡ selected))
unfolding handle_key
handle_key-deleting event selected p = elim (Bool-cases (is_ignored event)) [
  | inl e ↦ rw e (refl, inl refl)
  | inr e ↦ rw e (press-deleting event.key selected p)
]

-- Files dropped onto the open folder are uploaded; onto another, the user is asked.
pub data Dropping : Type 0 where
  nothing_dropped : Dropping
  asks uploads : UploadBatch → (destination : Text) → Dropping

unfoldable pub drop_files : (path : Text) → UploadBatch → (destination : Text) → Dropping
drop_files path upload destination =
    if is_nothing upload
    then nothing_dropped
    else if not (text_eq destination path)
    then asks upload destination
    else uploads upload destination

-- The file that the address names.
abbrev pub find_file : Text → List FileEntry → Option FileEntry
find_file name [] = none
find_file name (entry ∷ entries) =
    if is_file entry.kind && text_eq entry.name name then some entry else find_file name entries

unfoldable pub route_file : Option Text → List FileEntry → Option FileEntry
route_file none entries = none
route_file (some []) entries = none
route_file (some (c ∷ name)) entries = find_file (c ∷ name) entries

-- A favorite is removed, and what is not one is put behind the others.
abbrev pub without_text : List Text → Text → List Text
without_text [] text = []
without_text (t ∷ texts) text =
    if text_eq t text then without_text texts text else t ∷ without_text texts text

unfoldable pub toggle_favorite : (favorites : List Text) → (target : Text) → List Text
toggle_favorite favorites target =
    if has_text favorites target then without_text favorites target else favorites ++ target ∷ []
