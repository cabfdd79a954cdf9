-- ===== src/Browser/Drops.antt =====
-- Dragging entries and files onto folders in frontend/src/pages/FilesPage.tsx. What the page shows at
-- the time of an event, the entries that can be selected and the selection, comes with the event.
pub mod Allowed
use zen_fm.Base.{
  Bool, true, false, not, ◌&&◌, ◌||◌, List, [], ◌∷◌, ◌++◌, Option, none, some, if◌then◌else◌, Text,
  text_eq, starts_with, every, length, ltb,
}
use zen_fm.Paths.{slash, join_path}
use zen_fm.Entries.{FileEntry, is_directory, is_special}
use zen_fm.Browser.Selection.{Selection, targets_of}

unfoldable pub can_paste_into : (destination : Text) → FileEntry → Bool
unfolding join_path
can_paste_into destination entry =
    not (is_directory entry.kind)
    || text_eq (join_path destination entry.name) entry.path
    || not (starts_with (join_path destination entry.name) (entry.path ++ slash ∷ []))

unfoldable pub can_move_to : FileEntry → (destination : Text) → Bool
unfolding join_path
can_move_to entry destination =
    not (is_special entry.kind)
    && not (text_eq (join_path destination entry.name) entry.path)
    && (not (is_directory entry.kind)
        || not (text_eq destination entry.path)
          && not (starts_with destination (entry.path ++ slash ∷ [])))

pub record Shown : Type 0 where
  pub selectable : List FileEntry
  pub selection : Selection

-- `draggedEntry`, `dropTarget`, the last move that a drop has proposed (`pathAction` or `droppedMove`),
-- and the folder that files were last dropped onto.
pub data Proposal : Type 0 where
  move_all : (entries : List FileEntry) → (destination : Text) → Proposal
  move_one : (entry : FileEntry) → (destination : Text) → Proposal

pub record Drag : Type 0 where
  pub dragged : Option FileEntry
  pub drop_target : Option Text
  pub proposal : Option Proposal
  pub files_for : Option Text

abbrev pub no_drag : Drag
no_drag = record { dragged = none; drop_target = none; proposal = none; files_for = none }

abbrev pub entries_for_drag : Shown → FileEntry → List FileEntry
entries_for_drag shown entry = targets_of shown.selectable shown.selection entry

abbrev pub all_can_move : List FileEntry → Text → Bool
all_can_move entries destination = every (λ entry. can_move_to entry destination) entries

abbrev pub start_move_drag : FileEntry → Drag → Drag
start_move_drag entry d = record d { dragged = some entry }

abbrev pub end_move_drag : Drag → Drag
end_move_drag d = record d { dragged = none; drop_target = none }

abbrev pub reject_move_drop : Option FileEntry → Drag → Drag
reject_move_drop none d = d
reject_move_drop (some entry) d = record d { drop_target = none }

abbrev pub prepare_drop :
    Shown → (has_files : Bool) → (destination : Text) → Option FileEntry → Drag → Drag
prepare_drop shown has_files destination none d =
    if has_files then record d { drop_target = some destination } else d
prepare_drop shown has_files destination (some entry) d = record d {
  drop_target =
      if all_can_move (entries_for_drag shown entry) destination then some destination else none;
}

abbrev pub propose : (entries : List FileEntry) → FileEntry → (destination : Text) → Proposal
propose entries entry destination =
    if ltb 1 (length entries) then move_all entries destination else move_one entry destination

abbrev pub accept_drop :
    Shown → (has_files : Bool) → (destination : Text) → Option FileEntry → Drag → Drag
accept_drop shown has_files destination none d =
    if has_files then record d { drop_target = none; files_for = some destination } else d
accept_drop shown has_files destination (some entry) d =
    let entries = entries_for_drag shown entry in
    record d {
      dragged = none;
      drop_target = none;
      proposal =
          if all_can_move entries destination
          then some (propose entries entry destination)
          else d.proposal;
    }

pub data Event : Type 0 where
  starts : (entry : FileEntry) → Event
  stops rejected : Event
  over dropped : (has_files : Bool) → (destination : Text) → Event

unfoldable pub step : Shown → Event → Drag → Drag
unfolding can_move_to
step shown (starts entry) d = start_move_drag entry d
step shown stops d = end_move_drag d
step shown rejected d = reject_move_drop d.dragged d
step shown (over has_files destination) d = prepare_drop shown has_files destination d.dragged d
step shown (dropped has_files destination) d = accept_drop shown has_files destination d.dragged d

unfoldable pub run : List (Shown × Event) → Drag → Drag
unfolding step
run [] d = d
run ((shown, event) ∷ events) d = run events (step shown event d)
