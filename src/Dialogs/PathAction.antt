-- ===== src/Dialogs/PathAction.antt =====
-- `PathActionDialog` in frontend/src/components/FileDialogs.tsx: renaming, moving and copying the
-- chosen entries, one request after the other. The server's answers and the times are arguments.
pub mod Sending
pub mod Mutation
pub mod Loop
pub mod Once
pub mod Overwrites
pub mod Completion
pub mod Closing
use zen_fm.Base.{
  ℕ, zero, suc, ◌+◌, Bool, true, false, not, ◌&&◌, ◌||◌, List, [], ◌∷◌, ◌++◌, map, Option, none,
  some, ltb, min, if◌then◌else◌, Text, text_eq, starts_with, take, length, select, every, total,
  is_some, ◌==◌,
}
use zen_fm.Paths.{slash, root, or_else, replace_doubles, join_path}
use zen_fm.Entries.{FileEntry, is_directory, has_text}
use zen_fm.Dialogs.Duplicate.{last_index_of, duplicate_name}

pub data PathAction : Type 0 where
  rename move copy : PathAction

abbrev pub is_rename : PathAction → Bool
is_rename PathAction.rename = true
is_rename PathAction.move = false
is_rename PathAction.copy = false

abbrev pub is_move : PathAction → Bool
is_move PathAction.rename = false
is_move PathAction.move = true
is_move PathAction.copy = false

abbrev pub is_copy : PathAction → Bool
is_copy PathAction.rename = false
is_copy PathAction.move = false
is_copy PathAction.copy = true

abbrev pub or_zero : Option ℕ → ℕ
or_zero none = 0
or_zero (some n) = n

unfoldable pub parent_path : Text → Text
unfolding last_index_of
parent_path path = or_else (take (or_zero (last_index_of slash path)) path) root

unfoldable pub is_move_destination_allowed : (destination : Text) → FileEntry → Bool
is_move_destination_allowed destination entry =
    not (is_directory entry.kind)
    || not (text_eq destination entry.path)
      && not (starts_with destination (entry.path ++ slash ∷ []))

-- The parts of the dialog that a run reads.
pub record Job : Type 0 where
  pub action : PathAction
  pub entries : List FileEntry
  pub copy_destination : Option Text
  pub destination : Text

abbrev pub several : List FileEntry → Bool
several entries = ltb 1 (length entries)

unfoldable pub direct_copy : Job → Bool
direct_copy job = is_copy job.action && is_some job.copy_destination

abbrev pub text_or : Option Text → Text → Text
text_or none fallback = fallback
text_or (some text) fallback = text

-- The destination when the dialog opens.
unfoldable pub first_destination :
    PathAction → (entries : List FileEntry) → FileEntry → (starting : Option Text) → Text
unfolding parent_path
first_destination action entries entry starting =
    let parent = parent_path entry.path in
    let proposed =
      if is_rename action
      then entry.name
      else if is_move action || several entries
      then parent
      else (if text_eq parent root then [] else parent) ++ slash ∷ entry.name in
    text_or starting proposed

unfoldable pub same_folder_entries : Job → List FileEntry
unfolding direct_copy join_path
same_folder_entries job =
    if direct_copy job
    then select (λ item. text_eq (join_path (text_or job.copy_destination []) item.name) item.path)
        job.entries
    else []

unfoldable pub target_of : Job → FileEntry → Text
unfolding parent_path direct_copy join_path replace_doubles
target_of job item =
    if is_rename job.action
    then replace_doubles (parent_path item.path ++ slash ∷ job.destination)
    else if is_move job.action || several job.entries || direct_copy job
    then join_path (text_or job.copy_destination job.destination) item.name
    else job.destination

pub record CopyPlan : Type 0 where
  pub bytes : List (Text × ℕ)
  pub total_bytes : ℕ

pub record CopyProgress : Type 0 where
  pub copied_bytes : ℕ
  pub total_bytes : ℕ
  pub base_bytes : ℕ
  pub started_at : ℕ
  pub updated_at : ℕ
  pub measuring : Bool

-- `bytes.get(path) ?? 0`.
abbrev pub bytes_of : List (Text × ℕ) → Text → ℕ
bytes_of [] path = 0
bytes_of ((source, bytes) ∷ items) path = if text_eq source path then bytes else bytes_of items path

-- What the dialog keeps from one run to the next.
pub record State : Type 0 where
  pub completed : List Text
  pub conflict_path : Option Text
  pub copy_plan : Option CopyPlan
  pub copy_progress : Option CopyProgress

-- The effect on another action, destination or choice of entries.
abbrev pub reset : State
reset = record { completed = []; conflict_path = none; copy_plan = none; copy_progress = none }

pub record Choice : Type 0 where
  pub overwrite : Bool
  pub duplicate : Bool

pub data Outcome : Type 0 where
  done conflict failed : Outcome

-- The server's answer to one request: the bytes it reports, each with the time, and its outcome.
pub record Answer : Type 0 where
  pub reports : List (ℕ × ℕ)
  pub outcome : Outcome
  pub ended_at : ℕ

pub record Call : Type 0 where
  pub source : Text
  pub target : Text
  pub overwrite : Bool

pub data Status : Type 0 where
  going waiting stopped : Status

pub record Run : Type 0 where
  pub state : State
  pub names : List (Text × List Text)
  pub answers : List Answer
  pub calls : List (Call × Outcome)
  pub status : Status
