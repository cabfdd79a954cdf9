-- ===== src/Dialogs/PathAction/Mutation.antt =====
-- One run of the mutation of `PathActionDialog` in frontend/src/components/FileDialogs.tsx, from the
-- measuring of a copy to the end of the loop, and the runs that follow each other in a dialog.
use zen_fm.Base.{
  ℕ, Bool, true, false, ◌&&◌, not, List, [], ◌∷◌, ◌++◌, map, Option, none, some, if◌then◌else◌,
  Text, is_some, every, text_eq, select,
}
use zen_fm.Entries.{FileEntry, is_directory, has_text}
use zen_fm.Dialogs.PathAction.{
  is_copy, is_move, parent_path, Job, same_folder_entries, CopyPlan, CopyProgress, State, Choice,
  Outcome, Answer, Call, Status, going, waiting, stopped, Run, is_move_destination_allowed,
}
use zen_fm.Dialogs.PathAction.Sending.{visit_all, completed_bytes}

-- What the server answers in one run.
pub record Replies : Type 0 where
  pub measured : Option CopyPlan
  pub listing : Text → Option (List Text)
  pub started_at : ℕ
  pub answers : List Answer

abbrev pub unique : List Text → List Text
unique [] = []
unique (text ∷ texts) = let rest = unique texts in if has_text texts text then rest else text ∷ rest

abbrev pub with_listing :
    Text → Option (List Text) → Option (List (Text × List Text)) → Option (List (Text × List Text))
with_listing parent none folders = none
with_listing parent (some names) none = none
with_listing parent (some names) (some folders) = some ((parent, names) ∷ folders)

-- One listing that fails makes `Promise.all` fail.
abbrev pub list_all : (Text → Option (List Text)) → List Text → Option (List (Text × List Text))
list_all listing [] = some []
list_all listing (parent ∷ parents) =
    with_listing parent (listing parent) (list_all listing parents)

abbrev pub duplicate_names :
    Job → Choice → (Text → Option (List Text)) → Option (List (Text × List Text))
duplicate_names job choice listing =
    if choice.duplicate
    then list_all listing (unique (map (λ item. parent_path item.path) (same_folder_entries job)))
    else some []

abbrev pub measuring : CopyProgress
measuring = record {
  copied_bytes = 0;
  total_bytes = 0;
  base_bytes = 0;
  started_at = 0;
  updated_at = 0;
  measuring = true;
}

-- The plan of a copy is asked for once; a copy whose size cannot be measured goes no further.
abbrev pub measure : Job → Option CopyPlan → State → State
measure job measured s =
    if is_copy job.action && not (is_some s.copy_plan)
    then record s { copy_plan = measured; copy_progress = some measuring }
    else s

abbrev pub begin_progress : Job → Option CopyPlan → ℕ → State → State
begin_progress job none now s = s
begin_progress job (some plan) now s =
    let copied = completed_bytes plan job.entries s.completed in
    record s {
      copy_progress = some (record {
        copied_bytes = copied;
        total_bytes = plan.total_bytes;
        base_bytes = copied;
        started_at = now;
        updated_at = now;
        measuring = false;
      });
    }

-- The plan that the loop reads.
abbrev pub plan_of : Job → State → Option CopyPlan
plan_of job s = if is_copy job.action then s.copy_plan else none

abbrev pub stop : State → Run
stop s = record { state = s; names = []; answers = []; calls = []; status = stopped }

abbrev pub send_all : Job → Choice → Replies → State → Option (List (Text × List Text)) → Run
send_all job choice replies s none = stop s
send_all job choice replies s (some folders) =
    visit_all (plan_of job s) job choice job.entries (record {
      state = begin_progress job (plan_of job s) replies.started_at s;
      names = folders;
      answers = replies.answers;
      calls = [];
      status = going;
    })

abbrev pub measured_run : Job → Choice → Replies → State → Run
measured_run job choice replies s =
    if is_copy job.action && not (is_some s.copy_plan)
    then stop s
    else send_all job choice replies s (duplicate_names job choice replies.listing)

abbrev pub idle : State → Run
idle s = record { state = s; names = []; answers = []; calls = []; status = going }

abbrev pub run_of : List FileEntry → (idle busy : Run) → Run
run_of [] idle busy = idle
run_of (entry ∷ entries) idle busy = busy

unfoldable pub mutate : Job → Choice → Replies → State → Run
unfolding same_folder_entries parent_path visit_all
mutate job choice replies s =
    run_of job.entries (idle s) (measured_run job choice replies (measure job replies.measured s))

abbrev pub calls_until : Status → (calls rest : List (Call × Outcome)) → List (Call × Outcome)
calls_until going calls rest = calls
calls_until waiting calls rest = calls
calls_until stopped calls rest = calls ++ rest

-- The requests of a dialog and their outcomes: after a run that stopped, the user may start another,
-- with the same choice or to overwrite. A run without a fault closes the dialog.
unfoldable pub run_dialog : Job → List (Choice × Replies) → State → List (Call × Outcome)
unfolding mutate
run_dialog job [] s = []
run_dialog job ((choice, replies) ∷ attempts) s =
    let r = mutate job choice replies s in
    let rest = run_dialog job attempts r.state in calls_until r.status r.calls rest

-- The folders that a move may choose, and whether it would move nothing.
unfoldable pub move_folders : Job → (listed : List FileEntry) → List FileEntry
unfolding is_move_destination_allowed
move_folders job listed =
    select
      (λ item.
        is_directory item.kind
        && every (λ entry. is_move_destination_allowed item.path entry) job.entries)
      listed

unfoldable pub moving_to_current_folder : Job → Bool
unfolding parent_path
moving_to_current_folder job =
    is_move job.action
    && every (λ item. text_eq (parent_path item.path) job.destination) job.entries
