-- ===== src/Dialogs/PathAction/Sending.antt =====
-- The mutation of `PathActionDialog` in frontend/src/components/FileDialogs.tsx: what it sends, and
-- what each answer makes of the dialog's state.
use zen_fm.Base.{
  ℕ, ◌+◌, Bool, false, ◌&&◌, ◌||◌, List, [], ◌∷◌, ◌++◌, Option, none, some, min, if◌then◌else◌,
  Text, text_eq, total,
}
use zen_fm.Paths.{join_path}
use zen_fm.Entries.{FileEntry, has_text}
use zen_fm.Dialogs.Duplicate.{duplicate_name}
use zen_fm.Dialogs.PathAction.{
  parent_path, Job, target_of, CopyPlan, CopyProgress, bytes_of, State, Choice, Outcome, done,
  conflict, failed, Answer, Call, Status, going, waiting, stopped, Run,
}

-- The bytes of the entries that are done.
abbrev pub completed_bytes : CopyPlan → List FileEntry → (completed : List Text) → ℕ
completed_bytes plan entries completed =
    total (λ item. if has_text completed item.path then bytes_of plan.bytes item.path else 0)
      entries

-- `current && ...`.
abbrev pub changed : (CopyProgress → CopyProgress) → Option CopyProgress → Option CopyProgress
changed change none = none
changed change (some p) = some (change p)

abbrev pub change_progress : (CopyProgress → CopyProgress) → State → State
change_progress change s = record s { copy_progress = changed change s.copy_progress }

abbrev pub show_bytes : (copied now : ℕ) → State → State
show_bytes copied now s =
    change_progress (λ p. record p { copied_bytes = copied; updated_at = now }) s

-- The callback of `copyWithProgress`, at each report.
abbrev pub show_reports : (base bytes : ℕ) → List (ℕ × ℕ) → State → State
show_reports base bytes [] s = s
show_reports base bytes ((copied, now) ∷ reports) s =
    show_reports base bytes reports (show_bytes (base + min copied bytes) now s)

abbrev pub report : Option CopyPlan → List FileEntry → FileEntry → Answer → State → State
report none entries item answer s = s
report (some plan) entries item answer s =
    show_reports (completed_bytes plan entries s.completed) (bytes_of plan.bytes item.path)
      answer.reports s

abbrev pub show_completed : Option CopyPlan → List FileEntry → ℕ → State → State
show_completed none entries now s = s
show_completed (some plan) entries now s =
    show_bytes (completed_bytes plan entries s.completed) now s

abbrev pub settle : Option CopyPlan → List FileEntry → FileEntry → Answer → Outcome → State → State
settle plan entries item answer done s =
    record (show_completed plan entries answer.ended_at
      (record s { completed = item.path ∷ s.completed })) { conflict_path = none }
settle plan entries item answer conflict s =
    record (show_completed plan entries answer.ended_at s) { conflict_path = some item.path }
settle plan entries item answer failed s = show_completed plan entries answer.ended_at s

abbrev pub status_after : Outcome → Status
status_after done = going
status_after conflict = stopped
status_after failed = stopped

abbrev pub names_in : List (Text × List Text) → Text → Option (List Text)
names_in [] parent = none
names_in ((folder, names) ∷ folders) parent =
    if text_eq folder parent then some names else names_in folders parent

abbrev pub put_names : List (Text × List Text) → Text → List Text → List (Text × List Text)
put_names [] parent names = []
put_names ((folder, old) ∷ folders) parent names =
    if text_eq folder parent
    then (folder, names) ∷ folders
    else (folder, old) ∷ put_names folders parent names

abbrev pub renamed :
    List (Text × List Text)
    → Text
    → Option (Text × List Text)
    → Option (Text × List (Text × List Text))
renamed folders parent none = none
renamed folders parent (some (name, names)) =
    some (join_path parent name, put_names folders parent names)

-- Without the names of the folder, the code throws.
abbrev pub renamed_in :
    List (Text × List Text)
    → FileEntry
    → Option (List Text)
    → Option (Text × List (Text × List Text))
renamed_in folders item none = none
renamed_in folders item (some names) =
    renamed folders (parent_path item.path) (duplicate_name item names)

abbrev pub resolve :
    Job → Choice → FileEntry → List (Text × List Text) → Option (Text × List (Text × List Text))
resolve job choice item folders =
    if choice.duplicate && text_eq (target_of job item) item.path
    then renamed_in folders item (names_in folders (parent_path item.path))
    else some (target_of job item, folders)

abbrev pub is_path : Option Text → Text → Bool
is_path none path = false
is_path (some other) path = text_eq other path

abbrev pub replaces : Choice → State → FileEntry → (target : Text) → Bool
replaces choice s item target =
    choice.overwrite && (is_path s.conflict_path item.path || text_eq target item.path)

abbrev pub request : Choice → State → FileEntry → (target : Text) → Call
request choice s item target = record {
  source = item.path;
  target = target;
  overwrite = replaces choice s item target;
}

abbrev pub answered : Option CopyPlan → Job → FileEntry → Answer → State → State
answered plan job item answer s =
    settle plan job.entries item answer answer.outcome (report plan job.entries item answer s)

abbrev pub send :
    Option CopyPlan → Job → Choice → FileEntry → (target : Text) → List Answer → Run → Run
send plan job choice item target [] r = record r { status = waiting }
send plan job choice item target (answer ∷ answers) r = record r {
  state = answered plan job item answer r.state;
  answers = answers;
  calls = r.calls ++ (request choice r.state item target, answer.outcome) ∷ [];
  status = status_after answer.outcome;
}

abbrev pub attempt :
    Option CopyPlan → Job → Choice → FileEntry → Option (Text × List (Text × List Text)) → Run → Run
attempt plan job choice item none r = record r { status = stopped }
attempt plan job choice item (some (target, folders)) r =
    send plan job choice item target r.answers (record r { names = folders })

-- The body of the loop.
unfoldable pub visit : Option CopyPlan → Job → Choice → FileEntry → Run → Run
unfolding target_of duplicate_name parent_path join_path
visit plan job choice item r =
    if has_text r.state.completed item.path
    then r
    else attempt plan job choice item (resolve job choice item r.names) r

-- The loop ends at a request that fails, and at one without an answer yet.
abbrev pub go_on : Status → (rest next : Run) → Run
go_on going rest next = rest
go_on waiting rest next = next
go_on stopped rest next = next

unfoldable pub visit_all : Option CopyPlan → Job → Choice → List FileEntry → Run → Run
unfolding visit
visit_all plan job choice [] r = r
visit_all plan job choice (item ∷ items) r =
    let next = visit plan job choice item r in
    go_on next.status (visit_all plan job choice items next) next
