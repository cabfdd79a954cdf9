-- ===== src/Dialogs/PathAction/Loop.antt =====
-- The loop of the dialog's mutation, for the proofs: what each part leaves of the state, and what holds
-- of all visits when each visit keeps it.
use zen_fm.Base.{
  not, is_some, ℕ, ◌+◌, min, ◌≡◌, ◌≢◌, refl, sym, ◌∙◌, subst, ◌⊎◌, inl, inr, ◌&&◌, Bool-cases, List,
  [], ◌∷◌, Option, none, some, Text,
}
use zen_fm.Entries.{FileEntry}
use zen_fm.Dialogs.PathAction.{
  is_copy, Job, bytes_of, CopyPlan, State, Choice, Answer, Status, going, waiting, stopped, Run,
}
use zen_fm.Dialogs.PathAction.Sending.{
  visit, visit_all, report, show_reports, go_on, show_bytes, completed_bytes,
}
use zen_fm.Dialogs.PathAction.Mutation.{
  mutate, Replies, measured_run, run_of, begin_progress, plan_of, stop, idle, duplicate_names,
  measure, send_all,
}

pub Status-cases :
    (s : Status) → (s ≡ going) ⊎ ((s ≢ going) × ((rest next : Run) → go_on s rest next ≡ next))
Status-cases going = inl refl
Status-cases waiting = inr (λ e. cc, λ rest next. refl)
Status-cases stopped = inr (λ e. cc, λ rest next. refl)

-- What a visit keeps, in a run that still goes on, the loop keeps.
pub visit_all-keeps :
    (P : Run → Type 0) (plan : Option CopyPlan) (job : Job) (choice : Choice)
    → ((item : FileEntry) (r : Run) → r.status ≡ going → P r → P (visit plan job choice item r))
    → (items : List FileEntry) (r : Run) → r.status ≡ going
    → P r
    → P (visit_all plan job choice items r)
unfolding visit_all
visit_all-keeps P plan job choice step [] r g p = p
visit_all-keeps P plan job choice step (item ∷ items) r g p =
    elim (Status-cases (visit plan job choice item r).status) [
      | inl e ↦ rw e (
          visit_all-keeps P plan job choice step items (visit plan job choice item r) e
            (step item r g p))
      | inr (_, h) ↦
          subst P
            (sym (
              h (visit_all plan job choice items (visit plan job choice item r))
                (visit plan job choice item r)))
            (step item r g p)
    ]

show_reports-completed :
    (base bytes : ℕ) (reports : List (ℕ × ℕ)) (s : State)
    → (show_reports base bytes reports s).completed ≡ s.completed
show_reports-completed base bytes [] s = refl
show_reports-completed base bytes ((copied, now) ∷ reports) s =
    show_reports-completed base bytes reports (show_bytes (base + min copied bytes) now s)

show_reports-conflict_path :
    (base bytes : ℕ) (reports : List (ℕ × ℕ)) (s : State)
    → (show_reports base bytes reports s).conflict_path ≡ s.conflict_path
show_reports-conflict_path base bytes [] s = refl
show_reports-conflict_path base bytes ((copied, now) ∷ reports) s =
    show_reports-conflict_path base bytes reports (show_bytes (base + min copied bytes) now s)

pub report-completed :
    (plan : Option CopyPlan) (entries : List FileEntry) (item : FileEntry) (answer : Answer)
    (s : State)
    → (report plan entries item answer s).completed ≡ s.completed
report-completed none entries item answer s = refl
report-completed (some plan) entries item answer s =
    show_reports-completed (completed_bytes plan entries s.completed)
      (bytes_of plan.bytes item.path) answer.reports s

pub report-conflict_path :
    (plan : Option CopyPlan) (entries : List FileEntry) (item : FileEntry) (answer : Answer)
    (s : State)
    → (report plan entries item answer s).conflict_path ≡ s.conflict_path
report-conflict_path none entries item answer s = refl
report-conflict_path (some plan) entries item answer s =
    show_reports-conflict_path (completed_bytes plan entries s.completed)
      (bytes_of plan.bytes item.path) answer.reports s

-- A run before its first request.
abbrev pub Begun : State → Run → Type 0
Begun s r =
    (r.calls ≡ []) × (r.state.completed ≡ s.completed) × (r.state.conflict_path ≡ s.conflict_path)

-- A run sends nothing, or it is the loop from its first request on.
abbrev pub Looped : Job → Choice → Run → Run → Type 0
Looped job choice begun r =
    ((r ≡ begun) × ((begun.status ≡ stopped) ⊎ (job.entries ≡ [])))
    ⊎ ((plan : Option CopyPlan) × (begun.status ≡ going)
        × (r ≡ visit_all plan job choice job.entries begun))

begin_progress-Begun :
    (job : Job) (plan : Option CopyPlan) (now : ℕ) (s : State)
    → ((begin_progress job plan now s).completed ≡ s.completed)
      × ((begin_progress job plan now s).conflict_path ≡ s.conflict_path)
begin_progress-Begun job none now s = (refl, refl)
begin_progress-Begun job (some plan) now s = (refl, refl)

measure-Begun :
    (job : Job) (measured : Option CopyPlan) (s : State)
    → ((measure job measured s).completed ≡ s.completed)
      × ((measure job measured s).conflict_path ≡ s.conflict_path)
measure-Begun job measured s = elim (Bool-cases (is_copy job.action && not (is_some s.copy_plan))) [
  | inl e ↦ rw e (refl, refl)
  | inr e ↦ rw e (refl, refl)
]

send_all-Looped :
    (job : Job) (choice : Choice) (replies : Replies) (s : State)
    (folders : Option (List (Text × List Text)))
    → (begun : Run) × Begun s begun
      × Looped job choice begun (send_all job choice replies s folders)
send_all-Looped job choice replies s none = (stop s, (refl, refl, refl), inl (refl, inl refl))
send_all-Looped job choice replies s (some folders) =
    let plan = plan_of job s in
    let h = begin_progress-Begun job plan replies.started_at s in
    (
      record {
        state = begin_progress job plan replies.started_at s;
        names = folders;
        answers = replies.answers;
        calls = [];
        status = going;
      },
      (refl, h.0, h.1),
      inr (plan, refl, refl),
    )

measured_run-Looped :
    (job : Job) (choice : Choice) (replies : Replies) (s : State)
    → (begun : Run) × Begun s begun × Looped job choice begun (measured_run job choice replies s)
measured_run-Looped job choice replies s =
    elim (Bool-cases (is_copy job.action && not (is_some s.copy_plan))) [
      | inl e ↦ rw e (stop s, (refl, refl, refl), inl (refl, inl refl))
      | inr e ↦
          rw e (send_all-Looped job choice replies s (duplicate_names job choice replies.listing))
    ]

run_of-Looped :
    (job : Job) (choice : Choice) (s : State) (entries : List FileEntry) (busy : Run)
    → job.entries ≡ entries
    → (begun : Run) × Begun s begun × Looped job choice begun busy
    → (begun : Run) × Begun s begun × Looped job choice begun (run_of entries (idle s) busy)
run_of-Looped job choice s [] busy e h = (idle s, (refl, refl, refl), inl (refl, inr e))
run_of-Looped job choice s (entry ∷ entries) busy e h = h

pub mutate-Looped :
    (job : Job) (choice : Choice) (replies : Replies) (s : State)
    → (begun : Run) × Begun s begun × Looped job choice begun (mutate job choice replies s)
unfolding mutate
mutate-Looped job choice replies s =
    let measured = measure job replies.measured s in
    let (begun, b, l) = measured_run-Looped job choice replies measured in
    let m = measure-Begun job replies.measured s in
    run_of-Looped job choice s job.entries (measured_run job choice replies measured) refl
      (begun, (b.0, b.1 ∙ m.0, b.2 ∙ m.1), l)
