-- ===== src/Dialogs/PathAction/Completion.antt =====
-- A run that closes the dialog has done every entry.
use zen_fm.Base.{
  ◌+◌, ◌≤◌, ◌≡◌, refl, sym, ap, ◌∙◌, subst, inl, inr, true, Bool-cases, List, [], ◌∷◌, Option, none,
  some, if◌then◌else◌, Text, text_eq_refl, All, All-map, arith,
}
use zen_fm.Entries.{FileEntry, has_text}
use zen_fm.Dialogs.PathAction.{
  Job, CopyPlan, State, Choice, Outcome, done, conflict, failed, Answer, Call, going, stopped, Run,
}
use zen_fm.Dialogs.PathAction.Sending.{
  visit, visit_all, send, attempt, resolve, settle, report, status_after, request, go_on,
}
use zen_fm.Dialogs.PathAction.Loop.{visit_all-keeps, report-completed, mutate-Looped, Status-cases}
use zen_fm.Dialogs.PathAction.Once.{
  Trace, times_done, mutate-Traced, Trace-times_done, mark-kept, settle-completed,
}
use zen_fm.Dialogs.PathAction.Mutation.{mutate, Replies}

settle-done :
    (plan : Option CopyPlan) (entries : List FileEntry) (item : FileEntry) (answer : Answer)
    (outcome : Outcome) (s : State)
    → status_after outcome ≡ going
    → has_text (settle plan entries item answer outcome s).completed item.path ≡ true
settle-done none entries item answer done s g = rw (text_eq_refl item.path) refl
settle-done (some plan) entries item answer done s g = rw (text_eq_refl item.path) refl
settle-done plan entries item answer conflict s g = absurd (cc)
settle-done plan entries item answer failed s g = absurd (cc)

send-done :
    (plan : Option CopyPlan) (job : Job) (choice : Choice) (item : FileEntry) (target : Text)
    (answers : List Answer) (r : Run)
    → (send plan job choice item target answers r).status ≡ going
    → has_text (send plan job choice item target answers r).state.completed item.path ≡ true
send-done plan job choice item target [] r g = absurd (cc)
send-done plan job choice item target (answer ∷ answers) r g =
    settle-done plan job.entries item answer answer.outcome
      (report plan job.entries item answer r.state) g

attempt-done :
    (plan : Option CopyPlan) (job : Job) (choice : Choice) (item : FileEntry)
    (target : Option (Text × List (Text × List Text))) (r : Run)
    → (attempt plan job choice item target r).status ≡ going
    → has_text (attempt plan job choice item target r).state.completed item.path ≡ true
attempt-done plan job choice item none r g = absurd (cc)
attempt-done plan job choice item (some (target, folders)) r g =
    send-done plan job choice item target r.answers (record r { names = folders }) g

visit-done :
    (plan : Option CopyPlan) (job : Job) (choice : Choice) (item : FileEntry) (r : Run)
    → (visit plan job choice item r).status ≡ going
    → has_text (visit plan job choice item r).state.completed item.path ≡ true
unfolding visit
visit-done plan job choice item r = elim (Bool-cases (has_text r.state.completed item.path)) [
  | inl e ↦ rw e (λ g. e)
  | inr e ↦ rw e (attempt-done plan job choice item (resolve job choice item r.names) r)
]

-- An entry that is done stays done.
send-kept :
    (plan : Option CopyPlan) (job : Job) (choice : Choice) (path : Text) (item : FileEntry)
    (target : Text) (answers : List Answer) (r : Run)
    → has_text r.state.completed path ≡ true
    → has_text (send plan job choice item target answers r).state.completed path ≡ true
send-kept plan job choice path item target [] r h = h
send-kept plan job choice path item target (answer ∷ answers) r h =
    let call = request choice r.state item target in
    rw
      (
        settle-completed plan job.entries item answer answer.outcome
            (report plan job.entries item answer r.state) call refl,
        report-completed plan job.entries item answer r.state,
      )
      (mark-kept path call answer.outcome r.state.completed h)

attempt-kept :
    (plan : Option CopyPlan) (job : Job) (choice : Choice) (path : Text) (item : FileEntry)
    (target : Option (Text × List (Text × List Text))) (r : Run)
    → has_text r.state.completed path ≡ true
    → has_text (attempt plan job choice item target r).state.completed path ≡ true
attempt-kept plan job choice path item none r h = h
attempt-kept plan job choice path item (some (target, folders)) r h =
    send-kept plan job choice path item target r.answers (record r { names = folders }) h

visit-kept :
    (plan : Option CopyPlan) (job : Job) (choice : Choice) (path : Text) (item : FileEntry)
    (r : Run)
    → has_text r.state.completed path ≡ true
    → has_text (visit plan job choice item r).state.completed path ≡ true
unfolding visit
visit-kept plan job choice path item r h =
    elim (Bool-cases (has_text r.state.completed item.path)) [
      | inl e ↦ rw e h
      | inr e ↦ rw e (attempt-kept plan job choice path item (resolve job choice item r.names) r h)
    ]

visit_all-kept :
    (plan : Option CopyPlan) (job : Job) (choice : Choice) (path : Text) (items : List FileEntry)
    (r : Run)
    → r.status ≡ going
    → has_text r.state.completed path ≡ true
    → has_text (visit_all plan job choice items r).state.completed path ≡ true
visit_all-kept plan job choice path items r g h =
    visit_all-keeps (λ r. has_text r.state.completed path ≡ true) plan job choice
      (λ item r g h. visit-kept plan job choice path item r h) items r g h

visit_all-step :
    (plan : Option CopyPlan) (job : Job) (choice : Choice) (item : FileEntry)
    (items : List FileEntry) (r : Run)
    → visit_all plan job choice (item ∷ items) r
      ≡ go_on
          (visit plan job choice item r).status
          (visit_all plan job choice items (visit plan job choice item r))
          (visit plan job choice item r)
unfolding visit_all
visit_all-step plan job choice item items r = refl

visit_all-going :
    (plan : Option CopyPlan) (job : Job) (choice : Choice) (item : FileEntry)
    (items : List FileEntry) (r : Run)
    → (visit plan job choice item r).status ≡ going
    → visit_all plan job choice (item ∷ items) r
      ≡ visit_all plan job choice items (visit plan job choice item r)
unfolding visit_all
visit_all-going plan job choice item items r e = rw e refl

abbrev AllDone : List FileEntry → Run → Type 0
AllDone items r = All (λ item. has_text r.state.completed item.path ≡ true) items

visit_all-done :
    (plan : Option CopyPlan) (job : Job) (choice : Choice) (items : List FileEntry) (r : Run)
    → r.status ≡ going
    → (visit_all plan job choice items r).status ≡ going
    → AllDone items (visit_all plan job choice items r)
visit_all-done plan job choice [] r g = λ h. tt
visit_all-done plan job choice (item ∷ items) r g =
    let next = visit plan job choice item r in
    let rest = visit_all plan job choice items next in
    elim (Status-cases next.status) [
      | inl e ↦
          subst (λ x. x.status ≡ going → AllDone (item ∷ items) x)
            (sym (visit_all-going plan job choice item items r e))
            (λ h. (
              visit_all-kept plan job choice item.path items next e
                  (visit-done plan job choice item r e),
              visit_all-done plan job choice items next e h,
            ))
      | inr (n, stays) ↦
          subst (λ x. x.status ≡ going → AllDone (item ∷ items) x)
            (sym (visit_all-step plan job choice item items r ∙ stays rest next))
            (λ h. absurd (n h))
    ]

-- An entry that is done at the end was done before, or by one of the requests.
Trace-done :
    (path : Text) (before : List Text) (calls : List (Call × Outcome)) (after : List Text)
    → Trace before calls after
    → has_text after path ≡ true
    → 1 ≤ times_done path calls + (if has_text before path then 1 else 0)
Trace-done path before [] after t h = rw (t, h) (omega arith)
Trace-done path before ((call, done) ∷ calls) after t h =
    ground (arith, Trace-done path (call.source ∷ before) calls after t.1 h)
Trace-done path before ((call, conflict) ∷ calls) after t h =
    Trace-done path before calls after t.1 h
Trace-done path before ((call, failed) ∷ calls) after t h = Trace-done path before calls after t.1 h

abbrev pub EachDone : State → List FileEntry → Run → Type 0
EachDone s entries r =
    All
      (λ item. times_done item.path r.calls + (if has_text s.completed item.path then 1 else 0) ≡ 1)
      entries

once :
    (s : State) (path : Text) (r : Run)
    → Trace s.completed r.calls r.state.completed
    → has_text r.state.completed path ≡ true
    → times_done path r.calls + (if has_text s.completed path then 1 else 0) ≡ 1
once s path r t h = omega (
  arith,
  Trace-done path s.completed r.calls r.state.completed t h,
  Trace-times_done path s.completed r.calls r.state.completed t,
)

all_done :
    (job : Job) (choice : Choice) (replies : Replies) (s : State)
    → (mutate job choice replies s).status ≡ going
    → AllDone job.entries (mutate job choice replies s)
all_done job choice replies s g =
    let (begun, _, l) = mutate-Looped job choice replies s in
    elim l [
      | inl (e, inl stop) ↦
          let never : going ≡ stopped = sym g ∙ ap (λ r. r.status) e ∙ stop in absurd (cc)
      | inl (e, inr empty) ↦
          subst (λ items. AllDone items (mutate job choice replies s)) (sym empty) tt
      | inr (plan, b, e) ↦
          rw e (visit_all-done plan job choice job.entries begun b (ap (λ r. r.status) (sym e) ∙ g))
    ]

-- A run that ends without a fault, and so closes the dialog, has done everything: each entry was moved
-- or copied once, by a request of this run, unless an earlier run had done it, and then by none.
pub mutate-done :
    (job : Job) (choice : Choice) (replies : Replies) (s : State)
    → (mutate job choice replies s).status ≡ going
    → EachDone s job.entries (mutate job choice replies s)
mutate-done job choice replies s g =
    let r = mutate job choice replies s in
    All-map (λ item. has_text r.state.completed item.path ≡ true)
      (λ item. times_done item.path r.calls + (if has_text s.completed item.path then 1 else 0) ≡ 1)
      job.entries (λ item h. once s item.path r (mutate-Traced job choice replies s) h)
      (all_done job choice replies s g)
