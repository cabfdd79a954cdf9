-- ===== src/Dialogs/PathAction/Closing.antt =====
-- A run whose requests are all answered well ends, and closes the dialog.
use zen_fm.Base.{
  ℕ, suc, ◌≤◌, ◌≡◌, refl, ap, ◌∙◌, inl, inr, Bool, true, false, not, ◌&&◌, Bool-cases, List, [],
  ◌∷◌, Option, some, Text, is_some, All, length, arith,
}
use zen_fm.Entries.{FileEntry, has_text}
use zen_fm.Dialogs.PathAction.{
  target_of, Job, CopyPlan, State, Choice, done, Answer, going, Run, is_copy,
}
use zen_fm.Dialogs.PathAction.Sending.{visit, visit_all, send, status_after}
use zen_fm.Dialogs.PathAction.Mutation.{
  mutate, measured_run, measure, send_all, run_of, idle, plan_of, begin_progress, Replies,
  duplicate_names,
}
use zen_fm.Dialogs.PathAction.Completion.{mutate-done, EachDone}

abbrev pub IsGranted : List Answer → Type 0
IsGranted answers = All (λ answer. answer.outcome ≡ done) answers

-- Answers for so many entries are left.
abbrev IsReady : ℕ → Run → Type 0
IsReady count r = (r.status ≡ going) × IsGranted r.answers × (count ≤ length r.answers)

send-IsReady :
    (plan : Option CopyPlan) (job : Job) (choice : Choice) (item : FileEntry) (target : Text)
    (answers : List Answer) (count : ℕ) (r : Run)
    → IsGranted answers
    → suc count ≤ length answers
    → IsReady count (send plan job choice item target answers r)
send-IsReady plan job choice item target [] count r g h = absurd (omega arith)
send-IsReady plan job choice item target (answer ∷ answers) count r g h =
    (ap status_after g.0, g.1, omega arith)

visit-IsReady :
    (plan : Option CopyPlan) (job : Job) (choice : Choice) (item : FileEntry) (count : ℕ) (r : Run)
    → choice.duplicate ≡ false
    → IsReady (suc count) r
    → IsReady count (visit plan job choice item r)
unfolding visit
visit-IsReady plan job choice item count r d (s, g, h) =
    elim (Bool-cases (has_text r.state.completed item.path)) [
      | inl e ↦ rw e (s, g, omega arith)
      | inr e ↦
          rw (e, d)
            (send-IsReady plan job choice item (target_of job item) r.answers count
              (record r { names = r.names }) g h)
    ]

visit_all-going_all :
    (plan : Option CopyPlan) (job : Job) (choice : Choice) (items : List FileEntry) (r : Run)
    → choice.duplicate ≡ false
    → IsReady (length items) r
    → (visit_all plan job choice items r).status ≡ going
unfolding visit_all
visit_all-going_all plan job choice [] r d k = k.0
visit_all-going_all plan job choice (item ∷ items) r d k =
    let next = visit-IsReady plan job choice item (length items) r d k in
    rw next.0 (visit_all-going_all plan job choice items (visit plan job choice item r) d next)

and_false : (b : Bool) → (b && false) ≡ false
and_false true = refl
and_false false = refl

measured :
    (job : Job) (o : Option CopyPlan) (s : State)
    → is_some o ≡ true
    → (is_copy job.action && not (is_some (measure job o s).copy_plan)) ≡ false
measured job o s h = elim (Bool-cases (is_copy job.action && not (is_some s.copy_plan))) [
  | inl e ↦ rw (e, h) (and_false (is_copy job.action))
  | inr e ↦ rw e e
]

run_of-going :
    (entries : List FileEntry) (s : State) (busy : Run)
    → busy.status ≡ going
    → (run_of entries (idle s) busy).status ≡ going
run_of-going [] s busy h = refl
run_of-going (entry ∷ entries) s busy h = h

no_duplicates :
    (job : Job) (choice : Choice) (replies : Replies)
    → choice.duplicate ≡ false
    → duplicate_names job choice replies.listing ≡ some []
no_duplicates job choice replies d = rw d refl

send_all-going :
    (job : Job) (choice : Choice) (replies : Replies) (s : State)
    → choice.duplicate ≡ false
    → IsGranted replies.answers
    → length job.entries ≤ length replies.answers
    → (send_all job choice replies s (duplicate_names job choice replies.listing)).status ≡ going
send_all-going job choice replies s d g h =
    ap (λ folders. (send_all job choice replies s folders).status)
      (no_duplicates job choice replies d)
    ∙ visit_all-going_all (plan_of job s) job choice job.entries
        (record {
          state = begin_progress job (plan_of job s) replies.started_at s;
          names = [];
          answers = replies.answers;
          calls = [];
          status = going;
        })
        d (refl, g, h)

-- When the size of the entries is known, no duplicates are asked for, and there is an answer for each
-- entry and all of them good: the run ends without a fault, and each entry has been moved or copied
-- once, by a request of this run or of an earlier one.
pub mutate-closes :
    (job : Job) (choice : Choice) (replies : Replies) (s : State)
    → choice.duplicate ≡ false
    → is_some replies.measured ≡ true
    → IsGranted replies.answers
    → length job.entries ≤ length replies.answers
    → ((mutate job choice replies s).status ≡ going)
      × EachDone s job.entries (mutate job choice replies s)
unfolding mutate
mutate-closes job choice replies s d m g h =
    let start = measure job replies.measured s in
    let ends : (measured_run job choice replies start).status ≡ going =
      rw (measured job replies.measured s m) (send_all-going job choice replies start d g h) in
    let whole : (mutate job choice replies s).status ≡ going =
      run_of-going job.entries s (measured_run job choice replies start) ends in
    (whole, mutate-done job choice replies s whole)
