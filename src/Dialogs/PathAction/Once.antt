-- ===== src/Dialogs/PathAction/Once.antt =====
-- No entry is moved or copied twice, whatever is tried again.
use zen_fm.Base.{
  ℕ, ◌+◌, ◌≤◌, ◌≡◌, refl, sym, ap, ◌∙◌, subst, inl, inr, true, false, Bool-cases, List, [], ◌∷◌,
  ◌++◌, Option, none, some, if◌then◌else◌, Text, text_eq, text_eq_iff, arith,
}
use zen_fm.Entries.{FileEntry, has_text}
use zen_fm.Dialogs.PathAction.{
  Job, CopyPlan, State, Choice, Outcome, done, conflict, failed, Answer, Call, Status, going,
  waiting, stopped, Run, reset,
}
use zen_fm.Dialogs.PathAction.Sending.{
  visit, send, attempt, resolve, settle, report, request, answered,
}
use zen_fm.Dialogs.PathAction.Loop.{visit_all-keeps, report-completed, mutate-Looped}
use zen_fm.Dialogs.PathAction.Mutation.{mutate, run_dialog, Replies, calls_until}

-- The marks on the completed entries follow the requests that were answered well, and no request is
-- for an entry that is marked.
abbrev pub mark : Call → Outcome → List Text → List Text
mark call done completed = call.source ∷ completed
mark call conflict completed = completed
mark call failed completed = completed

abbrev pub Trace : List Text → List (Call × Outcome) → List Text → Type 0
Trace before [] after = before ≡ after
Trace before ((call, outcome) ∷ calls) after =
    (has_text before call.source ≡ false) × Trace (mark call outcome before) calls after

Trace-append :
    (a b c : List Text) (xs ys : List (Call × Outcome))
    → Trace a xs b
    → Trace b ys c
    → Trace a (xs ++ ys) c
Trace-append a b c [] ys t u = subst (λ m. Trace m ys c) (sym t) u
Trace-append a b c ((call, outcome) ∷ xs) ys t u =
    (t.0, Trace-append (mark call outcome a) b c xs ys t.1 u)

pub settle-completed :
    (plan : Option CopyPlan) (entries : List FileEntry) (item : FileEntry) (answer : Answer)
    (outcome : Outcome) (s : State) (call : Call)
    → call.source ≡ item.path
    → (settle plan entries item answer outcome s).completed ≡ mark call outcome s.completed
settle-completed none entries item answer done s call e = ap (λ p. p ∷ s.completed) (sym e)
settle-completed none entries item answer conflict s call e = refl
settle-completed none entries item answer failed s call e = refl
settle-completed (some plan) entries item answer done s call e = ap (λ p. p ∷ s.completed) (sym e)
settle-completed (some plan) entries item answer conflict s call e = refl
settle-completed (some plan) entries item answer failed s call e = refl

-- A visit adds to a trace.
abbrev pub Traced : List Text → Run → Type 0
Traced before r = Trace before r.calls r.state.completed

send-Traced :
    (plan : Option CopyPlan) (job : Job) (choice : Choice) (item : FileEntry) (target : Text)
    (answers : List Answer) (before : List Text) (r : Run)
    → has_text r.state.completed item.path ≡ false
    → Traced before r
    → Traced before (send plan job choice item target answers r)
send-Traced plan job choice item target [] before r e t = t
send-Traced plan job choice item target (answer ∷ answers) before r e t =
    let call = request choice r.state item target in
    let marked : mark call answer.outcome r.state.completed
        ≡ (answered plan job item answer r.state).completed =
      sym (
        settle-completed plan job.entries item answer answer.outcome
          (report plan job.entries item answer r.state) call refl
        ∙ ap (mark call answer.outcome) (report-completed plan job.entries item answer r.state)) in
    Trace-append before r.state.completed (answered plan job item answer r.state).completed r.calls
      ((call, answer.outcome) ∷ []) t (e, marked)

attempt-Traced :
    (plan : Option CopyPlan) (job : Job) (choice : Choice) (item : FileEntry)
    (target : Option (Text × List (Text × List Text))) (before : List Text) (r : Run)
    → has_text r.state.completed item.path ≡ false
    → Traced before r
    → Traced before (attempt plan job choice item target r)
attempt-Traced plan job choice item none before r e t = t
attempt-Traced plan job choice item (some (target, folders)) before r e t =
    send-Traced plan job choice item target r.answers before (record r { names = folders }) e t

visit-Traced :
    (plan : Option CopyPlan) (job : Job) (choice : Choice) (before : List Text) (item : FileEntry)
    (r : Run)
    → Traced before r
    → Traced before (visit plan job choice item r)
unfolding visit
visit-Traced plan job choice before item r t =
    elim (Bool-cases (has_text r.state.completed item.path)) [
      | inl e ↦ rw e t
      | inr e ↦
          rw e (attempt-Traced plan job choice item (resolve job choice item r.names) before r e t)
    ]

begun-Trace :
    (before : List Text) (calls : List (Call × Outcome)) (after : List Text)
    → calls ≡ []
    → after ≡ before
    → Trace before calls after
begun-Trace before calls after c d = subst (λ cs. Trace before cs after) (sym c) (sym d)

pub mutate-Traced :
    (job : Job) (choice : Choice) (replies : Replies) (s : State)
    → Traced s.completed (mutate job choice replies s)
mutate-Traced job choice replies s =
    let (begun, (c, d, _), l) = mutate-Looped job choice replies s in
    let t : Traced s.completed begun =
      begun-Trace s.completed begun.calls begun.state.completed c d in
    elim l [
      | inl (e, _) ↦ rw e t
      | inr (plan, g, e) ↦ rw e (
          visit_all-keeps (Traced s.completed) plan job choice
            (λ item r g t. visit-Traced plan job choice s.completed item r t) job.entries begun g t)
    ]

until-Trace :
    (status : Status) (a b c : List Text) (calls rest : List (Call × Outcome))
    → Trace a calls b
    → Trace b rest c
    → (after : List Text) × Trace a (calls_until status calls rest) after
until-Trace going a b c calls rest t u = (b, t)
until-Trace waiting a b c calls rest t u = (b, t)
until-Trace stopped a b c calls rest t u = (c, Trace-append a b c calls rest t u)

calls_until-Trace :
    (before : List Text) (r : Run) (rest : List (Call × Outcome))
    → Traced before r
    → (after : List Text) × Trace r.state.completed rest after
    → (after : List Text) × Trace before (calls_until r.status r.calls rest) after
calls_until-Trace before r rest t (after, u) =
    until-Trace r.status before r.state.completed after r.calls rest t u

run_dialog-Trace :
    (job : Job) (attempts : List (Choice × Replies)) (s : State)
    → (after : List Text) × Trace s.completed (run_dialog job attempts s) after
unfolding run_dialog
run_dialog-Trace job [] s = (s.completed, refl)
run_dialog-Trace job ((choice, replies) ∷ attempts) s =
    calls_until-Trace s.completed (mutate job choice replies s)
      (run_dialog job attempts (mutate job choice replies s).state)
      (mutate-Traced job choice replies s)
      (run_dialog-Trace job attempts (mutate job choice replies s).state)

-- How often an entry was moved or copied.
abbrev pub times_done : Text → List (Call × Outcome) → ℕ
times_done path [] = 0
times_done path ((call, done) ∷ calls) =
    (if text_eq call.source path then 1 else 0) + times_done path calls
times_done path ((call, conflict) ∷ calls) = times_done path calls
times_done path ((call, failed) ∷ calls) = times_done path calls

pub Trace-times_done :
    (path : Text) (before : List Text) (calls : List (Call × Outcome)) (after : List Text)
    → Trace before calls after
    → times_done path calls + (if has_text before path then 1 else 0) ≤ 1
Trace-times_done path before [] after t = ground arith
Trace-times_done path before ((call, done) ∷ calls) after t =
    let h = Trace-times_done path (call.source ∷ before) calls after t.1 in
    elim (Bool-cases (text_eq call.source path)) [
      | inl e ↦
          let p : has_text before path ≡ false =
            subst (λ q. has_text before q ≡ false) ((text_eq_iff call.source path).0 e) t.0 in
          ground (arith, h, e, p)
      | inr e ↦ ground (arith, h, e)
    ]
Trace-times_done path before ((call, conflict) ∷ calls) after t =
    Trace-times_done path before calls after t.1
Trace-times_done path before ((call, failed) ∷ calls) after t =
    Trace-times_done path before calls after t.1

-- However often the user tries again, with whatever choices and answers of the server, no entry is
-- moved or copied more than once in a dialog: a new run leaves out what an earlier one has done.
pub run_dialog-once :
    (job : Job) (attempts : List (Choice × Replies)) (path : Text)
    → times_done path (run_dialog job attempts reset) ≤ 1
run_dialog-once job attempts path =
    let (after, t) = run_dialog-Trace job attempts reset in
    let h = Trace-times_done path [] (run_dialog job attempts reset) after t in omega (arith, h)

pub mark-kept :
    (path : Text) (call : Call) (outcome : Outcome) (completed : List Text)
    → has_text completed path ≡ true
    → has_text (mark call outcome completed) path ≡ true
mark-kept path call done completed h = ground (arith, h)
mark-kept path call conflict completed h = h
mark-kept path call failed completed h = h
