-- ===== src/Dialogs/PathAction/Overwrites.antt =====
-- Nothing is overwritten that the user was not asked about.
use zen_fm.Base.{
  ◌≡◌, refl, sym, subst, ◌⊎◌, inl, inr, Bool, true, false, ◌&&◌, ◌||◌, Bool-cases, List, [], ◌∷◌,
  Option, none, some, Text, text_eq, All, All-append,
}
use zen_fm.Entries.{FileEntry, has_text}
use zen_fm.Dialogs.PathAction.{
  Job, CopyPlan, State, Choice, Outcome, done, conflict, failed, Answer, Call, Status, going,
  waiting, stopped, Run,
}
use zen_fm.Dialogs.PathAction.Sending.{
  visit, send, attempt, resolve, settle, report, status_after, replaces, is_path, request,
}
use zen_fm.Dialogs.PathAction.Loop.{visit_all-keeps, mutate-Looped}
use zen_fm.Dialogs.PathAction.Mutation.{mutate, Replies}

-- A request overwrites only when the user has chosen so, and only for the entry whose conflict was
-- shown, or where an entry is copied onto itself.
abbrev pub Asked : Choice → Option Text → Call × Outcome → Type 0
Asked choice shown (call, outcome) =
    (call.overwrite ≡ false)
    ⊎ ((choice.overwrite ≡ true)
        × ((is_path shown call.source || text_eq call.target call.source) ≡ true))

-- While the loop goes on, no other conflict is remembered than the one shown.
abbrev Free : Option Text → Status → Option Text → Type 0
Free shown going path = (path ≡ none) ⊎ (path ≡ shown)
Free shown waiting path = Unit
Free shown stopped path = Unit

abbrev Careful : Choice → Option Text → Run → Type 0
Careful choice shown r =
    All (Asked choice shown) r.calls × Free shown r.status r.state.conflict_path

tested :
    (chosen own shown self : Bool)
    → (own ≡ false) ⊎ (own ≡ shown)
    → ((chosen && (own || self)) ≡ false) ⊎ ((chosen ≡ true) × ((shown || self) ≡ true))
tested false own shown self h = inl refl
tested true false shown false h = inl refl
tested true false false true h = inr (refl, refl)
tested true false true true h = inr (refl, refl)
tested true true shown self (inl e) = absurd (cc)
tested true true shown self (inr e) = inr (refl, rw⁻¹ e refl)

replaces-Asked :
    (choice : Choice) (shown : Option Text) (s : State) (item : FileEntry) (target : Text)
    → Free shown going s.conflict_path
    → (replaces choice s item target ≡ false)
      ⊎ ((choice.overwrite ≡ true) × ((is_path shown item.path || text_eq target item.path) ≡ true))
replaces-Asked choice shown s item target (inl e) =
    rw e (
      tested choice.overwrite false (is_path shown item.path) (text_eq target item.path) (inl refl))
replaces-Asked choice shown s item target (inr e) = rw e (
    tested choice.overwrite (is_path shown item.path) (is_path shown item.path)
      (text_eq target item.path) (inr refl))

settle-Free :
    (plan : Option CopyPlan) (entries : List FileEntry) (item : FileEntry) (answer : Answer)
    (outcome : Outcome) (s : State) (shown : Option Text)
    → Free shown (status_after outcome) (settle plan entries item answer outcome s).conflict_path
settle-Free plan entries item answer done s shown = inl refl
settle-Free plan entries item answer conflict s shown = tt
settle-Free plan entries item answer failed s shown = tt

send-Careful :
    (plan : Option CopyPlan) (job : Job) (choice : Choice) (item : FileEntry) (target : Text)
    (answers : List Answer) (shown : Option Text) (r : Run)
    → r.status ≡ going
    → Careful choice shown r
    → Careful choice shown (send plan job choice item target answers r)
send-Careful plan job choice item target [] shown r g c = (c.0, tt)
send-Careful plan job choice item target (answer ∷ answers) shown r g c =
    let free = subst (λ status. Free shown status r.state.conflict_path) g c.1 in
    (
      All-append (Asked choice shown) r.calls
          ((request choice r.state item target, answer.outcome) ∷ []) c.0
          (replaces-Asked choice shown r.state item target free, tt),
      settle-Free plan job.entries item answer answer.outcome
          (report plan job.entries item answer r.state) shown,
    )

attempt-Careful :
    (plan : Option CopyPlan) (job : Job) (choice : Choice) (item : FileEntry)
    (target : Option (Text × List (Text × List Text))) (shown : Option Text) (r : Run)
    → r.status ≡ going
    → Careful choice shown r
    → Careful choice shown (attempt plan job choice item target r)
attempt-Careful plan job choice item none shown r g c = (c.0, tt)
attempt-Careful plan job choice item (some (target, folders)) shown r g c =
    send-Careful plan job choice item target r.answers shown (record r { names = folders }) g c

visit-Careful :
    (plan : Option CopyPlan) (job : Job) (choice : Choice) (shown : Option Text) (item : FileEntry)
    (r : Run)
    → r.status ≡ going
    → Careful choice shown r
    → Careful choice shown (visit plan job choice item r)
unfolding visit
visit-Careful plan job choice shown item r g c =
    elim (Bool-cases (has_text r.state.completed item.path)) [
      | inl e ↦ rw e c
      | inr e ↦
          rw e (attempt-Careful plan job choice item (resolve job choice item r.names) shown r g c)
    ]

Free-shown :
    (shown : Option Text) (status : Status) (path : Option Text)
    → path ≡ shown
    → Free shown status path
Free-shown shown going path d = inr d
Free-shown shown waiting path d = tt
Free-shown shown stopped path d = tt

begun-Careful :
    (choice : Choice) (shown : Option Text) (calls : List (Call × Outcome)) (status : Status)
    (path : Option Text)
    → calls ≡ []
    → path ≡ shown
    → All (Asked choice shown) calls × Free shown status path
begun-Careful choice shown calls status path c d =
    (subst (All (Asked choice shown)) (sym c) tt, Free-shown shown status path d)

-- Whatever the server answers, each request of a run that overwrites does so because the user has
-- chosen it, and is for the entry whose conflict was shown before the run or for one copied onto
-- itself: what is behind that entry is not overwritten with it.
pub mutate-Asked :
    (job : Job) (choice : Choice) (replies : Replies) (s : State)
    → All (Asked choice s.conflict_path) (mutate job choice replies s).calls
mutate-Asked job choice replies s =
    let (begun, (c, _, d), l) = mutate-Looped job choice replies s in
    let b =
      begun-Careful choice s.conflict_path begun.calls begun.status begun.state.conflict_path c d in
    elim l [
      | inl (e, _) ↦ rw e b.0
      | inr (plan, g, e) ↦
          let kept =
            visit_all-keeps (Careful choice s.conflict_path) plan job choice
              (visit-Careful plan job choice s.conflict_path) job.entries begun g b in
          rw e kept.0
    ]
