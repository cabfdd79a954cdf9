-- ===== src/Uploads/Progress/Runs.antt =====
-- The upload progress over any course of events of a batch.
use native.Mathlib.Nat.{le_trans}
use zen_fm.Base.{
  ℕ, ◌+◌, ◌≤◌, ◌<◌, ◌≡◌, refl, Bool, true, false, List, [], ◌∷◌, arith, length, get_or, total,
  Below, Below-total, ◌∙◌, All, Option, none, some, ◌||◌, Bool-cases, inl, inr, if_of_true,
  if_of_false, sym,
}
use zen_fm.Uploads.Progress.{
  UploadProgress, Progress, begin, flush_progress, schedule_progress, counted_bytes,
  update_progress, complete_file, total_bytes,
}
use zen_fm.Uploads.Progress.Bounds.{IsConsistent, begin-IsConsistent, update_progress-IsConsistent}

-- What happens to a batch: bytes of a file are sent, a file is finished or skipped, the timer of the
-- display fires, or the upload is aborted.
pub data Event : Type 0 where
  sent : (index bytes : ℕ) → (transferred immediate : Bool) → Event
  finished : (index : ℕ) → (succeeded : Bool) → Event
  flushed aborted : Event

unfoldable pub step : Event → Progress → Progress
step (sent index bytes transferred immediate) p =
    update_progress index bytes transferred immediate p
step (finished index succeeded) p = complete_file index succeeded p
step flushed p = flush_progress p
step aborted p = record p { aborted = true }

unfoldable pub run : List Event → Progress → Progress
run [] p = p
run (e ∷ es) p = run es (step e p)

-- The files that an event names are files of the batch.
abbrev pub IsInBatch : ℕ → Event → Type 0
IsInBatch files (sent index bytes transferred immediate) = index < files
IsInBatch files (finished index succeeded) = index < files
IsInBatch files _ = Unit {0}

update_progress-sizes :
    (index sent : ℕ) (transferred immediate : Bool) (p : Progress)
    → (update_progress index sent transferred immediate p).sizes ≡ p.sizes
unfolding update_progress schedule_progress flush_progress
update_progress-sizes index bytes transferred immediate p = ground arith

complete_file-sizes :
    (index : ℕ) (succeeded : Bool) (p : Progress)
    → (complete_file index succeeded p).sizes ≡ p.sizes
unfolding complete_file
complete_file-sizes index true p = update_progress-sizes index _ true true _
complete_file-sizes index false p =
    update_progress-sizes index _ false true _ ∙ update_progress-sizes index _ false false p

complete_file-IsConsistent :
    (index : ℕ) (succeeded : Bool) (p : Progress)
    → index < length p.sizes
    → IsConsistent p
    → IsConsistent (complete_file index succeeded p)
unfolding complete_file
complete_file-IsConsistent index true p h v =
    update_progress-IsConsistent index (get_or p.sizes index 0) true true _ h (record {
      uploaded = v.uploaded;
      transferred = v.transferred;
      display_fits = v.display_fits;
      transfer_fits = v.transfer_fits;
    })
complete_file-IsConsistent index false p h v =
    let q = update_progress index (get_or p.sizes index 0) false false p in
    let w = update_progress-IsConsistent index (get_or p.sizes index 0) false false p h v in
    let same : q.sizes ≡ p.sizes = update_progress-sizes index _ false false p in
    update_progress-IsConsistent index (get_or p.sizes index 0) false true _ (rw same h) (record {
      uploaded = w.uploaded;
      transferred = w.transferred;
      display_fits = w.display_fits;
      transfer_fits = w.transfer_fits;
    })

step-IsConsistent :
    (e : Event) (p : Progress)
    → IsInBatch (length p.sizes) e
    → IsConsistent p
    → IsConsistent (step e p) × ((step e p).sizes ≡ p.sizes)
unfolding step flush_progress
step-IsConsistent (sent index bytes transferred immediate) p h v = (
  update_progress-IsConsistent index bytes transferred immediate p h v,
  update_progress-sizes index bytes transferred immediate p,
)
step-IsConsistent (finished index succeeded) p h v =
    (complete_file-IsConsistent index succeeded p h v, complete_file-sizes index succeeded p)
step-IsConsistent flushed p h v = (ground arith, ground arith)
step-IsConsistent aborted p h v = (ground arith, refl)

run-IsConsistent :
    (es : List Event) (p : Progress)
    → All (IsInBatch (length p.sizes)) es
    → IsConsistent p
    → IsConsistent (run es p) × ((run es p).sizes ≡ p.sizes)
unfolding run
run-IsConsistent [] p h v = (v, refl)
run-IsConsistent (e ∷ es) p h v =
    let (w, same) = step-IsConsistent e p h.0 v in
    let (x, again) = run-IsConsistent es (step e p) (rw same h.1) w in (x, again ∙ same)

update_progress_monotone :
    (index bytes : ℕ) (transferred immediate : Bool) (p : Progress)
    → (p.uploaded_bytes ≤ (update_progress index bytes transferred immediate p).uploaded_bytes)
      × (p.transferred_bytes
          ≤ (update_progress index bytes transferred immediate p).transferred_bytes)
unfolding update_progress schedule_progress flush_progress
update_progress_monotone index bytes transferred immediate p = (ground arith, ground arith)

-- The progress never goes back: no event lowers the bytes shown or transferred.
pub step_monotone :
    (e : Event) (p : Progress)
    → (p.uploaded_bytes ≤ (step e p).uploaded_bytes)
      × (p.transferred_bytes ≤ (step e p).transferred_bytes)
unfolding step complete_file flush_progress
step_monotone (sent index bytes transferred immediate) p =
    update_progress_monotone index bytes transferred immediate p
step_monotone (finished index true) p =
    update_progress_monotone index (get_or p.sizes index 0) true true
      (record p { completed_files = p.completed_files + 1 })
step_monotone (finished index false) p =
    let size = get_or p.sizes index 0 in
    let q = update_progress index size false false p in
    let a = update_progress_monotone index size false false p in
    let b =
      update_progress_monotone index size false true
        (record q { completed_files = q.completed_files + 1 }) in
    (le_trans a.0 b.0, le_trans a.1 b.1)
step_monotone flushed p = (ground arith, ground arith)
step_monotone aborted p = (omega arith, omega arith)

-- The page may show less than is counted: an upload is aborted, or a flush waits.
abbrev pub is_late : Progress → Bool
is_late p = p.aborted || p.timer

-- What would be shown now.
abbrev pub now_of : Progress → UploadProgress
now_of p = record {
  current = p.current;
  completed_files = p.completed_files;
  uploaded_bytes = p.uploaded_bytes;
  total_bytes = total_bytes p.sizes;
}

-- What the page shows has the size of the batch as its total and never more bytes than are counted;
-- when it is not late it shows what is counted, or nothing while no byte is counted.
abbrev pub IsShowing : (late : Bool) → (shown : Option UploadProgress) → UploadProgress → Type 0
IsShowing true none now = Unit {0}
IsShowing false none now = now.uploaded_bytes ≡ 0
IsShowing true (some u) now =
    (u.total_bytes ≡ now.total_bytes) × (u.uploaded_bytes ≤ now.uploaded_bytes)
IsShowing false (some u) now = u ≡ now

abbrev pub Showing : Progress → Type 0
Showing p = IsShowing (is_late p) p.shown (now_of p)

-- The display stays right, if late, while more is counted.
IsShowing-late :
    (late : Bool) (u : Option UploadProgress) (now later : UploadProgress)
    → now.uploaded_bytes ≤ later.uploaded_bytes
    → later.total_bytes ≡ now.total_bytes
    → IsShowing late u now
    → IsShowing true u later
IsShowing-late late none now later h same v = tt
IsShowing-late true (some u) now later h same (t, v) = (t ∙ sym same, le_trans v h)
IsShowing-late false (some u) now later h same v = rw v (sym same, h)

flush_progress-Showing :
    (p : Progress) → IsShowing true p.shown (now_of p) → Showing (flush_progress p)
unfolding flush_progress
flush_progress-Showing p v = elim (Bool-cases p.aborted) [ inl e ↦ rw (e) v | inr e ↦ rw (e) refl ]

schedule_progress-Showing :
    (immediate : Bool) (p : Progress)
    → IsShowing true p.shown (now_of p)
    → Showing (schedule_progress immediate p)
unfolding schedule_progress
schedule_progress-Showing true p v = flush_progress-Showing p v
schedule_progress-Showing false p v = elim (Bool-cases p.aborted) [
  | inl e ↦ rw (e) v
  | inr e ↦ rw (e) v
]

counted_bytes-late :
    (index bytes : ℕ) (transferred : Bool) (p : Progress)
    → IsShowing true p.shown (now_of p)
    → let q = record (counted_bytes index bytes transferred p) { current = index } in
      IsShowing true q.shown (now_of q)
counted_bytes-late index bytes true p v =
    IsShowing-late true p.shown (now_of p) _ (omega arith) refl v
counted_bytes-late index bytes false p v =
    IsShowing-late true p.shown (now_of p) _ (omega arith) refl v

update_progress-Showing :
    (index bytes : ℕ) (transferred immediate : Bool) (p : Progress)
    → IsShowing true p.shown (now_of p)
    → Showing (update_progress index bytes transferred immediate p)
unfolding update_progress
update_progress-Showing index bytes transferred immediate p v = elim (Bool-cases p.aborted) [
  | inl e ↦ if_of_true Showing p.aborted p _ e (rw (e) v)
  | inr e ↦
      if_of_false Showing p.aborted p _ e
        (schedule_progress-Showing immediate _ (counted_bytes-late index bytes transferred p v))
]

Showing-weak : (p : Progress) → Showing p → IsShowing true p.shown (now_of p)
Showing-weak p v = IsShowing-late (is_late p) p.shown (now_of p) (now_of p) (omega arith) refl v

-- One more file is finished: what was shown is late, and right.
completed-late :
    (p : Progress)
    → IsShowing true p.shown (now_of p)
    → IsShowing true p.shown (now_of (record p { completed_files = p.completed_files + 1 }))
completed-late p v = IsShowing-late true p.shown (now_of p) _ (omega arith) refl v

step-Showing : (e : Event) (p : Progress) → Showing p → Showing (step e p)
unfolding step complete_file
step-Showing (sent index bytes transferred immediate) p v =
    update_progress-Showing index bytes transferred immediate p (Showing-weak p v)
step-Showing (finished index true) p v =
    update_progress-Showing index _ true true _ (completed-late p (Showing-weak p v))
step-Showing (finished index false) p v =
    let q = update_progress index (get_or p.sizes index 0) false false p in
    let w = update_progress-Showing index _ false false p (Showing-weak p v) in
    update_progress-Showing index _ false true _ (completed-late q (Showing-weak q w))
step-Showing flushed p v = flush_progress-Showing p (Showing-weak p v)
step-Showing aborted p v = Showing-weak p v

run-Showing : (es : List Event) (p : Progress) → Showing p → Showing (run es p)
unfolding run
run-Showing [] p v = v
run-Showing (e ∷ es) p v = run-Showing es (step e p) (step-Showing e p v)

-- Whatever is sent, finished, skipped or aborted, in any order and with any numbers from the browser:
-- the bytes counted are the sum over the files, no file counts more than its size, the bytes transferred
-- are at most the bytes counted, and these at most the bytes of the batch. The page shows the counted
-- bytes, the finished files, the current file and the size of the batch, or nothing while no byte is
-- counted; while a flush waits, and once the upload is aborted, it shows nothing or at most the counted
-- bytes, of the same size.
pub progress_bounds :
    (sizes : List ℕ) (es : List Event)
    → All (IsInBatch (length sizes)) es
    → let p = run es (begin sizes) in
      (p.uploaded_bytes ≡ total (λ n. n) p.display_progress)
      × Below p.display_progress sizes
      × (p.transferred_bytes ≤ p.uploaded_bytes)
      × (p.uploaded_bytes ≤ total_bytes sizes)
      × (p.sizes ≡ sizes)
      × IsShowing (p.aborted || p.timer) p.shown (now_of p)
unfolding begin
progress_bounds sizes es h =
    let p = run es (begin sizes) in
    let (v, same) = run-IsConsistent es (begin sizes) h (begin-IsConsistent sizes) in
    let fits : Below p.display_progress sizes = rw same at v.display_fits in
    (
      v.uploaded,
      fits,
      omega (
        arith,
        v.uploaded,
        v.transferred,
        Below-total p.transferred_progress p.display_progress v.transfer_fits,
      ),
      omega (arith, v.uploaded, Below-total p.display_progress sizes fits),
      same,
      run-Showing es (begin sizes) refl,
    )
