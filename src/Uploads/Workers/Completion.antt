-- ===== src/Uploads/Workers/Completion.antt =====
-- What a batch of uploads has done when its workers are back.
use zen_fm.Base.{
  ℕ, zero, suc, ◌+◌, ◌≤◌, ◌<◌, ◌≡◌, refl, ap, ◌∙◌, ◌⊎◌, inl, inr, Bool, true, false, List, [], ◌∷◌,
  if◌then◌else◌, min, ltb, get_or, length, total, total-set, arith, All, length-set,
}
use zen_fm.Uploads.Workers.{
  Worker, ready, returned, threw, sending, deciding, Engine, begin, is_replace, Event, goes_on,
  sent, conflicts, fails, decides, cancels, react, worker_of, step, run, replicate,
}
use zen_fm.Uploads.Workers.Exactness.{
  begin-IsExact, run-IsExact, times_finished, held, holds, taken, worker_in,
}

abbrev returns : Worker → ℕ
returns returned = 1
returns other = 0

-- A worker returns only from a batch that is cancelled or has no file left.
pub record IsSpent (e : Engine) : Type 0 where
  pub crew : length e.workers ≡ min 4 e.total_files
  pub spent : (e.cancelled ≡ true) ⊎ (e.total_files ≤ e.next_file) ⊎ (total returns e.workers ≡ 0)

react-IsSpent :
    (event : Event) (x : Worker) (e : Engine)
    → IsSpent e
    → get_or e.workers (worker_of event) returned ≡ x
    → IsSpent (react event x e)
react-IsSpent (goes_on w) ready e v q = ground (
  arith,
  worker_in e.workers w,
  length-set e.workers w (sending e.next_file (is_replace e.policy)),
  length-set e.workers w returned,
  total-set returns e.workers w (sending e.next_file (is_replace e.policy)) returned,
)
react-IsSpent (sent w) (sending file overwrite) e v q = ground (
  arith,
  worker_in e.workers w,
  length-set e.workers w ready,
  total-set returns e.workers w ready returned,
)
react-IsSpent (conflicts w) (sending file overwrite) e v q = ground (
  arith,
  worker_in e.workers w,
  length-set e.workers w (deciding file),
  total-set returns e.workers w (deciding file) returned,
)
react-IsSpent (fails w) (sending file overwrite) e v q = ground (
  arith,
  worker_in e.workers w,
  length-set e.workers w threw,
  total-set returns e.workers w threw returned,
)
react-IsSpent (decides w choice) (deciding file) e v q = ground (
  arith,
  worker_in e.workers w,
  length-set e.workers w ready,
  length-set e.workers w (sending file true),
  total-set returns e.workers w ready returned,
  total-set returns e.workers w (sending file true) returned,
)
react-IsSpent _ _ e v q = v

step-IsSpent : (event : Event) (e : Engine) → IsSpent e → IsSpent (step event e)
unfolding step
step-IsSpent cancels e v = record { crew = v.crew; spent = inl refl }
step-IsSpent event e v = react-IsSpent event _ e v refl

run-IsSpent : (events : List Event) (e : Engine) → IsSpent e → IsSpent (run events e)
unfolding run
run-IsSpent [] e v = v
run-IsSpent (event ∷ events) e v = run-IsSpent events (step event e) (step-IsSpent event e v)

length-replicate : (n : ℕ) → length (replicate n) ≡ n
length-replicate zero = refl
length-replicate (suc n) = ap suc (length-replicate n)

returns-replicate : (n : ℕ) → total returns (replicate n) ≡ 0
returns-replicate zero = refl
returns-replicate (suc n) = omega (arith, returns-replicate n)

begin-IsSpent : (auto : Bool) (files : ℕ) → IsSpent (begin auto files)
unfolding begin
begin-IsSpent auto files = record {
  crew = length-replicate (min 4 files);
  spent = inr (inr (returns-replicate (min 4 files)));
}

total_files-react :
    (event : Event) (x : Worker) (e : Engine) → (react event x e).total_files ≡ e.total_files
total_files-react (goes_on w) ready e = ground arith
total_files-react (sent w) (sending file overwrite) e = refl
total_files-react (conflicts w) (sending file overwrite) e = refl
total_files-react (fails w) (sending file overwrite) e = refl
total_files-react (decides w choice) (deciding file) e = ground arith
total_files-react _ _ e = refl

total_files-run : (events : List Event) (e : Engine) → (run events e).total_files ≡ e.total_files
unfolding run step
total_files-run [] e = refl
total_files-run (cancels ∷ events) e = total_files-run events _
total_files-run (event ∷ events) e = total_files-run events _ ∙ total_files-react event _ e

All-returned :
    (ws : List Worker)
    → All (λ x. x ≡ returned) ws
    → (total returns ws ≡ length ws) × ((k : ℕ) → total (holds k) ws ≡ 0)
All-returned [] h = (refl, λ k. refl)
All-returned (x ∷ ws) h =
    let (a, b) = All-returned ws h.1 in
    (rw h.0 (omega (arith, a)), λ k. rw h.0 (omega (arith, b k)))

-- No course of events finishes a file twice, or a file that is not of the batch.
pub finished_once :
    (auto : Bool) (files : ℕ) (events : List Event) (k : ℕ)
    → times_finished k (run events (begin auto files)) ≤ (if ltb k files then 1 else 0)
unfolding begin
finished_once auto files events k =
    let e = run events (begin auto files) in
    let x = run-IsExact events (begin auto files) (begin-IsExact auto files) in
    let same : e.total_files ≡ files = total_files-run events (begin auto files) in
    let most : times_finished k e + held k e ≤ taken k e = x.at_most k in
    ground (arith, most, x.room, same)

counted :
    (k : ℕ) (e : Engine) (files : ℕ)
    → k < files
    → e.total_files ≡ files
    → e.cancelled ≡ false
    → times_finished k e + held k e ≤ taken k e
    → (e.cancelled ≡ true) ⊎ (taken k e ≤ times_finished k e + held k e)
    → length e.workers ≡ min 4 e.total_files
    → (e.cancelled ≡ true) ⊎ (e.total_files ≤ e.next_file) ⊎ (total returns e.workers ≡ 0)
    → total returns e.workers ≡ length e.workers
    → held k e ≡ 0
    → times_finished k e ≡ 1
counted k e files h same go_on most least crew spent back free = ground arith

-- A batch whose workers have all returned, and that nobody cancelled and no upload broke off, has
-- finished every file exactly once, uploaded or skipped.
pub batch_complete :
    (auto : Bool) (files : ℕ) (events : List Event)
    → (run events (begin auto files)).cancelled ≡ false
    → All (λ x. x ≡ returned) (run events (begin auto files)).workers
    → (k : ℕ) → k < files
    → times_finished k (run events (begin auto files)) ≡ 1
unfolding begin
batch_complete auto files events go_on back k h =
    let e = run events (begin auto files) in
    let x = run-IsExact events (begin auto files) (begin-IsExact auto files) in
    let s = run-IsSpent events (begin auto files) (begin-IsSpent auto files) in
    let (a, b) = All-returned e.workers back in
    let same : e.total_files ≡ files = total_files-run events (begin auto files) in
    counted k e files h same go_on (x.at_most k) (x.exact k) s.crew s.spent a (b k)
