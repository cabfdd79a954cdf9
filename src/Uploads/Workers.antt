-- ===== src/Uploads/Workers.antt =====
-- The workers of `uploadFiles` in frontend/src/pages/FilesPage.tsx: up to four take the files in turn,
-- and share one answer to a conflict. A step is what one worker does between two awaits; the order of
-- the steps is the event loop's, so the model takes any. A file is known by its place in the order in
-- which files are taken.
pub mod Exactness
pub mod Completion
pub mod Overwrites
use zen_fm.Base.{
  ℕ, zero, suc, ◌+◌, ◌≤◌, ◌<◌, Bool, true, false, not, ◌&&◌, ◌||◌, List, [], ◌∷◌, ◌++◌, Option,
  none, some, if◌then◌else◌, min, ltb, ◌==◌, get_or, set, length,
}

abbrev pub upload_concurrency : ℕ
upload_concurrency = 4

pub data ConflictPolicy : Type 0 where
  ask replace skip : ConflictPolicy

pub data ConflictChoice : Type 0 where
  replace_all skip_all cancel : ConflictChoice

-- A worker is at the head of its loop, awaits an upload or a decision, has returned, or has thrown.
pub data Worker : Type 0 where
  ready returned threw : Worker
  sending : (file : ℕ) → (overwrite : Bool) → Worker
  deciding : (file : ℕ) → Worker

pub data Verdict : Type 0 where
  uploaded : (overwrite : Bool) → Verdict
  skipped : Verdict

-- `cancelled` stands for both the variable and the signal, which every test reads together.
pub record Engine : Type 0 where
  pub total_files : ℕ
  pub policy : ConflictPolicy
  pub next_file : ℕ
  pub cancelled : Bool
  pub workers : List Worker
  pub finished : List (ℕ × Verdict)

abbrev pub replicate : ℕ → List Worker
replicate zero = []
replicate (suc n) = ready ∷ replicate n

unfoldable pub begin : (auto_overwrite : Bool) → (total_files : ℕ) → Engine
begin auto_overwrite total_files = record {
  total_files = total_files;
  policy = if auto_overwrite then replace else ask;
  next_file = 0;
  cancelled = false;
  workers = replicate (min upload_concurrency total_files);
  finished = [];
}

abbrev pub is_replace : ConflictPolicy → Bool
is_replace replace = true
is_replace other = false

-- What can happen to a worker: it goes on, its upload succeeds, meets a conflict or fails, or its
-- conflict is decided; `choice` is what the user answers if asked. The last event is a cancel from
-- outside.
pub data Event : Type 0 where
  goes_on sent conflicts fails : (worker : ℕ) → Event
  decides : (worker : ℕ) → (choice : ConflictChoice) → Event
  cancels : Event

abbrev pub put : ℕ → Worker → Engine → Engine
put w worker e = record e { workers = set e.workers w worker }

-- `while (!cancelled && !signal.aborted)`, and the next file if there is one.
abbrev pub take_next : ℕ → Engine → Engine
take_next w e =
    if e.cancelled
    then put w returned e
    else if ltb e.next_file e.total_files
    then put w (sending e.next_file (is_replace e.policy))
        (record e { next_file = suc e.next_file })
    else put w returned e

abbrev pub finish : ℕ → ℕ → Verdict → Engine → Engine
finish w file verdict e = put w ready (record e { finished = e.finished ++ (file, verdict) ∷ [] })

-- With a decision to replace, the loop of `uploadOne` sends the file once more.
abbrev pub retry : ℕ → ℕ → Engine → Engine
retry w file e = put w (sending file true) (record e { policy = replace })

abbrev pub decide : ℕ → ℕ → ConflictChoice → ConflictPolicy → Engine → Engine
decide w file choice replace e = retry w file e
decide w file choice skip e = finish w file skipped e
decide w file replace_all ask e = retry w file e
decide w file skip_all ask e = finish w file skipped (record e { policy = skip })
decide w file cancel ask e = put w ready (record e { cancelled = true })

abbrev pub decided : ℕ → ℕ → ConflictChoice → Engine → Engine
decided w file choice e = if e.cancelled then put w ready e else decide w file choice e.policy e

-- An event that does not fit what its worker is doing changes nothing.
abbrev pub react : Event → Worker → Engine → Engine
react (goes_on w) ready e = take_next w e
react (sent w) (sending file overwrite) e = finish w file (uploaded overwrite) e
react (conflicts w) (sending file overwrite) e = put w (deciding file) e
react (fails w) (sending file overwrite) e = put w threw (record e { cancelled = true })
react (decides w choice) (deciding file) e = decided w file choice e
react _ _ e = e

abbrev pub worker_of : Event → ℕ
worker_of (goes_on w) = w
worker_of (sent w) = w
worker_of (conflicts w) = w
worker_of (fails w) = w
worker_of (decides w choice) = w
worker_of cancels = 0

unfoldable pub step : Event → Engine → Engine
step cancels e = record e { cancelled = true }
step event e = react event (get_or e.workers (worker_of event) returned) e

unfoldable pub run : List Event → Engine → Engine
run [] e = e
run (event ∷ events) e = run events (step event e)
