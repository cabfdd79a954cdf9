-- ===== src/Uploads/Queue.antt =====
-- The queue of the uploads of a page: `safeUploadFiles`, `cancelUpload` and the effect that stops the
-- uploads, in frontend/src/pages/FilesPage.tsx. The chain of promises behind `uploadQueue` is the list
-- of the callbacks that have not run.
pub mod Fifo
use zen_fm.Base.{
  ℕ, zero, suc, Bool, true, false, not, ◌&&◌, ◌||◌, List, [], ◌∷◌, ◌++◌, Option, none, some, ltb,
  leb, take, map, length, ◌==◌, if◌then◌else◌, Text, codes, select,
}
use zen_fm.Uploads.Batches.{UploadBatch, root_names}

pub record Item : Type 0 where
  pub id : ℕ
  pub name : Text
  pub upload : UploadBatch
  pub destination : Text

pub record Active : Type 0 where
  pub item : Item
  pub aborted : Bool

-- `queued` is what the page shows; `begun` has the uploads handed to `uploadFiles`.
pub record Queue : Type 0 where
  pub stopped : Bool
  pub last_id : ℕ
  pub queued : List Item
  pub chain : List Item
  pub active : Option Active
  pub begun : List Item
  pub notice : Option Text

abbrev pub initial : Queue
initial = record {
  stopped = false;
  last_id = 0;
  queued = [];
  chain = [];
  active = none;
  begun = [];
  notice = none;
}

-- `names.join(', ')`.
abbrev pub join_names : List Text → Text
join_names [] = []
join_names (name ∷ []) = name
join_names (name ∷ other ∷ names) = name ++ codes ", " ++ join_names (other ∷ names)

abbrev pub label : List Text → Text
label names =
    if ltb 2 (length names) then join_names (take 2 names) ++ 0x2026 ∷ [] else join_names names

abbrev pub upload_names : UploadBatch → List Text
upload_names upload = root_names [] (upload.directories ++ map (λ f. f.relative_path) upload.files)

abbrev pub is_nothing : UploadBatch → Bool
is_nothing upload = leb (length upload.directories) 0 && leb (length upload.files) 0

unfoldable pub add : UploadBatch → (destination : Text) → Queue → Queue
add upload destination q =
    let item : Item = record {
      id = suc q.last_id;
      name = label (upload_names upload);
      upload = upload;
      destination = destination;
    } in
    if q.stopped || is_nothing upload then q else record q {
      last_id = suc q.last_id;
      queued = q.queued ++ item ∷ [];
      chain = q.chain ++ item ∷ [];
    }

abbrev pub start : Item → List Item → Queue → Queue
start item chain q = if q.stopped then record q { chain = chain } else record q {
  chain = chain;
  queued = select (λ other. not (other.id == item.id)) q.queued;
  active = some (record { item = item; aborted = false });
  begun = q.begun ++ item ∷ [];
}

abbrev pub start_next : Option Active → List Item → Queue → Queue
start_next (some active) chain q = q
start_next none [] q = q
start_next none (item ∷ chain) q = start item chain q

-- A callback runs when the one before it has ended.
unfoldable pub next : Queue → Queue
next q = start_next q.active q.chain q

pub data Ending : Type 0 where
  finished aborted : Ending
  failed : (message : Text) → Ending

abbrev pub notice_of : Ending → Option Text → Option Text
notice_of finished notice = notice
notice_of aborted notice = notice
notice_of (failed message) notice = some message

abbrev pub end_active : Ending → Option Active → Queue → Queue
end_active ending none q = q
end_active ending (some active) q = record q { active = none; notice = notice_of ending q.notice }

unfoldable pub end : Ending → Queue → Queue
end ending q = end_active ending q.active q

abbrev pub abort : Option Active → Option Active
abort none = none
abort (some active) = some (record active { aborted = true })

unfoldable pub cancel : Queue → Queue
cancel q = record q { active = abort q.active }

-- The page is left.
unfoldable pub leave : Queue → Queue
leave q = record q { stopped = true; active = abort q.active }

pub data Event : Type 0 where
  adds : (upload : UploadBatch) → (destination : Text) → Event
  ends : Ending → Event
  continues cancels leaves : Event

unfoldable pub step : Event → Queue → Queue
unfolding add next end cancel leave
step (adds upload destination) q = add upload destination q
step (ends ending) q = end ending q
step continues q = next q
step cancels q = cancel q
step leaves q = leave q

unfoldable pub run : List Event → Queue → Queue
unfolding step
run [] q = q
run (event ∷ events) q = run events (step event q)
