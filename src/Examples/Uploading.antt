-- ===== src/Examples/Uploading.antt =====
-- The upload of a batch and the dialogs, at concrete inputs.
use zen_fm.Base.{◌≤◌, ◌||◌, ◌≡◌, refl, true, false, List, [], ◌∷◌, total, Below, arith}
use zen_fm.Base.{text_eq, codes, some, none, All}
use zen_fm.Modals
use zen_fm.Modals.{handle-handle, handle-register}
use zen_fm.Uploads.Batches.{File, file_upload_batch}
use zen_fm.Uploads.Workers
use zen_fm.Uploads.Workers.{Event, replace_all, skip_all}
use zen_fm.Uploads.Workers.Exactness.{times_finished}
use zen_fm.Uploads.Workers.Completion.{batch_complete, finished_once}
use zen_fm.Uploads.Workers.Overwrites.{overwrites_nothing, overwritten, overwriting}
use zen_fm.Uploads.Progress
use zen_fm.Uploads.Progress.{total_bytes}
use zen_fm.Uploads.Progress.Runs
use zen_fm.Uploads.Progress.Runs.{progress_bounds, step_monotone}

-- Two files: the first meets a conflict and is skipped, the second is uploaded.
abbrev course : List Event
course =
    Event.goes_on 0
    ∷ Event.goes_on 1
    ∷ Event.conflicts 0
    ∷ Event.sent 1
    ∷ Event.decides 0 skip_all
    ∷ Event.goes_on 0
    ∷ Event.goes_on 1
    ∷ []

batch_complete_example : times_finished 1 (Workers.run course (Workers.begin false 2)) ≡ 1
unfolding Workers.run Workers.begin Workers.step
batch_complete_example = batch_complete false 2 course refl (refl, (refl, tt)) 1 (omega arith)

finished_once_example : times_finished 0 (Workers.run course (Workers.begin true 2)) ≤ 1
finished_once_example = finished_once true 2 course 0

overwrites_nothing_example :
    (total overwritten (Workers.run course (Workers.begin false 2)).finished ≡ 0)
    × (total overwriting (Workers.run course (Workers.begin false 2)).workers ≡ 0)
overwrites_nothing_example =
    overwrites_nothing 2 course (refl, (refl, (refl, (refl, (refl, (refl, (refl, tt)))))))

replacing :
    (Workers.run
      (Event.goes_on 0 ∷ Event.conflicts 0 ∷ Event.decides 0 replace_all ∷ Event.sent 0 ∷ [])
      (Workers.begin false 1)).finished
    ≡ (0, Workers.uploaded true) ∷ []
unfolding Workers.run Workers.begin Workers.step
replacing = refl

-- Two files of 10 and 4 bytes: the first sends 25, the second 3 and is then skipped.
abbrev transfers : List Runs.Event
transfers =
    Runs.sent 0 25 true false ∷ Runs.sent 1 3 true true ∷ Runs.flushed ∷ Runs.finished 1 false ∷ []

progress_bounds_example :
    let p = Runs.run transfers (Progress.begin (10 ∷ 4 ∷ [])) in
    (p.uploaded_bytes ≡ total (λ n. n) p.display_progress)
    × Below p.display_progress (10 ∷ 4 ∷ [])
    × (p.transferred_bytes ≤ p.uploaded_bytes)
    × (p.uploaded_bytes ≤ total_bytes (10 ∷ 4 ∷ []))
    × (p.sizes ≡ 10 ∷ 4 ∷ [])
    × Runs.IsShowing (p.aborted || p.timer) p.shown (Runs.now_of p)
progress_bounds_example = progress_bounds (10 ∷ 4 ∷ []) transfers (omega arith)

progress_of_transfers :
    let p = Runs.run transfers (Progress.begin (10 ∷ 4 ∷ [])) in
    (p.uploaded_bytes ≡ 14) × (p.transferred_bytes ≡ 13) × (p.completed_files ≡ 1)
unfolding Runs.run Runs.step Progress.begin Progress.update_progress Progress.schedule_progress
    Progress.flush_progress Progress.complete_file
progress_of_transfers = (refl, refl, refl)

abbrev selection : List File
selection =
    record { name = codes "n"; relative_path = codes "a/b/n"; size = 3 }
    ∷ record { name = codes "m"; relative_path = []; size = 4 }
    ∷ []

folders_of_selection : (file_upload_batch selection).directories ≡ codes "a" ∷ codes "a/b" ∷ []
unfolding file_upload_batch zen_fm.Uploads.Batches.add_all zen_fm.Uploads.Batches.prefixes
    zen_fm.Base.split_on zen_fm.Base.text_eq zen_fm.Base.join_with
folders_of_selection = refl

abbrev modals : Modals.Modals
modals = record {
  registrations = record { id = 1; history_index = some 5 } ∷ [];
  restoring_index = none;
  closed = [];
  jumps = [];
  stopped = false;
}

handle-handle_example :
    ((Modals.handle (some 4) modals).jumps ≡ (5, 4) ∷ [])
    × ((Modals.handle (some 4) modals).stopped ≡ true)
    × ((Modals.handle (some 5) (Modals.handle (some 4) modals)).stopped ≡ true)
    × ((Modals.handle (some 5) (Modals.handle (some 4) modals)).closed ≡ 1 ∷ [])
    × ((Modals.handle (some 5) (Modals.handle (some 4) modals)).jumps
        ≡ (Modals.handle (some 4) modals).jumps)
    × ((Modals.handle (some 5) (Modals.handle (some 4) modals)).restoring_index ≡ none)
handle-handle_example =
    handle-handle modals (record { id = 1; history_index = some 5 }) 5 4 refl refl refl refl
