-- ===== src/Uploads/Progress.antt =====
-- The progress of a batch in `uploadFiles` of frontend/src/pages/FilesPage.tsx: per file what is shown
-- and what was transferred, and the sums that are kept beside them.
pub mod Bounds
pub mod Runs
use zen_fm.Base.{
  ℕ, ◌+◌, ◌-◌, ◌≤◌, ◌<◌, ◌≡◌, refl, Bool, true, false, not, List, [], ◌∷◌, Option, none, some,
  arith, if◌then◌else◌, max, min, length, set, get_or, total, total-set, Below, Below-total,
  Below-length, Below-get_or, Below-set, set-get_or, subst,
}

pub record UploadProgress : Type 0 where
  pub current : ℕ
  pub completed_files : ℕ
  pub uploaded_bytes : ℕ
  pub total_bytes : ℕ

-- The variables of the batch; files are known by their index, and `timer` says that a flush waits.
pub record Progress : Type 0 where
  pub sizes : List ℕ
  pub aborted : Bool
  pub display_progress : List ℕ
  pub transferred_progress : List ℕ
  pub uploaded_bytes : ℕ
  pub transferred_bytes : ℕ
  pub completed_files : ℕ
  pub current : ℕ
  pub timer : Bool
  pub shown : Option UploadProgress

abbrev pub total_bytes : List ℕ → ℕ
total_bytes sizes = total (λ n. n) sizes

abbrev pub zeros : List ℕ → List ℕ
zeros [] = []
zeros (n ∷ ns) = 0 ∷ zeros ns

unfoldable pub begin : List ℕ → Progress
begin sizes = record {
  sizes = sizes;
  aborted = false;
  display_progress = zeros sizes;
  transferred_progress = zeros sizes;
  uploaded_bytes = 0;
  transferred_bytes = 0;
  completed_files = 0;
  current = 0;
  timer = false;
  shown = none;
}

-- The estimate of the remaining time is left out of what is shown.
unfoldable pub flush_progress : Progress → Progress
flush_progress p =
    let cleared = record p { timer = false } in
    if p.aborted then cleared else record cleared {
      shown = some (record {
        current = p.current;
        completed_files = p.completed_files;
        uploaded_bytes = p.uploaded_bytes;
        total_bytes = total_bytes p.sizes;
      });
    }

unfoldable pub schedule_progress : (immediate : Bool) → Progress → Progress
schedule_progress immediate p = if immediate then flush_progress p else record p { timer = true }

abbrev pub size_of : Progress → ℕ → ℕ
size_of p index = get_or p.sizes index 0

abbrev pub bounded_of : Progress → ℕ → ℕ → ℕ
bounded_of p index sent = max (get_or p.display_progress index 0) (min sent (size_of p index))

abbrev pub show_bytes : ℕ → ℕ → Progress → Progress
show_bytes index sent p = record p {
  display_progress = set p.display_progress index (bounded_of p index sent);
  uploaded_bytes = p.uploaded_bytes + (bounded_of p index sent - get_or p.display_progress index 0);
}

-- `bounded` is what the step before has put down for the file.
abbrev pub transfer_bytes : ℕ → ℕ → Progress → Progress
transfer_bytes index bounded p =
    let next = max (get_or p.transferred_progress index 0) bounded in
    record p {
      transferred_progress = set p.transferred_progress index next;
      transferred_bytes = p.transferred_bytes + (next - get_or p.transferred_progress index 0);
    }

abbrev pub counted_bytes : (index sent : ℕ) → (transferred : Bool) → Progress → Progress
counted_bytes index sent transferred p =
    let q = show_bytes index sent p in
    if transferred then transfer_bytes index (bounded_of p index sent) q else q

unfoldable pub update_progress :
    (index sent : ℕ) → (transferred immediate : Bool) → Progress → Progress
update_progress index sent transferred immediate p =
    if p.aborted
    then p
    else schedule_progress immediate
        (record (counted_bytes index sent transferred p) { current = index })

-- What ends a file: uploaded, or skipped by the user's choice.
unfoldable pub complete_file : (index : ℕ) → (succeeded : Bool) → Progress → Progress
complete_file index succeeded p =
    let q = if succeeded then p else update_progress index (get_or p.sizes index 0) false false p in
    update_progress index (get_or p.sizes index 0) succeeded true
      (record q { completed_files = q.completed_files + 1 })
