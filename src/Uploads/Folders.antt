-- ===== src/Uploads/Folders.antt =====
-- The folders of a batch, made before its files: the loop over `directoriesByDepth` in `uploadFiles` of
-- frontend/src/pages/FilesPage.tsx. The server's answers are a parameter.
pub mod Levels
pub mod Complete
use zen_fm.Base.{
  ℕ, zero, suc, Bool, true, false, ◌&&◌, ◌||◌, List, [], ◌∷◌, ◌++◌, take, drop, length, ◌==◌,
  if◌then◌else◌, Text, split_on, any,
}
use zen_fm.Paths.{slash}
use zen_fm.Browser.Sorting.{difference, sort_by}

abbrev pub upload_concurrency : ℕ
upload_concurrency = 4

unfoldable pub depth : Text → ℕ
unfolding split_on
depth directory = length (split_on slash directory)

-- The map from a depth to its folders, in the order in which the depths are first met.
abbrev pub add_at : ℕ → Text → List (ℕ × List Text) → List (ℕ × List Text)
add_at level directory [] = (level, directory ∷ []) ∷ []
add_at level directory ((other, siblings) ∷ levels) =
    let later = add_at level directory levels in
    if other == level
    then (other, siblings ++ directory ∷ []) ∷ levels
    else (other, siblings) ∷ later

unfoldable pub by_depth_from : List Text → List (ℕ × List Text) → List (ℕ × List Text)
unfolding depth
by_depth_from [] levels = levels
by_depth_from (directory ∷ directories) levels =
    by_depth_from directories (add_at (depth directory) directory levels)

-- `slice(start, start + uploadConcurrency)` for each start; the folders left bound the rounds.
unfoldable pub slices : (fuel : ℕ) → List Text → List (List Text)
slices fuel [] = []
slices zero (directory ∷ directories) = []
slices (suc fuel) (directory ∷ directories) =
    take upload_concurrency (directory ∷ directories)
    ∷ slices fuel (drop upload_concurrency (directory ∷ directories))

unfoldable pub all_slices : List (ℕ × List Text) → List (List Text)
unfolding slices
all_slices [] = []
all_slices ((level, directories) ∷ levels) =
    slices (length directories) directories ++ all_slices levels

unfoldable pub sorted_levels : List Text → List (ℕ × List Text)
unfolding by_depth_from
sorted_levels directories = sort_by (λ l r. difference l.0 r.0) (by_depth_from directories [])

-- The groups of requests that are sent at once, one group behind the other.
unfoldable pub groups : List Text → List (List Text)
unfolding sorted_levels all_slices
groups directories = all_slices (sorted_levels directories)

pub data Reply : Type 0 where
  made exists failed : Reply

abbrev pub is_failed : Reply → Bool
is_failed made = false
is_failed exists = false
is_failed failed = true

-- A folder that exists is merged with; another error ends the upload behind its group.
unfoldable pub send_groups : (Text → Reply) → List (List Text) → List (List Text)
send_groups reply [] = []
send_groups reply (group ∷ later) =
    let rest = send_groups reply later in
    if any (λ directory. is_failed (reply directory)) group then group ∷ [] else group ∷ rest

unfoldable pub make_folders : (Text → Reply) → List Text → List (List Text)
unfolding groups send_groups
make_folders reply directories = send_groups reply (groups directories)
