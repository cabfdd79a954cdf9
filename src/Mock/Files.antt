-- ===== src/Mock/Files.antt =====
-- The files of frontend/dev/mockApi.ts: a map from paths to nodes in the order of insertion, and the
-- operations on whole trees.
pub mod Maps
pub mod Deletes
pub mod Moves
use zen_fm.Base.{
  ℕ, ◌+◌, Bool, true, false, not, ◌&&◌, ◌||◌, List, [], ◌∷◌, ◌++◌, Option, none, some,
  if◌then◌else◌, Text, codes, text_eq, starts_with, length, drop, is_some, select, total,
}
use zen_fm.Paths.{slash, root}
use zen_fm.Mock.FilePaths.{parent_path}

pub data FileKind : Type 0 where
  file directory : FileKind

-- The times of change are left out.
pub record MockFile : Type 0 where
  pub kind : FileKind
  pub content : List ℕ
  pub mime_type : Text

abbrev pub FileMap : Type 0
FileMap = List (Text × MockFile)

-- `Map.prototype.get`, `set` and `delete`.
unfoldable pub get : Text → FileMap → Option MockFile
get path [] = none
get path ((p, f) ∷ fs) = if text_eq p path then some f else get path fs

unfoldable pub set : Text → MockFile → FileMap → FileMap
set path value [] = (path, value) ∷ []
set path value ((p, f) ∷ fs) =
    if text_eq p path then (p, value) ∷ fs else (p, f) ∷ set path value fs

unfoldable pub delete : Text → FileMap → FileMap
delete path [] = []
delete path ((p, f) ∷ fs) = if text_eq p path then fs else (p, f) ∷ delete path fs

abbrev pub has : Text → FileMap → Bool
has path fs = is_some (get path fs)

-- `candidate === path || candidate.startsWith(path + '/')`.
unfoldable pub within : (path candidate : Text) → Bool
within path candidate = text_eq candidate path || starts_with candidate (path ++ slash ∷ [])

pub data Thrown : Type 0 where
  no_source destination_exists no_parent : Thrown

pub data Attempt {ℓ} (A : Type ℓ) : Type ℓ where
  ok : A → Attempt A
  fail : Thrown → Attempt A

-- The loop over the entries as they stood at the start.
unfoldable pub copy_entries : (source destination : Text) → (snapshot files : FileMap) → FileMap
copy_entries source destination [] files = files
copy_entries source destination ((path, value) ∷ snapshot) files =
    copy_entries source destination snapshot (
      if within source path
      then set (destination ++ drop (length source) path) value files
      else files)

unfoldable pub copy_tree : FileMap → (source destination : Text) → Attempt FileMap
copy_tree files source destination =
    if not (has source files)
    then fail no_source
    else if has destination files
    then fail destination_exists
    else if not (has (parent_path destination) files)
    then fail no_parent
    else ok (copy_entries source destination files files)

abbrev pub size_of : MockFile → ℕ
size_of f = elim f.kind [ FileKind.file ↦ length f.content | FileKind.directory ↦ 0 ]

unfoldable pub copy_tree_size : FileMap → (source : Text) → Attempt ℕ
copy_tree_size files source =
    if not (has source files)
    then fail no_source
    else ok (total (λ e. size_of e.1) (select (λ e. within source e.0) files))

-- The keys are those at the start, and each that lies in the tree is deleted.
unfoldable pub delete_keys : (path : Text) → (keys files : FileMap) → FileMap
delete_keys path [] files = files
delete_keys path ((candidate, f) ∷ keys) files =
    delete_keys path keys (if within path candidate then delete candidate files else files)

unfoldable pub delete_tree : FileMap → (path : Text) → FileMap
delete_tree files path = delete_keys path files files
