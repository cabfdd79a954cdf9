-- ===== src/Uploads/Batches.antt =====
-- Which files and folders a selection or a drop uploads, and how one file is sent: `fileUploadBatch`,
-- `uploadRootNames`, `collectDroppedEntry` and `uploadFile` of frontend/src/pages/FilesPage.tsx. A
-- file is known by its name, its path in the selection and its size.
pub mod Whole
use zen_fm.Base.{
  ℕ, ◌*◌, ◌≡◌, inl, inr, Bool, true, false, not, ◌&&◌, ◌||◌, List, [], ◌∷◌, ◌++◌, Option, none,
  some, if◌then◌else◌, Text, text_eq, text_eq_refl, any, select, split_on, join_with, ltb, leb, All,
  All-map, arith, Bool-cases,
}
use zen_fm.Paths.{slash, or_else}

pub record File : Type 0 where
  pub name : Text
  pub relative_path : Text
  pub size : ℕ

pub record UploadFile : Type 0 where
  pub file : File
  pub relative_path : Text

pub record UploadBatch : Type 0 where
  pub directories : List Text
  pub files : List UploadFile

-- `Set.prototype.has` and `add`.
abbrev pub includes : List Text → Text → Bool
includes xs x = any (λ y. text_eq y x) xs

abbrev pub add : List Text → Text → List Text
add xs x = if includes xs x then xs else xs ++ x ∷ []

abbrev pub parts_of : Text → List Text
parts_of path = select (λ part. not (text_eq part [])) (split_on slash path)

-- The paths of the first one, two, … parts, without the path of all of them.
unfoldable pub prefixes : (before : List Text) → List Text → List Text
prefixes before [] = []
prefixes before (part ∷ []) = []
prefixes before (part ∷ next ∷ parts) =
    join_with slash (before ++ part ∷ []) ∷ prefixes (before ++ part ∷ []) (next ∷ parts)

abbrev pub path_in_batch : File → Text
path_in_batch f = or_else f.relative_path f.name

abbrev pub folders_of : File → List Text
folders_of f = prefixes [] (parts_of (path_in_batch f))

unfoldable pub add_all : List Text → List Text → List Text
add_all xs [] = xs
add_all xs (y ∷ ys) = add_all (add xs y) ys

abbrev pub add_file : UploadBatch → File → UploadBatch
add_file b f = record {
  directories = add_all b.directories (folders_of f);
  files = b.files ++ record { file = f; relative_path = path_in_batch f } ∷ [];
}

unfoldable pub collect_files : UploadBatch → List File → UploadBatch
collect_files b [] = b
collect_files b (f ∷ fs) = collect_files (add_file b f) fs

unfoldable pub file_upload_batch : List File → UploadBatch
unfolding collect_files
file_upload_batch files = collect_files (record { directories = []; files = [] }) files

abbrev pub root_name : List Text → Text → List Text
root_name names path = elim (parts_of path) [ [] ↦ names | name ∷ rest ↦ add names name ]

unfoldable pub root_names : List Text → List Text → List Text
root_names names [] = names
root_names names (path ∷ paths) = root_names (root_name names path) paths

-- The entries that a drop delivers; a directory holds what its reader delivers.
mutual
  pub data Dropped : Type 0 where
    dropped_file : File → Dropped
    dropped_directory : (name : Text) → DroppedList → Dropped

  pub data DroppedList : Type 0 where
    none_dropped : DroppedList
    and_dropped : Dropped → DroppedList → DroppedList

abbrev pub below : (parent name : Text) → Text
below [] name = name
below (c ∷ parent) name = c ∷ parent ++ slash ∷ name

unfoldable mutual
  pub collect_dropped : Dropped → (parent : Text) → UploadBatch → UploadBatch
  collect_dropped (dropped_file f) parent b = record b {
    files = b.files ++ record { file = f; relative_path = below parent f.name } ∷ [];
  }
  collect_dropped (dropped_directory name entries) parent b =
      collect_each entries (below parent name)
        (record b { directories = b.directories ++ below parent name ∷ [] })

  pub collect_each : DroppedList → (parent : Text) → UploadBatch → UploadBatch
  collect_each none_dropped parent b = b
  collect_each (and_dropped entry entries) parent b =
      collect_each entries parent (collect_dropped entry parent b)

-- How one file is sent.
pub data Transport : Type 0 where
  direct compressed : (overwrite : Bool) → Transport
  resumable : (overwrite : Bool) → Transport

-- `compressed.size < file.size * 0.9`.
abbrev pub is_smaller : ℕ → Option ℕ → Bool
is_smaller size none = false
is_smaller size (some n) = ltb (10 * n) (9 * size)

-- The first attempt; `gzip` is the size of the compressed file, where there is one.
unfoldable pub first_transport :
    (mock : Bool) → (size : ℕ) → (overwrite : Bool) → Option ℕ → Transport
first_transport mock size overwrite gzip =
    if mock || ltb size 8_388_608
    then direct overwrite
    else if overwrite && leb size 33_554_432 && is_smaller size gzip
    then compressed true
    else resumable overwrite

-- After a failed attempt: a server without resumable uploads gets the file directly.
unfoldable pub next_transport : (not_implemented : Bool) → Transport → Option Transport
next_transport true (resumable overwrite) = some (direct overwrite)
next_transport _ _ = none

includes-add_self : (xs : List Text) (x : Text) → includes (add xs x) x ≡ true
includes-add_self [] x = ground (arith, text_eq_refl x)
includes-add_self (y ∷ xs) x = ground (arith, includes-add_self xs x)

includes-add : (xs : List Text) (x y : Text) → includes xs y ≡ true → includes (add xs x) y ≡ true
includes-add xs x y h = elim (Bool-cases (includes xs x)) [
  | inl e ↦ rw e h
  | inr e ↦ rw e (includes-append xs x y h)
]
  where
    includes-append :
        (xs : List Text) (x y : Text) → includes xs y ≡ true → includes (xs ++ x ∷ []) y ≡ true
    includes-append [] x y h = absurd (cc)
    includes-append (z ∷ xs) x y h = ground (arith, includes-append xs x y)

includes-add_all :
    (xs ys : List Text) (y : Text) → includes xs y ≡ true → includes (add_all xs ys) y ≡ true
unfolding add_all
includes-add_all xs [] y h = h
includes-add_all xs (z ∷ ys) y h = includes-add_all (add xs z) ys y (includes-add xs z y h)

All-add_all : (xs ys : List Text) → All (λ y. includes (add_all xs ys) y ≡ true) ys
unfolding add_all
All-add_all xs [] = tt
All-add_all xs (y ∷ ys) =
    (includes-add_all (add xs y) ys y (includes-add_self xs y), All-add_all (add xs y) ys)

collect_files-includes :
    (b : UploadBatch) (fs : List File) (y : Text)
    → includes b.directories y ≡ true
    → includes (collect_files b fs).directories y ≡ true
unfolding collect_files
collect_files-includes b [] y h = h
collect_files-includes b (f ∷ fs) y h =
    collect_files-includes (add_file b f) fs y (includes-add_all b.directories (folders_of f) y h)

-- The folders that a file of the selection lies in.
abbrev pub HasFolders : UploadBatch → File → Type 0
HasFolders b f = All (λ folder. includes b.directories folder ≡ true) (folders_of f)

collect_files-HasFolders :
    (b : UploadBatch) (fs : List File) → All (HasFolders (collect_files b fs)) fs
unfolding collect_files
collect_files-HasFolders b [] = tt
collect_files-HasFolders b (f ∷ fs) = (
  All-map (λ d. includes (add_file b f).directories d ≡ true)
      (λ d. includes (collect_files (add_file b f) fs).directories d ≡ true) (folders_of f)
      (λ d h. collect_files-includes (add_file b f) fs d h)
      (All-add_all b.directories (folders_of f)),
  collect_files-HasFolders (add_file b f) fs,
)

-- The folders of each file of the selection are among those that the batch creates.
pub file_upload_batch-HasFolders :
    (files : List File) → All (HasFolders (file_upload_batch files)) files
unfolding file_upload_batch
file_upload_batch-HasFolders files =
    collect_files-HasFolders (record { directories = []; files = [] }) files
