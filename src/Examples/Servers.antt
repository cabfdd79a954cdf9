-- ===== src/Examples/Servers.antt =====
-- The CSV reader and the mock server's files, at concrete inputs.
use zen_fm.Base.{
  ℕ, ◌≡◌, ◌≤◌, refl, true, false, [], ◌∷◌, ◌++◌, List, Option, none, some, Text, codes, All, arith,
  inl, inr, if◌then◌else◌, length,
}
use zen_fm.Csv
use zen_fm.Csv.{parse_csv, separator_for, max_rows, comma}
use zen_fm.Csv.Bounds.{parse_csv_bounds, IsShortRow}
use zen_fm.Csv.RoundTrip.{parse_csv-write_rows, write_rows}
use zen_fm.Mock.FilePaths.{normalize_path}
use zen_fm.Mock.Canonical.{normalize_path-IsCanonical}
use zen_fm.Mock.Canonical.Parts.{IsCanonical}
use zen_fm.Mock.Files
use zen_fm.Mock.Files.{MockFile, FileMap, get, copy_tree, delete_tree, within}
use zen_fm.Mock.Files.Moves.{move_into_itself}

abbrev table : List (List Text)
table = (codes "a,b" ∷ codes "" ∷ []) ∷ (codes "x\"y" ∷ codes "\n" ∷ []) ∷ []

parse_csv-write_rows_example :
    parse_csv (write_rows comma table) ≡ record { rows = table; truncated = false }
unfolding write_rows Csv.separator_for
parse_csv-write_rows_example =
    parse_csv-write_rows comma table (ground arith) (omega arith) (omega arith) refl

parse_csv_bounds_example :
    (length (parse_csv (codes "a;b\n\"c;\"")).rows ≤ max_rows)
    × All IsShortRow (parse_csv (codes "a;b\n\"c;\"")).rows
parse_csv_bounds_example = parse_csv_bounds (codes "a;b\n\"c;\"")

read_semicolons :
    (parse_csv (codes "a;b\n\"c;\"")).rows ≡ (codes "a" ∷ codes "b" ∷ []) ∷ (codes "c;" ∷ []) ∷ []
unfolding parse_csv
read_semicolons = refl

normalize_path-IsCanonical_example :
    IsCanonical (codes "/a/b") × (normalize_path (codes "/a/b") ≡ some (codes "/a/b"))
unfolding normalize_path zen_fm.Base.contains zen_fm.Base.split_on zen_fm.Base.text_eq
    zen_fm.Mock.FilePaths.drop_last_slash zen_fm.Mock.FilePaths.posix_normalize
    zen_fm.Mock.FilePaths.resolve zen_fm.Base.join_with zen_fm.Mock.FilePaths.ends_with_slash
normalize_path-IsCanonical_example =
    normalize_path-IsCanonical (codes "a//./b/") (codes "/a/b") refl

abbrev folder : MockFile
folder = record { kind = Files.FileKind.directory; content = []; mime_type = [] }

abbrev note : MockFile
note = record { kind = Files.FileKind.file; content = 1 ∷ []; mime_type = [] }

abbrev disk : FileMap
disk = (codes "/", folder) ∷ (codes "/a", folder) ∷ (codes "/a/n", note) ∷ (codes "/ab", note) ∷ []

abbrev copied : (destination : Text) → FileMap
copied destination = Files.copy_entries (codes "/a") destination disk disk

move_into_itself_example :
    (get (codes "/a/n") (delete_tree (copied (codes "/a/b")) (codes "/a")) ≡ none)
    × (get (codes "/a/b") (delete_tree (copied (codes "/a/b")) (codes "/a")) ≡ none)
unfolding copy_tree get within zen_fm.Base.text_eq zen_fm.Mock.FilePaths.parent_path
    zen_fm.Paths.before_last_slash zen_fm.Base.starts_with
move_into_itself_example =
    move_into_itself disk (copied (codes "/a/b")) (codes "/a") (codes "/a/b") (codes "/a/n")
      (refl, (refl, (refl, (refl, tt)))) refl refl refl
