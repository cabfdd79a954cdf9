-- ===== src/Mock/Server/Tree.antt =====
-- The calls on files of frontend/dev/mockApi.ts.
use zen_fm.Base.{
  ℕ, Bool, false, not, ◌&&◌, ◌||◌, List, [], ◌∷◌, ◌++◌, Option, none, some, ltb, min, max,
  if◌then◌else◌, Text, codes, text_eq, starts_with, split_on, select, any, length, map, take, drop,
  total, ◌==◌,
}
use zen_fm.Paths.{slash, root, or_else}
use zen_fm.Mock.FilePaths.{normalize_path, parent_path, basename, is_hidden, dot}
use zen_fm.Mock.Files.{
  MockFile, FileMap, FileKind, within, copy_tree, copy_tree_size, delete_tree, has,
}
use zen_fm.Mock.Files as Files
use zen_fm.Mock.Server.{
  Server, Settings, Request, Reply, Platform, listing, sizes, checksum, found, problem, json, empty,
  content, with_body, with_path, entry,
}
use zen_fm.Mock.Server.Account.{kind_of, is_directory, includes, put_label}

-- `extname` of a name: from its last dot on, unless that is its first character.
unfoldable pub from_last_dot : Text → Option Text
from_last_dot [] = none
from_last_dot (c ∷ s) = elim (from_last_dot s) [
  | some t ↦ some t
  | none ↦ if c == 0x2e then some (c ∷ s) else none
]

abbrev pub extension : Text → Text
extension [] = []
extension (c ∷ s) = elim (from_last_dot s) [ none ↦ [] | some t ↦ t ]

unfoldable pub mime_for : Platform → Text → Text
mime_for platform path =
    let e = platform.lower (extension (basename path)) in
    if text_eq e (codes ".csv")
    then codes "text/csv; charset=utf-8"
    else if text_eq e (codes ".html")
    then codes "text/html; charset=utf-8"
    else if text_eq e (codes ".json")
    then codes "application/json; charset=utf-8"
    else if text_eq e (codes ".md")
    then codes "text/markdown; charset=utf-8"
    else if text_eq e (codes ".png")
    then codes "image/png"
    else if text_eq e (codes ".txt")
    then codes "text/plain; charset=utf-8"
    else codes "application/octet-stream"

abbrev pub directory : MockFile
directory = record { kind = FileKind.directory; content = []; mime_type = [] }

abbrev pub children : FileMap → Text → FileMap
children files target =
    select (λ e. not (text_eq e.0 target) && text_eq (parent_path e.0) target) files

unfoldable pub list_directory : Server → Request → Server × Reply
list_directory s r = with_path s r.path_param (λ target.
    let shown = select (λ e. r.hidden || not (is_hidden e.0)) (children s.files target) in
    if is_directory (kind_of s.files target)
    then (s, json 200 (listing target (map (λ e. entry e.0 e.1) shown)))
    else (s, problem 404 (codes "Directory not found.")))

unfoldable pub delete_path : Server → Request → Server × Reply
delete_path s r = with_path s r.path_param (λ target.
    let has_children = any (λ e. starts_with e.0 (target ++ slash ∷ [])) s.files in
    if text_eq target root
    then (s, problem 409 (codes "The mock root cannot be deleted."))
    else if not (has target s.files)
    then (s, problem 404 (codes "Path not found."))
    else if has_children && not r.recursive
    then (s, problem 409 (codes "Directory is not empty."))
    else (record s { files = delete_tree s.files target }, empty 204))

unfoldable pub create_directory : Server → Request → Server × Reply
create_directory s r = with_body s r (λ b. with_path s b.path (λ target.
    if has target s.files
    then (s, problem 409 (codes "Path already exists."))
    else if not (is_directory (kind_of s.files (parent_path target)))
    then (s, problem 404 (codes "Parent directory not found."))
    else (record s { files = Files.set target directory s.files }, empty 201)))

abbrev pub no_file : Reply
no_file = problem 404 (codes "File not found.")

abbrev pub file_reply : Option MockFile → (MockFile → Reply) → Reply → Reply
file_reply none go missing = missing
file_reply (some f) go missing = elim f.kind [ FileKind.file ↦ go f | FileKind.directory ↦ missing ]

-- `GET /files/content`, `/files/raw` and `/files/preview`.
unfoldable pub read_at : Platform → Server → (target : Text) → Server × Reply
read_at platform s target = (
  s,
  file_reply (Files.get target s.files)
      (λ f. content (or_else f.mime_type (mime_for platform target)) f.content) no_file,
)

unfoldable pub read_content : Platform → Server → Request → Server × Reply
read_content platform s r = with_path s r.path_param (read_at platform s)

abbrev pub is_star : Option Text → Bool
is_star none = false
is_star (some t) = text_eq t (codes "*")

abbrev pub max_body_bytes : ℕ
max_body_bytes = 16_777_216

-- `PUT /files/content`.
unfoldable pub write_at : Platform → Server → Request → (target : Text) → Server × Reply
write_at platform s r target =
    let value : MockFile = record {
      kind = FileKind.file;
      content = r.content;
      mime_type = or_else r.content_type (mime_for platform target);
    } in
    if is_star r.if_none_match && has target s.files
    then (s, problem 409 (codes "Path already exists."))
    else if not (is_directory (kind_of s.files (parent_path target)))
    then (s, problem 404 (codes "Parent directory not found."))
    else if ltb max_body_bytes (length r.content)
    then (s, problem 400 (codes "Mock request body is limited to 16 MiB."))
    else (
      record s { files = Files.set target value s.files },
      empty (if has target s.files then 204 else 201),
    )

unfoldable pub write_content : Platform → Server → Request → Server × Reply
write_content platform s r = with_path s r.path_param (write_at platform s r)

abbrev pub missing_source : Reply
missing_source = problem 400 (codes "Source does not exist.")

unfoldable pub copy_sizes : FileMap → List Text → (items : List (Text × ℕ)) → Reply
copy_sizes files [] items = json 200 (sizes items (total (λ e. e.1) items))
copy_sizes files (source ∷ sources) items = elim (normalize_path source) [
  | none ↦ problem 400 (codes "Invalid path.")
  | some path ↦ elim (copy_tree_size files path) [
    | Files.fail e ↦ missing_source
    | Files.ok bytes ↦ copy_sizes files sources (items ++ (path, bytes) ∷ [])
  ]
]

abbrev pub thrown_text : Files.Thrown → Text
thrown_text Files.no_source = codes "Source does not exist."
thrown_text Files.destination_exists = codes "Destination already exists."
thrown_text Files.no_parent = codes "Destination parent does not exist."

abbrev pub moved_path : (source destination favorite : Text) → Text
moved_path source destination favorite =
    if within source favorite then destination ++ drop (length source) favorite else favorite

abbrev pub label_at : List (Text × Text) → Text → Text
label_at [] path = []
label_at ((p, l) ∷ labels) path = if text_eq p path then l else label_at labels path

abbrev pub move_label :
    (old : List (Text × Text)) → (favorite target : Text) → List (Text × Text) → List (Text × Text)
move_label old favorite target labels =
    if text_eq (label_at old favorite) []
    then labels
    else put_label target (label_at old favorite) labels

-- The favorites follow a move, and stay without doubles.
unfoldable pub move_favorites :
    (source destination : Text)
    → (old : List (Text × Text)) → List Text
    → List Text × List (Text × Text)
    → List Text × List (Text × Text)
move_favorites source destination old [] moved = moved
move_favorites source destination old (favorite ∷ favorites) moved =
    let target = moved_path source destination favorite in
    move_favorites source destination old favorites (
      if includes moved.0 target
      then moved
      else (moved.0 ++ target ∷ [], move_label old favorite target moved.1))

abbrev pub after_move : (source destination : Text) → Settings → Settings
after_move source destination old =
    let moved = move_favorites source destination old.favorite_labels old.favorites ([], []) in
    record old { favorites = moved.0; favorite_labels = moved.1 }

-- `POST /files/copy` and `/files/move`.
unfoldable pub copy_or_move : (moves : Bool) → Server → Request → Server × Reply
copy_or_move moves s r = with_body s r (λ b. with_path s b.source (λ source.
    with_path s b.destination (λ destination.
      if text_eq source root || text_eq destination root
      then (s, problem 409 (codes "The mock root cannot be moved or replaced."))
      else elim (copy_tree s.files source destination) [
        | Files.fail e ↦ (s, problem 400 (thrown_text e))
        | Files.ok copied ↦
            if moves
            then (
              record s {
                files = delete_tree copied source;
                settings = after_move source destination s.settings;
              },
              empty 204,
            )
            else (record s { files = copied }, empty 204)
      ])))

unfoldable pub file_checksum : Platform → Server → Request → Server × Reply
file_checksum platform s r = with_path s r.path_param (λ target. (
  s,
  file_reply (Files.get target s.files) (λ f. json 200 (checksum (platform.sha256 f.content)))
      no_file,
))

abbrev pub includes_text : Text → Text → Bool
includes_text term [] = text_eq term []
includes_text term (c ∷ s) = starts_with (c ∷ s) term || includes_text term s

abbrev pub search_limit : ℕ → ℕ
search_limit limit = max 1 (min (if limit == 0 then 250 else limit) 250)

unfoldable pub search_files : Platform → Server → Request → Server × Reply
search_files platform s r = with_path s r.path_param (λ start.
    let below =
      select
        (λ e.
          not (text_eq e.0 start) && (text_eq start root || starts_with e.0 (start ++ slash ∷ [])))
        s.files in
    let shown =
      select (λ e. r.hidden || not (any (λ part. starts_with part dot) (split_on slash e.0)))
        below in
    let matches =
      select (λ e. includes_text (platform.lower r.term) (platform.lower (basename e.0))) shown in
    let entries = map (λ (e : Text × MockFile). entry e.0 e.1) matches in
    (
      s,
      json 200 (
          found (take (search_limit r.limit) entries)
            (ltb (search_limit r.limit) (length entries))),
    ))
