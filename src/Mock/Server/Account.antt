-- ===== src/Mock/Server/Account.antt =====
-- The session, the owner's password and the settings of frontend/dev/mockApi.ts.
use zen_fm.Base.{
  ℕ, suc, ◌+◌, Bool, true, false, not, ◌&&◌, List, [], ◌∷◌, Option, none, some, leb, ltb,
  if◌then◌else◌, Text, codes, text_eq, starts_with, contains, any, length, map, total,
}
use zen_fm.Mock.Files.{FileKind, FileMap}
use zen_fm.Mock.Files as Files
use zen_fm.Mock.FilePaths.{normalize_path}
use zen_fm.Paths.{slash}
use zen_fm.Mock.Server.{
  Server, Settings, Request, Body, LabelsInput, no_labels, no_object, labels, Reply, session,
  settings, usage, problem, json, signs_in, with_body, trim, text_or_empty,
}

-- `POST /session`, the only call without a session besides the public shares.
unfoldable pub log_in_with : Server → Body → Server × Reply
log_in_with s b = elim b.password [
  | none ↦ (s, problem 401 (codes "Invalid password."))
  | some password ↦
      if text_eq password s.owner_password
      then (s, signs_in (session s.settings.startup_directory))
      else (s, problem 401 (codes "Invalid password."))
]

unfoldable pub log_in : Server → Request → Server × Reply
log_in s r = with_body s r (log_in_with s)

-- `Array.from(text).length`: a high surrogate and the low one behind it are one character. The flag
-- says that the unit before is a high surrogate that still waits.
unfoldable pub count_points : Bool → Text → ℕ
count_points high [] = 0
count_points high (c ∷ s) =
    let paired = count_points false s in
    let alone = suc (count_points (leb 0xd800 c && leb c 0xdbff) s) in
    if high && leb 0xdc00 c && leb c 0xdfff then paired else alone

abbrev pub or_kept : Text → Text → Text
or_kept [] old = old
or_kept (c ∷ t) old = c ∷ t

-- `PUT /owner/password`.
unfoldable pub change_password_with : Server → Body → Server × Reply
change_password_with s b = elim b.current_password [
  | none ↦ (s, problem 401 (codes "Current password is required."))
  | some current ↦
      let next = text_or_empty b.new_password in
      if not (text_eq current s.owner_password)
      then (s, problem 401 (codes "Current password is incorrect."))
      else if ltb (count_points false next) 7
      then (s, problem 422 (codes "New password must contain at least 7 characters."))
      else (
        record s { owner_password = or_kept next s.owner_password },
        json 200 (session s.settings.startup_directory),
      )
]

unfoldable pub change_password : Server → Request → Server × Reply
change_password s r = with_body s r (change_password_with s)

abbrev pub kind_of : FileMap → Text → Option FileKind
kind_of files path = elim (Files.get path files) [ none ↦ none | some f ↦ some f.kind ]

abbrev pub is_directory : Option FileKind → Bool
is_directory (some FileKind.directory) = true
is_directory other = false

abbrev pub settings_response : Server → Reply
settings_response s =
    json 200 (settings s.settings (map (λ path. (path, kind_of s.files path)) s.settings.favorites))

-- The start directory of an input: `ok` with the one to keep, if any, or the problem.
pub data Checked {ℓ} (A : Type ℓ) : Type ℓ where
  ok : A → Checked A
  refused : Reply → Checked A

abbrev pub invalid_directory : Reply
invalid_directory = problem 400 (codes "Startup directory is invalid.")

unfoldable pub check_directory : FileMap → Option Text → Checked (Option Text)
check_directory files none = ok none
check_directory files (some path) =
    if not (starts_with path (slash ∷ []))
    then refused invalid_directory
    else elim (normalize_path path) [
      | none ↦ refused (problem 400 (codes "Invalid path."))
      | some normal ↦
          if is_directory (kind_of files normal)
          then ok (some normal)
          else refused invalid_directory
    ]

-- A label: not a text, too long, or with a character that ends a line, is refused.
abbrev pub label_valid : Text → Bool
label_valid label =
    let t = trim label in
    leb (count_points false t) 200
    && not (contains 0 t)
    && not (contains 13 t)
    && not (contains 10 t)

abbrev pub put_label : Text → Text → List (Text × Text) → List (Text × Text)
put_label path label [] = (path, label) ∷ []
put_label path label ((p, l) ∷ rest) =
    if text_eq p path then (p, label) ∷ rest else (p, l) ∷ put_label path label rest

abbrev pub includes : List Text → Text → Bool
includes paths path = any (λ p. text_eq p path) paths

-- The loop over the labels; `given` says that they are of the input and not the old ones.
unfoldable pub check_labels :
    (given : Bool)
    → List Text
    → List (Text × Option Text)
    → List (Text × Text)
    → Checked (List (Text × Text))
check_labels given favorites [] kept = ok kept
check_labels given favorites ((path, none) ∷ rest) kept =
    refused (problem 400 (codes "Favorite label is invalid."))
check_labels given favorites ((path, some label) ∷ rest) kept =
    let skipped = check_labels given favorites rest kept in
    let taken = check_labels given favorites rest (put_label path (trim label) kept) in
    if not (label_valid label)
    then refused (problem 400 (codes "Favorite label is invalid."))
    else if not (includes favorites path)
    then (if given
        then refused (problem 400 (codes "Favorite label path is invalid."))
        else skipped)
    else if text_eq (trim label) []
    then skipped
    else taken

abbrev pub given_or {ℓ} : {A : Type ℓ} → Option A → A → A
given_or none old = old
given_or (some new) old = new

abbrev pub input_labels : List Text → LabelsInput → Settings → Checked (List (Text × Text))
input_labels favorites no_labels old =
    check_labels false favorites (map (λ e. (e.0, some e.1)) old.favorite_labels) []
input_labels favorites no_object old = refused (problem 400 (codes "Favorite labels are invalid."))
input_labels favorites (labels given) old = check_labels true favorites given []

-- `PUT /settings`: nothing changes unless the whole input is valid.
unfoldable pub update_settings : Server → Request → Server × Reply
update_settings s r = with_body s r (λ b. elim (check_directory s.files b.startup_directory) [
  | refused reply ↦ (s, reply)
  | ok directory ↦
      let favorites = given_or b.favorites s.settings.favorites in
      elim (input_labels favorites b.favorite_labels s.settings) [
        | refused reply ↦ (s, reply)
        | ok kept ↦
            let next = record s {
              settings = record {
                startup_directory = given_or directory s.settings.startup_directory;
                favorites = favorites;
                favorite_labels = kept;
                show_hidden = given_or b.show_hidden s.settings.show_hidden;
                auto_overwrite_uploads =
                    given_or b.auto_overwrite_uploads s.settings.auto_overwrite_uploads;
                client_timeout_seconds =
                    given_or b.client_timeout_seconds s.settings.client_timeout_seconds;
              };
            } in
            (next, settings_response next)
      ]
])

-- `GET /usage`: 7 GiB and the bytes of the files.
unfoldable pub disk_usage : Server → Server × Reply
disk_usage s = (s, json 200 (usage (7_516_192_768 + total (λ e. length e.1.content) s.files)))
