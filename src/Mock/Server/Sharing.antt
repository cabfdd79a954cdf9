-- ===== src/Mock/Server/Sharing.antt =====
-- The shares and the tokens of frontend/dev/mockApi.ts.
use zen_fm.Base.{
  ℕ, suc, ◌+◌, ◌*◌, Bool, true, false, not, ◌&&◌, List, [], ◌∷◌, ◌++◌, Option, none, some,
  if◌then◌else◌, Text, codes, text_eq, any, find_first, length, drop, ◌==◌,
}
use zen_fm.Paths.{root, or_else}
use zen_fm.Mock.FilePaths.{normalize_path, basename}
use zen_fm.Mock.Files.{MockFile, FileMap, FileKind, within, has}
use zen_fm.Mock.Files as Files
use zen_fm.Mock.Server.{
  Server, Share, view_of, Token, Request, Reply, Entry, Platform, share, locked, shared_file,
  shared_directory, token, problem, json, empty, content, or_reply, with_body, with_path, entry,
  text_or_empty, is_get, is_post, is_delete,
}
use zen_fm.Mock.Server.Tree.{children, mime_for, file_reply}

abbrev pub invalid_path : Reply
invalid_path = problem 400 (codes "Invalid path.")

-- The path below the share's root that a relative path names.
abbrev pub shared_target : (start relative : Text) → Option Text
shared_target start relative =
    if text_eq start root
    then some relative
    else normalize_path (start ++ (if text_eq relative root then [] else relative))

abbrev pub relative_entry : (start : Text) → Text × MockFile → Option Entry
relative_entry start (path, value) =
    if text_eq start root
    then some (entry path value)
    else elim (normalize_path (drop (length start) path)) [
      | none ↦ none
      | some relative ↦ some (record (entry path value) { path = relative })
    ]

unfoldable pub relative_entries : (start : Text) → FileMap → Option (List Entry)
relative_entries start [] = some []
relative_entries start (e ∷ es) = elim (relative_entry start e) [
  | none ↦ none
  | some here ↦ elim (relative_entries start es) [ none ↦ none | some rest ↦ some (here ∷ rest) ]
]

-- `shareView`, with the paths normalised. For a share of the root the prefix is two slashes, so that
-- only the root itself passes the test.
unfoldable pub view_at : Platform → FileMap → Share → (start relative target : Text) → Reply
view_at platform files sh start relative target =
    let name = or_else sh.name (basename start) in
    if not (within start target)
    then problem 400 (codes "Path is outside the share.")
    else elim (Files.get target files) [
      | none ↦ problem 400 (codes "Shared path does not exist.")
      | some node ↦ elim node.kind [
        | FileKind.file ↦
            json 200 (shared_file name relative (record (entry target node) { path = relative }))
        | FileKind.directory ↦ elim (relative_entries start (children files target)) [
          | none ↦ invalid_path
          | some entries ↦ json 200 (shared_directory name relative (platform.by_name entries))
        ]
      ]
    ]

unfoldable pub share_view : Platform → FileMap → Share → (relative : Text) → Reply
share_view platform files sh relative = elim (normalize_path sh.path) [
  | none ↦ invalid_path
  | some start ↦ elim (shared_target start relative) [
    | none ↦ invalid_path
    | some target ↦ view_at platform files sh start relative target
  ]
]

abbrev pub is_locked : Server → Share → Bool
is_locked s sh =
    not (text_eq sh.password []) && not (any (λ u. text_eq u sh.secret) s.unlocked_shares)

unfoldable pub read_shared : Platform → Server → Share → (relative : Text) → Reply
read_shared platform s sh relative =
    if is_locked s sh
    then problem 401 (codes "Share password required.")
    else elim (normalize_path sh.path) [
      | none ↦ invalid_path
      | some start ↦ elim (shared_target start relative) [
        | none ↦ invalid_path
        | some target ↦
            file_reply (Files.get target s.files)
              (λ f. content (or_else f.mime_type (mime_for platform target)) f.content)
              (problem 404 (codes "Shared file not found."))
      ]
    ]

abbrev pub unlock : Server → Share → Server
unlock s sh = record s { unlocked_shares = s.unlocked_shares ++ sh.secret ∷ [] }

-- A share with a password is shown once its password has been given.
unfoldable pub open_shared :
    Platform → Server → Request → Share → (relative : Text) → Server × Reply
open_shared platform s r sh relative =
    if not (is_locked s sh)
    then (s, share_view platform s.files sh relative)
    else if is_get r.method
    then (s, json 200 (locked (or_else sh.name (codes "Shared files")) relative))
    else with_body s r (λ b.
      if text_eq (text_or_empty b.password) sh.password
      then (unlock s sh, share_view platform s.files sh relative)
      else (s, problem 401 (codes "Invalid share password.")))

abbrev pub is_share_of : (secret : Text) → Share → Bool
is_share_of secret sh = text_eq sh.secret secret

abbrev pub no_share : Reply
no_share = problem 404 (codes "Share not found.")

abbrev pub malformed : Reply
malformed = problem 400 (codes "URI malformed")

unfoldable pub show_shared :
    Platform → (raw : Bool) → Server → Request → Share → (relative : Text) → Server × Reply
show_shared platform raw s r sh relative =
    if raw && is_get r.method
    then (s, read_shared platform s sh relative)
    else if not (is_get r.method) && not (is_post r.method)
    then (s, problem 405 (codes "Method not allowed."))
    else open_shared platform s r sh relative

unfoldable pub public_share :
    Platform → (raw : Bool) → (part : Text) → Server → Request → Server × Reply
public_share platform raw part s r = or_reply s malformed (platform.decode part) (λ secret.
    or_reply s no_share (find_first (is_share_of secret) s.shares)
      (λ sh. with_path s r.path_param (show_shared platform raw s r sh)))

abbrev pub id_of : Platform → Text → ℕ → Text
id_of platform prefix n = prefix ++ platform.decimal n

unfoldable pub create_share : Platform → Server → Request → Server × Reply
create_share platform s r = with_body s r (λ b. with_path s b.path (λ target.
    let sh : Share = record {
      id = id_of platform (codes "share-") s.next_id;
      secret = r.random;
      path = target;
      name = text_or_empty b.name;
      password = text_or_empty b.password;
      expires_at =
          if b.expires_in_seconds == 0 then none else some (r.time + b.expires_in_seconds * 1_000);
    } in
    if not (has target s.files) then (s, problem 404 (codes "Path not found.")) else (
      record s { shares = s.shares ++ sh ∷ []; next_id = suc s.next_id },
      json 201 (share (view_of true sh)),
    )))

-- `findIndex` and `splice`: only the first one goes.
abbrev pub remove_first {ℓ} : {A : Type ℓ} → (A → Bool) → List A → List A
remove_first f [] = []
remove_first f (x ∷ xs) = if f x then xs else x ∷ remove_first f xs

unfoldable pub one_share : Platform → (part : Text) → Server → Request → Option (Server × Reply)
one_share platform part s r = elim (platform.decode part) [
  | none ↦ some (s, problem 400 (codes "URI malformed"))
  | some id ↦ elim (find_first (λ (sh : Share). text_eq sh.id id) s.shares) [
    | none ↦ some (s, problem 404 (codes "Share not found."))
    | some sh ↦
        if is_delete r.method
        then some (record s { shares = remove_first (λ x. text_eq x.id id) s.shares }, empty 204)
        else if is_get r.method
        then some (s, json 200 (share (view_of false sh)))
        else none
  ]
]

unfoldable pub create_token : Platform → Server → Request → Server × Reply
create_token platform s r = with_body s r (λ b.
    let seconds = if b.expires_in_seconds == 0 then 2_592_000 else b.expires_in_seconds in
    let created : Token = record {
      id = id_of platform (codes "token-") s.next_id;
      name = text_or_empty b.name;
      expires_at = r.time + seconds * 1_000;
    } in
    if text_eq created.name [] then (s, problem 422 (codes "Token name is required.")) else (
      record s { tokens = s.tokens ++ created ∷ []; next_id = suc s.next_id },
      json 201 (token created (codes "zfm_demo_" ++ r.random)),
    ))

unfoldable pub delete_token : Platform → (part : Text) → Server → Server × Reply
delete_token platform part s = elim (platform.decode part) [
  | none ↦ (s, problem 400 (codes "URI malformed"))
  | some id ↦
      if any (λ (t : Token). text_eq t.id id) s.tokens
      then (record s { tokens = remove_first (λ t. text_eq t.id id) s.tokens }, empty 204)
      else (s, problem 404 (codes "Token not found."))
]
