-- ===== src/Mock/Server/Handler.antt =====
-- The request handler of frontend/dev/mockApi.ts: the routes in their order, behind the tests of the
-- session and of the CSRF token.
use zen_fm.Base.{
  Bool, true, false, not, ◌&&◌, ◌||◌, List, [], ◌∷◌, ◌++◌, Option, none, some, if◌then◌else◌, Text,
  codes, text_eq, starts_with, split_on, length, map, drop,
}
use zen_fm.Paths.{slash}
use zen_fm.Client.Request.{Method, options}
use zen_fm.Mock.Server.{
  Server, Request, Reply, Platform, session, shares, tokens, problem, json, signs_out, passed,
  authenticated, csrf_token, needs_no_token, is_get, is_post, is_put, is_delete, view_of,
}
use zen_fm.Mock.Server.Account.{
  log_in, change_password, settings_response, update_settings, disk_usage,
}
use zen_fm.Mock.Server.Tree.{
  list_directory, delete_path, create_directory, read_content, write_content, copy_sizes,
  copy_or_move, file_checksum, search_files,
}
use zen_fm.Mock.Server.Sharing.{public_share, create_share, one_share, create_token, delete_token}
use zen_fm.Mock.Server.{with_body}

abbrev pub at : Request → Text → Bool
at r path = text_eq r.path (codes "/api/v1" ++ path)

-- The text behind a prefix, where it is one part that is not empty.
abbrev pub one_part : List Text → Option Text
one_part ((c ∷ part) ∷ []) = some (c ∷ part)
one_part other = none

abbrev pub part_behind : (prefix path : Text) → Option Text
part_behind prefix path =
    if starts_with path prefix then one_part (split_on slash (drop (length prefix) path)) else none

-- The part of a public share's path, and whether `/raw` follows.
abbrev pub public_parts : List Text → Option (Text × Bool)
public_parts ((c ∷ part) ∷ []) = some (c ∷ part, false)
public_parts ((c ∷ part) ∷ word ∷ []) =
    if text_eq word (codes "raw") then some (c ∷ part, true) else none
public_parts other = none

abbrev pub public_prefix : Text
public_prefix = codes "/api/v1/public/shares/"

abbrev pub public_match : Text → Option (Text × Bool)
public_match path =
    if starts_with path public_prefix
    then public_parts (split_on slash (drop (length public_prefix) path))
    else none

-- A group of routes gives `none` for a request that is none of them.
abbrev pub Routed : Type 0
Routed = Option (Server × Reply)

unfoldable pub account_routes : Server → Request → Routed
account_routes s r =
    if at r (codes "/session") && is_get r.method
    then some (s, json 200 (session s.settings.startup_directory))
    else if at r (codes "/session") && is_delete r.method
    then some (s, signs_out)
    else if at r (codes "/owner/password") && is_put r.method
    then some (change_password s r)
    else if at r (codes "/settings") && is_get r.method
    then some (s, settings_response s)
    else if at r (codes "/settings") && is_put r.method
    then some (update_settings s r)
    else if at r (codes "/usage") && is_get r.method
    then some (disk_usage s)
    else none

unfoldable pub file_routes : Platform → Server → Request → Routed
file_routes platform s r =
    if at r (codes "/files") && is_get r.method
    then some (list_directory s r)
    else if at r (codes "/files") && is_delete r.method
    then some (delete_path s r)
    else if at r (codes "/files/directory") && is_post r.method
    then some (create_directory s r)
    else if at r (codes "/files/content") && is_get r.method
    then some (read_content platform s r)
    else if at r (codes "/files/content") && is_put r.method
    then some (write_content platform s r)
    else if at r (codes "/files/copy-size") && is_post r.method
    then some (with_body s r (λ b. (s, copy_sizes s.files b.sources [])))
    else if at r (codes "/files/copy") && is_post r.method
    then some (copy_or_move false s r)
    else if at r (codes "/files/move") && is_post r.method
    then some (copy_or_move true s r)
    else if (at r (codes "/files/raw") || at r (codes "/files/preview")) && is_get r.method
    then some (read_content platform s r)
    else if at r (codes "/files/checksum") && is_get r.method
    then some (file_checksum platform s r)
    else if at r (codes "/search") && is_get r.method
    then some (search_files platform s r)
    else none

abbrev pub is_options : Method → Bool
is_options options = true
is_options other = false

abbrev pub unavailable : Text → Reply
unavailable detail = problem 501 detail

unfoldable pub upload_routes : Server → Request → Routed
upload_routes s r =
    if at r (codes "/files/archive-tickets") && is_post r.method
    then some (s, unavailable (codes "Archive downloads are unavailable in frontend mock mode."))
    else if at r (codes "/uploads") && (is_options r.method || is_post r.method)
    then some (
      s,
      unavailable (
          codes
            "Resumable uploads are unavailable in frontend mock mode; the browser uses direct uploads instead."),
    )
    else none

abbrev pub with_part : Option Text → (Text → Routed) → Routed
with_part none go = none
with_part (some part) go = go part

abbrev pub share_route : Platform → Server → Request → Routed
share_route platform s r =
    with_part (part_behind (codes "/api/v1/shares/") r.path) (λ part. one_share platform part s r)

abbrev pub token_route : Platform → Server → Request → Routed
token_route platform s r =
    with_part (part_behind (codes "/api/v1/tokens/") r.path)
      (λ part. if is_delete r.method then some (delete_token platform part s) else none)

abbrev pub else_route : Routed → Routed → Routed
else_route none later = later
else_route (some result) later = some result

unfoldable pub sharing_routes : Platform → Server → Request → Routed
sharing_routes platform s r =
    if at r (codes "/shares") && is_get r.method
    then some (s, json 200 (shares (map (view_of true) s.shares)))
    else if at r (codes "/shares") && is_post r.method
    then some (create_share platform s r)
    else if at r (codes "/tokens") && is_get r.method
    then some (s, json 200 (tokens s.tokens))
    else if at r (codes "/tokens") && is_post r.method
    then some (create_token platform s r)
    else else_route (share_route platform s r) (token_route platform s r)

abbrev pub or_not_found : Server → Routed → Server × Reply
or_not_found s none = (s, problem 404 (codes "Mock endpoint not found."))
or_not_found s (some result) = result

abbrev pub csrf_valid : Request → Bool
csrf_valid r = elim r.csrf [ none ↦ false | some token ↦ text_eq token csrf_token ]

-- The routes behind the tests.
unfoldable pub route : Platform → Server → Request → Routed
route platform s r = else_route (account_routes s r) (
    else_route (file_routes platform s r)
      (else_route (upload_routes s r) (sharing_routes platform s r)))

unfoldable pub routed : Platform → Server → Request → Server × Reply
routed platform s r = or_not_found s (route platform s r)

unfoldable pub guarded : Platform → Server → Request → Server × Reply
guarded platform s r =
    if not (authenticated r)
    then (s, problem 401 (codes "Authentication required."))
    else if not (needs_no_token r.method) && not (csrf_valid r)
    then (s, problem 403 (codes "CSRF token is missing or invalid."))
    else routed platform s r

unfoldable pub handle : Platform → Server → Request → Server × Reply
handle platform s r =
    if not (starts_with r.path (codes "/api/v1/"))
    then (s, passed)
    else if at r (codes "/session") && is_post r.method
    then log_in s r
    else elim (public_match r.path) [
      | some (part, raw) ↦ public_share platform raw part s r
      | none ↦ guarded platform s r
    ]
