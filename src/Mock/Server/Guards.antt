-- ===== src/Mock/Server/Guards.antt =====
-- What a request can change on the mock server.
use zen_fm.Base.{
  ◌≡◌, refl, inl, inr, Bool, true, false, not, ◌&&◌, ◌||◌, Option, none, some, Text, codes, arith,
  if_both, Option-cases, find_first,
}
use zen_fm.Client.Request.{Method}
use zen_fm.Mock.FilePaths.{normalize_path}
use zen_fm.Mock.Server.{
  Server, Share, Request, Reply, Platform, problem, or_reply-both, with_path, text_or_empty,
  authenticated, needs_no_token, is_post, is_put, is_delete, text_or_empty,
}
use zen_fm.Mock.Server.Account.{disk_usage, log_in, log_in_with}
use zen_fm.Mock.Server.Tree.{list_directory, read_at, read_content, file_checksum, search_files}
use zen_fm.Mock.Server.Sharing.{
  invalid_path, malformed, no_share, show_shared, is_share_of, public_share, open_shared, one_share,
}
use zen_fm.Mock.Server.Handler.{
  route, handle, guarded, routed, account_routes, file_routes, upload_routes, sharing_routes,
  csrf_valid, Routed, else_route, or_not_found, public_match, part_behind, with_part, share_route,
  token_route,
}

-- A result that leaves the server as it was, and a route of which that is true.
abbrev Kept : Server → Server × Reply → Type 0
Kept s result = result.0 ≡ s

abbrev RouteKept : Server → Routed → Type 0
RouteKept s none = Unit {0}
RouteKept s (some result) = Kept s result

with_path-Kept :
    (s : Server) (v : Option Text) (go : Text → Server × Reply)
    → ((t : Text) → Kept s (go t))
    → Kept s (with_path s v go)
with_path-Kept s v go h =
    or_reply-both (Kept s) s invalid_path (normalize_path (text_or_empty v)) go refl h

list_directory-Kept : (s : Server) (r : Request) → Kept s (list_directory s r)
unfolding list_directory
list_directory-Kept s r = with_path-Kept s r.path_param _ (λ t. if_both (Kept s) _ refl refl)

read_content-Kept : (p : Platform) (s : Server) (r : Request) → Kept s (read_content p s r)
unfolding read_content read_at
read_content-Kept p s r = with_path-Kept s r.path_param _ (λ t. refl)

file_checksum-Kept : (p : Platform) (s : Server) (r : Request) → Kept s (file_checksum p s r)
unfolding file_checksum
file_checksum-Kept p s r = with_path-Kept s r.path_param _ (λ t. refl)

search_files-Kept : (p : Platform) (s : Server) (r : Request) → Kept s (search_files p s r)
unfolding search_files
search_files-Kept p s r = with_path-Kept s r.path_param _ (λ t. refl)

-- A safe method is none of those that change something.
safe_method :
    (m : Method)
    → needs_no_token m ≡ true
    → (is_post m ≡ false) × (is_put m ≡ false) × (is_delete m ≡ false)
safe_method m h = ground arith

account_routes-Kept :
    (s : Server) (r : Request) → needs_no_token r.method ≡ true → RouteKept s (account_routes s r)
unfolding account_routes disk_usage
account_routes-Kept s r h = ground (arith, safe_method r.method h)

file_routes-Kept :
    (p : Platform) (s : Server) (r : Request)
    → needs_no_token r.method ≡ true
    → RouteKept s (file_routes p s r)
unfolding file_routes
file_routes-Kept p s r h = ground (
  arith,
  safe_method r.method h,
  list_directory-Kept s r,
  read_content-Kept p s r,
  file_checksum-Kept p s r,
  search_files-Kept p s r,
)

upload_routes-Kept : (s : Server) (r : Request) → RouteKept s (upload_routes s r)
unfolding upload_routes
upload_routes-Kept s r = ground arith

one_share-Kept :
    (p : Platform) (part : Text) (s : Server) (r : Request)
    → needs_no_token r.method ≡ true
    → RouteKept s (one_share p part s r)
unfolding one_share
one_share-Kept p part s r h = ground (arith, safe_method r.method h)

with_part-Kept :
    (s : Server) (o : Option Text) (go : Text → Routed)
    → ((t : Text) → RouteKept s (go t))
    → RouteKept s (with_part o go)
with_part-Kept s none go h = tt
with_part-Kept s (some t) go h = h t

share_route-Kept :
    (p : Platform) (s : Server) (r : Request)
    → needs_no_token r.method ≡ true
    → RouteKept s (share_route p s r)
share_route-Kept p s r h =
    with_part-Kept s (part_behind (codes "/api/v1/shares/") r.path) _
      (λ part. one_share-Kept p part s r h)

token_route-Kept :
    (p : Platform) (s : Server) (r : Request)
    → needs_no_token r.method ≡ true
    → RouteKept s (token_route p s r)
token_route-Kept p s r h =
    with_part-Kept s (part_behind (codes "/api/v1/tokens/") r.path) _
      (λ part. ground (arith, safe_method r.method h))

else_route-Kept :
    (s : Server) (a b : Routed) → RouteKept s a → RouteKept s b → RouteKept s (else_route a b)
else_route-Kept s none b h k = k
else_route-Kept s (some x) b h k = h

-- The last group without the routes of one share and one token.
sharing_routes-Kept :
    (p : Platform) (s : Server) (r : Request)
    → needs_no_token r.method ≡ true
    → RouteKept s (sharing_routes p s r)
unfolding sharing_routes
sharing_routes-Kept p s r h =
    let later =
      else_route-Kept s (share_route p s r) (token_route p s r) (share_route-Kept p s r h)
        (token_route-Kept p s r h) in
    ground (arith, safe_method r.method h, later)

or_not_found-Kept : (s : Server) (o : Routed) → RouteKept s o → Kept s (or_not_found s o)
or_not_found-Kept s none h = refl
or_not_found-Kept s (some x) h = h

routed-Kept :
    (p : Platform) (s : Server) (r : Request)
    → needs_no_token r.method ≡ true
    → Kept s (routed p s r)
unfolding routed route
routed-Kept p s r h = or_not_found-Kept s _ (
    else_route-Kept s _ _ (account_routes-Kept s r h) (
      else_route-Kept s _ _ (file_routes-Kept p s r h)
        (else_route-Kept s _ _ (upload_routes-Kept s r) (sharing_routes-Kept p s r h))))

-- What the tests in front of the routes let through.
abbrev pub passes : Request → Bool
passes r = authenticated r && (needs_no_token r.method || csrf_valid r)

guarded-Kept :
    (p : Platform) (s : Server) (r : Request)
    → (passes r && not (needs_no_token r.method)) ≡ false
    → Kept s (guarded p s r)
unfolding guarded
guarded-Kept p s r h = ground (arith, routed-Kept p s r)

log_in-Kept : (s : Server) (r : Request) → Kept s (log_in s r)
unfolding log_in log_in_with
log_in-Kept s r =
    or_reply-both (Kept s) s (problem 400 (codes "Invalid JSON body.")) r.json (log_in_with s) refl
      (λ b. ground arith)

-- A result that at most opens a share.
abbrev Unlocks : Server → Server × Reply → Type 0
Unlocks s result = result.0 ≡ record s { unlocked_shares = result.0.unlocked_shares }

open_shared-Unlocks :
    (p : Platform) (s : Server) (r : Request) (sh : Share) (relative : Text)
    → Unlocks s (open_shared p s r sh relative)
unfolding open_shared
open_shared-Unlocks p s r sh relative = ground arith

show_shared-Unlocks :
    (p : Platform) (raw : Bool) (s : Server) (r : Request) (sh : Share) (relative : Text)
    → Unlocks s (show_shared p raw s r sh relative)
unfolding show_shared
show_shared-Unlocks p raw s r sh relative = ground (arith, open_shared-Unlocks p s r sh relative)

public_share-Unlocks :
    (p : Platform) (raw : Bool) (part : Text) (s : Server) (r : Request)
    → Unlocks s (public_share p raw part s r)
unfolding public_share
public_share-Unlocks p raw part s r =
    or_reply-both (Unlocks s) s malformed (p.decode part) _ refl (λ secret.
      or_reply-both (Unlocks s) s no_share (find_first (is_share_of secret) s.shares) _ refl (λ sh.
        or_reply-both (Unlocks s) s invalid_path (normalize_path (text_or_empty r.path_param))
          (show_shared p raw s r sh) refl (show_shared-Unlocks p raw s r sh)))

-- A request that changes something on the server besides opening a share has a session, has a method
-- that may change something, and carries the CSRF token.
pub handle-passes :
    (p : Platform) (s : Server) (r : Request)
    → (passes r && not (needs_no_token r.method)) ≡ false
    → (handle p s r).0 ≡ record s { unlocked_shares = (handle p s r).0.unlocked_shares }
unfolding handle
handle-passes p s r h = elim (Option-cases (public_match r.path)) [
  | inl e ↦ rw e (ground (arith, log_in-Kept s r, guarded-Kept p s r h))
  | inr ((part, raw), e) ↦
      rw e (ground (arith, log_in-Kept s r, public_share-Unlocks p raw part s r))
]
