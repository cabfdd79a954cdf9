-- ===== src/Client/Endpoints.antt =====
-- `query` and the table `api` of frontend/src/api/client.ts: which request each call makes. The
-- encoding of a form, of a path's part and of JSON, and decimal numbers, are the platform's.
pub mod Served
use zen_fm.Base.{
  ℕ, Bool, true, false, List, [], ◌∷◌, ◌++◌, Option, none, some, Text, codes, join_with,
  if◌then◌else◌,
}
use zen_fm.Client.{Client}
use zen_fm.Client.Request.{
  Method, post, put, delete, Headers, accept, content_type, if_none_match, RequestBody, no_body,
  object, as_it_is, RequestOptions, Outcome, resolved, rejected, is_empty,
}

pub data Member : Type 0 where
  missing : Member
  text : Text → Member
  flag : Bool → Member
  number : ℕ → Member
  texts : List Text → Member

pub record Encoders : Type 0 where
  pub form : Text → Text
  pub part : Text → Text
  pub decimal : ℕ → Text
  pub json : List (Text × Member) → Text

abbrev pub parameter : Encoders → Text → Text → List Text → List Text
parameter encoders name value rest = (name ++ codes "=" ++ encoders.form value) ∷ rest

-- The parameters that are given, in their order. No call passes a list.
unfoldable pub parameters : Encoders → List (Text × Member) → List Text
parameters encoders [] = []
parameters encoders ((name, text value) ∷ ps) =
    parameter encoders name value (parameters encoders ps)
parameters encoders ((name, flag value) ∷ ps) =
    parameter encoders name (if value then codes "true" else codes "false") (parameters encoders ps)
parameters encoders ((name, number value) ∷ ps) =
    parameter encoders name (encoders.decimal value) (parameters encoders ps)
parameters encoders ((name, other) ∷ ps) = parameters encoders ps

abbrev pub question : List Text → Text
question [] = []
question (p ∷ ps) = codes "?" ++ join_with 0x26 (p ∷ ps)

unfoldable pub query : Encoders → List (Text × Member) → Text
query encoders ps = question (parameters encoders ps)

-- A call: the path of its address, what follows the path, and its options.
pub record Call : Type 0 where
  pub pathname : Text
  pub search : Text
  pub options : RequestOptions

abbrev pub plain : RequestOptions
plain = record {
  method = none;
  headers = [];
  body = no_body;
  wants_text = false;
  timeout_ms = none;
  skip_unauthorized_event = false;
}

abbrev pub sending : Method → RequestBody → RequestOptions
sending method body = record plain { method = some method; body = body }

abbrev pub quiet : RequestOptions → RequestOptions
quiet options = record options { skip_unauthorized_event = true }

abbrev pub api_root : Text → Text
api_root path = codes "/api/v1" ++ path

abbrev pub at : Text → RequestOptions → Call
at path options = record { pathname = api_root path; search = []; options = options }

-- The calls; the ones with a progress of their own, and addresses that are only shown, are left out.
pub data Endpoint : Type 0 where
  health session_get logout settings_get usage shares_list tokens_list : Endpoint
  login : (password : Text) → Endpoint
  change_password : (current : Option Text) → (next : Text) → Endpoint
  update_settings create_share create_token : (input : List (Text × Member)) → Endpoint
  list : (path : Text) → (hidden : Option Bool) → Endpoint
  create_directory create_text read_text read_preview_text checksum : (path : Text) → Endpoint
  save_text : (path content : Text) → Endpoint
  upload : (path file_type content : Text) → (overwrite : Bool) → Endpoint
  remove : (path : Text) → (recursive : Bool) → Endpoint
  move copy : (source destination : Text) → (overwrite : Bool) → Endpoint
  copy_size : (sources : List Text) → Endpoint
  archive_ticket : (paths : List Text) → (format : Text) → Endpoint
  search_for : (path term : Text) → (hidden : Option Bool) → (limit : ℕ) → Endpoint
  share_get share_remove token_remove : (id : Text) → Endpoint
  public_share : (secret : Text) → (password : Option Text) → (path : Text) → Endpoint

abbrev pub optional_flag : Option Bool → Member
optional_flag none = missing
optional_flag (some b) = flag b

abbrev pub optional_text : Option Text → Member
optional_text none = missing
optional_text (some t) = text t

abbrev pub text_plain : Text
text_plain = codes "text/plain; charset=utf-8"

abbrev pub reading : RequestOptions
reading = record plain { headers = (accept, codes "text/plain") ∷ []; wants_text = true }

abbrev pub file_headers : (file_type : Text) → (overwrite : Bool) → Headers
file_headers file_type overwrite =
    (content_type, if is_empty file_type then codes "application/octet-stream" else file_type)
    ∷ (if overwrite then [] else (if_none_match, codes "*") ∷ [])

-- A public share is asked for with its password where one is given.
abbrev pub public_options : Encoders → Option Text → RequestOptions
public_options encoders none = quiet plain
public_options encoders (some []) = quiet plain
public_options encoders (some (c ∷ password)) =
    quiet (sending post (object (encoders.json ((codes "password", text (c ∷ password)) ∷ []))))

module _ (encoders : Encoders) where
  abbrev pub at_path : Text → Text → RequestOptions → Call
  at_path address path options = record (at address options) {
    search = query encoders ((codes "path", text path) ∷ []);
  }

  abbrev pub json : List (Text × Member) → RequestBody
  json members = object (encoders.json members)

  abbrev pub transfer : Text → Text → Text → Bool → Call
  transfer address source destination overwrite = at address (
      sending post (
        json (
          (codes "source", text source)
          ∷ (codes "destination", text destination)
          ∷ (codes "overwrite", flag overwrite)
          ∷ [])))

  unfoldable pub call : Endpoint → Call
  unfolding query
  call health = record { pathname = codes "/health"; search = []; options = quiet plain }
  call session_get = at (codes "/session") (quiet plain)
  call (login password) =
      at (codes "/session") (quiet (sending post (json ((codes "password", text password) ∷ []))))
  call logout = at (codes "/session") (sending delete no_body)
  call (change_password current next) = at (codes "/owner/password") (
      sending put (
        json (
          (codes "currentPassword", optional_text current)
          ∷ (codes "newPassword", text next)
          ∷ [])))
  call settings_get = at (codes "/settings") plain
  call (update_settings input) = at (codes "/settings") (sending put (json input))
  call (list path hidden) = record (at (codes "/files") plain) {
    search =
        query encoders ((codes "path", text path) ∷ (codes "hidden", optional_flag hidden) ∷ []);
  }
  call (create_directory path) =
      at (codes "/files/directory") (sending post (json ((codes "path", text path) ∷ [])))
  call (create_text path) =
      at_path (codes "/files/content") path (record (sending put (as_it_is [])) {
        headers = (content_type, text_plain) ∷ (if_none_match, codes "*") ∷ [];
      })
  call (save_text path content) =
      at_path (codes "/files/content") path (record (sending put (as_it_is content)) {
        headers = (content_type, text_plain) ∷ [];
        timeout_ms = some 0;
      })
  call (upload path file_type content overwrite) =
      at_path (codes "/files/content") path (record (sending put (as_it_is content)) {
        headers = file_headers file_type overwrite;
        timeout_ms = some 0;
      })
  call (remove path recursive) = record (at (codes "/files") (sending delete no_body)) {
    search = query encoders ((codes "path", text path) ∷ (codes "recursive", flag recursive) ∷ []);
  }
  call (move source destination overwrite) =
      transfer (codes "/files/move") source destination overwrite
  call (copy source destination overwrite) =
      transfer (codes "/files/copy") source destination overwrite
  call (copy_size sources) =
      at (codes "/files/copy-size") (sending post (json ((codes "sources", texts sources) ∷ [])))
  call (read_text path) = at_path (codes "/files/content") path reading
  call (read_preview_text path) = at_path (codes "/files/preview") path reading
  call (checksum path) = at_path (codes "/files/checksum") path plain
  call (archive_ticket paths format) =
      at (codes "/files/archive-tickets")
        (sending post (json ((codes "paths", texts paths) ∷ (codes "format", text format) ∷ [])))
  call usage = at (codes "/usage") plain
  call (search_for path term hidden limit) =
      record (at (codes "/search") (record plain { timeout_ms = some 120_000 })) {
        search = query encoders (
            (codes "path", text path)
            ∷ (codes "q", text term)
            ∷ (codes "hidden", optional_flag hidden)
            ∷ (codes "limit", number limit)
            ∷ []);
      }
  call shares_list = at (codes "/shares") plain
  call (create_share input) = at (codes "/shares") (sending post (json input))
  call (share_get id) = at (codes "/shares/" ++ encoders.part id) plain
  call (share_remove id) = at (codes "/shares/" ++ encoders.part id) (sending delete no_body)
  call (public_share secret password path) =
      at_path (codes "/public/shares/" ++ encoders.part secret) path
        (public_options encoders password)
  call tokens_list = at (codes "/tokens") plain
  call (create_token input) = at (codes "/tokens") (sending post (json input))
  call (token_remove id) = at (codes "/tokens/" ++ encoders.part id) (sending delete no_body)

-- What `logout` does behind its request: a token is dropped when the server has agreed.
unfoldable pub logged_out : Client × Outcome → Client
logged_out (c, resolved result) = record c { csrf_token = [] }
logged_out (c, rejected e) = c
