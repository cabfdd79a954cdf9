-- ===== src/Mock/Server.antt =====
-- The state of the mock server of frontend/dev/mockApi.ts, its requests and its replies. Dates are
-- numbers of milliseconds; the time, a fresh secret and what the platform computes are arguments.
pub mod Account
pub mod Tree
pub mod Sharing
pub mod Handler
pub mod Guards
pub mod Promises
use zen_fm.Base.{
  ℕ, suc, ◌+◌, Bool, true, false, not, ◌&&◌, ◌||◌, List, [], ◌∷◌, ◌++◌, Option, none, some, leb,
  if◌then◌else◌, Text, codes, text_eq, starts_with, split_on, any, length,
}
use zen_fm.Client.CopyStream.{is_space}
use zen_fm.Client.Request.{Method, get, head, options, post, put, delete}
use zen_fm.Mock.FilePaths.{normalize_path, basename, is_hidden}
use zen_fm.Mock.Files.{MockFile, FileMap, FileKind, size_of}

pub record Share : Type 0 where
  pub id : Text
  pub secret : Text
  pub path : Text
  pub name : Text
  pub password : Text
  pub expires_at : Option ℕ

pub record Token : Type 0 where
  pub id : Text
  pub name : Text
  pub expires_at : ℕ

-- The members of the settings that the server works with; the others are kept as they are sent.
pub record Settings : Type 0 where
  pub startup_directory : Text
  pub favorites : List Text
  pub favorite_labels : List (Text × Text)
  pub show_hidden : Bool
  pub auto_overwrite_uploads : Bool
  pub client_timeout_seconds : ℕ

pub record Server : Type 0 where
  pub files : FileMap
  pub owner_password : Text
  pub shares : List Share
  pub tokens : List Token
  pub unlocked_shares : List Text
  pub settings : Settings
  pub next_id : ℕ

-- The favorite labels of an input: missing or null, no object, or an object with its members, of which
-- one that is no text is `none`.
pub data LabelsInput : Type 0 where
  no_labels : LabelsInput
  no_object : LabelsInput
  labels : List (Text × Option Text) → LabelsInput

-- What the server reads of a JSON body. A member that is missing is `none`.
pub record Body : Type 0 where
  pub password : Option Text
  pub current_password : Option Text
  pub new_password : Option Text
  pub path : Option Text
  pub source : Option Text
  pub destination : Option Text
  pub sources : List Text
  pub name : Option Text
  pub expires_in_seconds : ℕ
  pub startup_directory : Option Text
  pub favorites : Option (List Text)
  pub favorite_labels : LabelsInput
  pub show_hidden : Option Bool
  pub auto_overwrite_uploads : Option Bool
  pub client_timeout_seconds : Option ℕ

-- A request. `json` is `none` where the body is no JSON or over the limit; `limit` is 0 where it is missing or no
-- number, and `time` and `random` are what the clock and `randomBytes` give.
pub record Request : Type 0 where
  pub path : Text
  pub method : Method
  pub cookie : Option Text
  pub csrf : Option Text
  pub if_none_match : Option Text
  pub content_type : Text
  pub path_param : Option Text
  pub hidden : Bool
  pub recursive : Bool
  pub term : Text
  pub limit : ℕ
  pub json : Option Body
  pub content : List ℕ
  pub time : ℕ
  pub random : Text

pub record Entry : Type 0 where
  pub name : Text
  pub path : Text
  pub kind : FileKind
  pub size : ℕ
  pub mime_type : Text
  pub hidden : Bool

-- What is sent of a share; `secret` is part of its address, where that is sent.
pub record ShareView : Type 0 where
  pub id : Text
  pub secret : Option Text
  pub path : Text
  pub name : Text
  pub expires_at : Option ℕ
  pub password_protected : Bool

abbrev pub view_of : (addressed : Bool) → Share → ShareView
view_of addressed sh = record {
  id = sh.id;
  secret = if addressed then some sh.secret else none;
  path = sh.path;
  name = sh.name;
  expires_at = sh.expires_at;
  password_protected = not (text_eq sh.password []);
}

pub data Payload : Type 0 where
  session : (startup_directory : Text) → Payload
  settings : Settings → List (Text × Option FileKind) → Payload
  usage : ℕ → Payload
  listing : Text → List Entry → Payload
  sizes : List (Text × ℕ) → ℕ → Payload
  checksum : Text → Payload
  found : List Entry → (truncated : Bool) → Payload
  shares : List ShareView → Payload
  share : ShareView → Payload
  locked : (name path : Text) → Payload
  shared_file : (name path : Text) → Entry → Payload
  shared_directory : (name path : Text) → List Entry → Payload
  tokens : List Token → Payload
  token : Token → (secret : Text) → Payload

-- `signs_in` and `signs_out` carry the session's cookie; `passed` leaves the request to the next
-- handler.
pub data Reply : Type 0 where
  problem : (status : ℕ) → (detail : Text) → Reply
  json : (status : ℕ) → Payload → Reply
  empty : (status : ℕ) → Reply
  content : (mime_type : Text) → List ℕ → Reply
  signs_in : Payload → Reply
  signs_out : Reply
  passed : Reply

-- What the platform computes.
pub record Platform : Type 0 where
  pub decode : Text → Option Text
  pub lower : Text → Text
  pub decimal : ℕ → Text
  pub sha256 : List ℕ → Text
  pub by_name : List Entry → List Entry

-- The methods that need no CSRF token.
abbrev pub needs_no_token : Method → Bool
needs_no_token get = true
needs_no_token head = true
needs_no_token options = true
needs_no_token post = false
needs_no_token put = false
needs_no_token delete = false

abbrev pub is_get : Method → Bool
is_get get = true
is_get other = false

abbrev pub is_post : Method → Bool
is_post post = true
is_post other = false

abbrev pub is_put : Method → Bool
is_put put = true
is_put other = false

abbrev pub is_delete : Method → Bool
is_delete delete = true
is_delete other = false

unfoldable pub trim_start : Text → Text
trim_start [] = []
trim_start (c ∷ s) = let rest = trim_start s in if is_space c then rest else c ∷ s

unfoldable pub trim_end : Text → Text
trim_end [] = []
trim_end (c ∷ s) = let rest = trim_end s in if is_space c && text_eq rest [] then [] else c ∷ rest

abbrev pub trim : Text → Text
trim s = trim_end (trim_start s)

abbrev pub session_cookie : Text
session_cookie = codes "zenfm_mock_session=demo"

abbrev pub csrf_token : Text
csrf_token = codes "zenfm-mock-csrf-token-0000000000"

unfoldable pub authenticated : Request → Bool
authenticated r = elim r.cookie [
  | none ↦ false
  | some cookie ↦ any (λ part. text_eq (trim part) session_cookie) (split_on 0x3b cookie)
]

unfoldable pub entry : Text → MockFile → Entry
entry path value = record {
  name = basename path;
  path = path;
  kind = value.kind;
  size = size_of value;
  mime_type = value.mime_type;
  hidden = is_hidden path;
}

abbrev pub text_or_empty : Option Text → Text
text_or_empty none = []
text_or_empty (some t) = t

-- A missing value ends the call with a reply, and leaves the server as it is at that point.
abbrev pub or_reply {ℓ} :
    {A : Type ℓ} → Server → Reply → Option A → (A → Server × Reply) → Server × Reply
or_reply s reply none go = (s, reply)
or_reply s reply (some x) go = go x

-- An exception is answered with 400.
abbrev pub with_path : Server → Option Text → (Text → Server × Reply) → Server × Reply
with_path s value go =
    or_reply s (problem 400 (codes "Invalid path.")) (normalize_path (text_or_empty value)) go

abbrev pub with_body : Server → Request → (Body → Server × Reply) → Server × Reply
with_body s r go = or_reply s (problem 400 (codes "Invalid JSON body.")) r.json go

pub or_reply-both {ℓ κ} :
    {A : Type ℓ} (P : Server × Reply → Type κ) (s : Server) (reply : Reply) (o : Option A)
    (go : A → Server × Reply)
    → P (s, reply)
    → ((x : A) → P (go x))
    → P (or_reply s reply o go)
or_reply-both P s reply none go h k = h
or_reply-both P s reply (some x) go h k = k x
