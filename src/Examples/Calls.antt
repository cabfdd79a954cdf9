-- ===== src/Examples/Calls.antt =====
-- Calls of the mock server, at concrete inputs.
use zen_fm.Base.{
  is_some, ℕ, ◌≡◌, ◌≤◌, refl, false, [], ◌∷◌, ◌++◌, List, Option, none, some, Text, codes, arith,
  if◌then◌else◌, text_eq,
}
use zen_fm.Client.Request.{Method}
use zen_fm.Client.Request as Requests
use zen_fm.Mock.Files
use zen_fm.Mock.Files.{MockFile}
use zen_fm.Mock.Server
use zen_fm.Mock.Server.{
  Server, Body, Request, Platform, Share, LabelsInput, no_labels, problem, json, empty, content,
  signs_in, session,
}
use zen_fm.Mock.Server.Handler.{handle}
use zen_fm.Client.{Client}
use zen_fm.Client.Endpoints
use zen_fm.Client.Endpoints.{Encoders}
use zen_fm.Mock.Server.Guards.{handle-passes}

abbrev platform : Platform
platform = record {
  decode = λ t. some t;
  lower = λ t. t;
  decimal = λ n. n ∷ [];
  sha256 = λ t. t;
  by_name = λ es. es;
}

abbrev folder : MockFile
folder = record { kind = Files.FileKind.directory; content = []; mime_type = [] }

abbrev server : Server
server = record {
  files = (codes "/", folder) ∷ [];
  owner_password = codes "koreader";
  shares = [];
  tokens = [];
  unlocked_shares = [];
  settings = record {
    startup_directory = codes "/Books";
    favorites = [];
    favorite_labels = [];
    show_hidden = false;
    auto_overwrite_uploads = false;
    client_timeout_seconds = 30;
  };
  next_id = 2;
}

abbrev body : Body
body = record {
  password = some (codes "new-one");
  current_password = some (codes "koreader");
  new_password = some (codes "new-one");
  path = none;
  source = none;
  destination = none;
  sources = [];
  name = none;
  expires_in_seconds = 0;
  startup_directory = none;
  favorites = none;
  favorite_labels = no_labels;
  show_hidden = none;
  auto_overwrite_uploads = none;
  client_timeout_seconds = none;
}

-- A write with the session's cookie and no CSRF token.
abbrev writing : Request
writing = record {
  path = codes "/api/v1/files/content";
  method = Requests.put;
  cookie = some (codes "a=b; zenfm_mock_session=demo");
  csrf = none;
  if_none_match = none;
  content_type = codes "text/plain";
  path_param = some (codes "/n");
  hidden = false;
  recursive = false;
  term = [];
  limit = 0;
  json = none;
  content = 7 ∷ 8 ∷ [];
  time = 0;
  random = codes "r";
}

handle-passes_example :
    (handle platform server writing).0
    ≡ record server { unlocked_shares = (handle platform server writing).0.unlocked_shares }
unfolding Server.authenticated zen_fm.Base.split_on text_eq Server.trim_end Server.trim_start
    zen_fm.Client.CopyStream.is_space
handle-passes_example = handle-passes platform server writing refl

abbrev encoders : Encoders
encoders = record { form = λ t. t; part = λ t. t; decimal = λ n. n ∷ []; json = λ ms. [] }

abbrev client : Client
client = record {
  csrf_token = Server.csrf_token;
  client_timeout_ms = 0;
  unauthorized_listeners = [];
  notified = [];
}
