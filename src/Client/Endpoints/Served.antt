-- ===== src/Client/Endpoints/Served.antt =====
-- The calls of the client against the routes of the mock server of frontend/dev/mockApi.ts.
use zen_fm.Base.{◌≡◌, refl, Bool, true, false, text_eq, is_some}
use zen_fm.Client.{Client}
use zen_fm.Client.Request.{method_or_get, get_header, csrf, prepare}
use zen_fm.Client.Endpoints
use zen_fm.Client.Endpoints.{Encoders, Endpoint, Call, call}
use zen_fm.Mock.Server.{Server, Request, Platform}
use zen_fm.Mock.Server.Handler.{route, account_routes, file_routes, upload_routes, sharing_routes}

-- The request that reaches the server for a call; `rest` has what the call does not determine.
abbrev pub arriving : Encoders → Endpoint → Request → Request
arriving encoders e rest = record rest {
  path = (call encoders e).pathname;
  method = method_or_get (call encoders e).options.method;
}

-- The calls behind the session whose path is fixed; the mock server has no health check.
abbrev pub is_fixed : Endpoint → Bool
is_fixed Endpoints.health = false
is_fixed (Endpoints.login password) = false
is_fixed (Endpoints.share_get id) = false
is_fixed (Endpoints.share_remove id) = false
is_fixed (Endpoints.token_remove id) = false
is_fixed (Endpoints.public_share secret password path) = false
is_fixed _ = true

-- Each call of the client with a fixed path, the login and the health check aside, is one of the mock
-- server's routes.
pub call-route :
    (encoders : Encoders) (platform : Platform) (s : Server) (rest : Request) (e : Endpoint)
    → is_fixed e ≡ true
    → is_some (route platform s (arriving encoders e rest)) ≡ true
unfolding call route account_routes file_routes upload_routes sharing_routes text_eq
call-route encoders platform s rest Endpoints.health h = absurd (cc)
call-route encoders platform s rest (Endpoints.login password) h = absurd (cc)
call-route encoders platform s rest (Endpoints.share_get id) h = absurd (cc)
call-route encoders platform s rest (Endpoints.share_remove id) h = absurd (cc)
call-route encoders platform s rest (Endpoints.token_remove id) h = absurd (cc)
call-route encoders platform s rest (Endpoints.public_share secret password path) h = absurd (cc)
call-route encoders platform s rest _ h = refl

-- The request as the client prepares it.
abbrev pub sent_by : Client → Encoders → Endpoint → Request → Request
sent_by c encoders e rest = record (arriving encoders e rest) {
  csrf = get_header csrf (prepare c (call encoders e).options).headers;
}
