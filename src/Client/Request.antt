-- ===== src/Client/Request.antt =====
-- `request` and `requestBlob` of frontend/src/api/client.ts.
use zen_fm.Base.{
  ℕ, Bool, true, false, not, ◌&&◌, List, [], ◌∷◌, Option, none, some, leb, ltb, ◌==◌, if◌then◌else◌,
  Text, codes, is_some,
}
use zen_fm.Client.{
  Client, Failure, api_error, abort_reason, thrown, ProblemDetails, problem_of, forget_session,
  set_csrf_from,
}

pub data Method : Type 0 where
  get head options post put delete : Method

-- The header names that the client uses; the browser compares them without regard to case.
pub data HeaderName : Type 0 where
  accept content_type content_encoding if_none_match csrf : HeaderName

unfoldable pub name_code : HeaderName → ℕ
name_code accept = 0
name_code content_type = 1
name_code content_encoding = 2
name_code if_none_match = 3
name_code csrf = 4

abbrev pub Headers : Type 0
Headers = List (HeaderName × Text)

abbrev pub get_header : HeaderName → Headers → Option Text
get_header name [] = none
get_header name ((n, v) ∷ hs) = if name_code n == name_code name then some v else get_header name hs

abbrev pub set_header : HeaderName → Text → Headers → Headers
set_header name value [] = (name, value) ∷ []
set_header name value ((n, v) ∷ hs) =
    if name_code n == name_code name then (name, value) ∷ hs else (n, v) ∷ set_header name value hs

-- A body: none, a plain object, or one that the browser sends as it is (text, a blob, a form).
pub data RequestBody : Type 0 where
  no_body : RequestBody
  object : Text → RequestBody
  as_it_is : Text → RequestBody

-- An abort signal of the caller: whether it has fired, and its reason if that is an error.
pub record Signal : Type 0 where
  pub aborted : Bool
  pub reason : Option Text

pub record RequestOptions : Type 0 where
  pub method : Option Method
  pub headers : Headers
  pub body : RequestBody
  pub wants_text : Bool
  pub timeout_ms : Option ℕ
  pub skip_unauthorized_event : Bool

pub record Sent : Type 0 where
  pub method : Method
  pub headers : Headers
  pub body : Option Text
  pub timeout : Option ℕ

abbrev pub is_safe : Method → Bool
is_safe get = true
is_safe head = true
is_safe options = true
is_safe _ = false

abbrev pub is_empty : Text → Bool
is_empty [] = true
is_empty (c ∷ s) = false

abbrev pub method_or_get : Option Method → Method
method_or_get none = get
method_or_get (some m) = m

abbrev pub with_accept : Headers → Headers
with_accept headers =
    if is_some (get_header accept headers)
    then headers
    else set_header accept (codes "application/json") headers

abbrev pub with_csrf : Client → Method → Headers → Headers
with_csrf c method headers =
    if not (is_safe method) && not (is_empty c.csrf_token)
    then set_header csrf c.csrf_token headers
    else headers

abbrev pub with_body : RequestBody → Headers → Headers
with_body (object json) headers = set_header content_type (codes "application/json") headers
with_body _ headers = headers

abbrev pub body_text : RequestBody → Option Text
body_text no_body = none
body_text (object json) = some json
body_text (as_it_is text) = some text

abbrev pub timeout_or : Option ℕ → ℕ → ℕ
timeout_or none client = client
timeout_or (some ms) client = ms

-- What `request` hands to `fetch`. `JSON.stringify` has been applied to a plain object.
unfoldable pub prepare : Client → RequestOptions → Sent
prepare c o =
    let method = method_or_get o.method in
    let timeout = timeout_or o.timeout_ms c.client_timeout_ms in
    record {
      method = method;
      headers = with_body o.body (with_csrf c method (with_accept o.headers));
      body = body_text o.body;
      timeout = if ltb 0 timeout then some timeout else none;
    }

-- What the code reads of a JSON body: its `csrfToken` if that is a string, and the members of a
-- problem document; `content` stands for the rest.
pub record Value : Type 0 where
  pub csrf_token : Option Text
  pub problem : ProblemDetails
  pub content : Text

-- An answer. `json` is `none` where `response.json()` throws.
pub record Response : Type 0 where
  pub status : ℕ
  pub is_json : Bool
  pub csrf_header : Option Text
  pub text : Text
  pub json : Option Value

pub data Fetched : Type 0 where
  answered : Response → Fetched
  aborted : Fetched
  failed : Text → Fetched

pub data Result : Type 0 where
  undefined : Result
  text : Text → Result
  value : Value → Result

pub data Outcome : Type 0 where
  resolved : Result → Outcome
  rejected : Failure → Outcome

abbrev pub response_ok : Response → Bool
response_ok r = leb 200 r.status && ltb r.status 300

abbrev pub syntax_error : Failure
syntax_error = thrown (codes "SyntaxError")

-- The problem document is read before the session is forgotten: a body that is announced as JSON
-- and is none throws first.
abbrev pub reject_answer : Client → Bool → Response → Option ProblemDetails → Client × Outcome
reject_answer c skip r problem = (
  if (r.status == 401) && not skip then forget_session c else c,
  rejected (api_error r.status problem),
)

unfoldable pub refuse : Client → Bool → Response → Client × Outcome
refuse c skip r =
    if r.is_json
    then elim r.json [
      | none ↦ (c, rejected syntax_error)
      | some v ↦ reject_answer c skip r (some v.problem)
    ]
    else reject_answer c skip r none

unfoldable pub accept_answer : Client → Bool → Response → Client × Outcome
accept_answer c wants_text r =
    if r.status == 204
    then (c, resolved undefined)
    else if wants_text
    then (c, resolved (text r.text))
    else if not r.is_json
    then (c, resolved (text r.text))
    else elim r.json [
      | none ↦ (c, rejected syntax_error)
      | some v ↦ (set_csrf_from v.csrf_token r.csrf_header c, resolved (value v))
    ]

abbrev pub abort_failure : Option Signal → Failure
abort_failure none = api_error 408 (some (problem_of (codes "Request timed out") 408))
abort_failure (some s) =
    if s.aborted
    then elim s.reason [
      | some reason ↦ abort_reason reason
      | none ↦ abort_reason (codes "The operation was aborted.")
    ]
    else api_error 408 (some (problem_of (codes "Request timed out") 408))

-- What `request` does with what `fetch` delivers; the signal is read when the abort is caught.
unfoldable pub complete : Client → RequestOptions → Option Signal → Fetched → Client × Outcome
complete c o signal aborted = (c, rejected (abort_failure signal))
complete c o signal (failed e) = (c, rejected (thrown e))
complete c o signal (answered r) =
    if response_ok r then accept_answer c o.wants_text r else refuse c o.skip_unauthorized_event r

-- `requestBlob`: no signal of the caller, no skipping, and the body is not read as JSON.
unfoldable pub complete_blob : Client → Fetched → Client × Outcome
complete_blob c aborted = (c, rejected (abort_failure none))
complete_blob c (failed e) = (c, rejected (thrown e))
complete_blob c (answered r) =
    if response_ok r then (c, resolved (text r.text)) else refuse c false r
