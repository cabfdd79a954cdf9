-- ===== src/Client.antt =====
-- frontend/src/api/client.ts: the state that the calls of the HTTP client share, and its errors.
-- The browser's `fetch`, `XMLHttpRequest`, timers and abort signals are not modelled: what they
-- deliver (an answer, a failure, an abort) is an argument.
pub mod Request
pub mod Csrf
pub mod CopyStream
pub mod Framing
pub mod Upload
pub mod Resumable
pub mod Endpoints
use zen_fm.Base.{
  ℕ, ◌+◌, ◌*◌, Bool, true, false, not, ◌&&◌, List, [], ◌∷◌, ◌++◌, Option, none, some, leb, ltb,
  ◌==◌, if◌then◌else◌, any, select, Text,
}

-- What the code reads of a problem document; `none` is a missing member.
pub record ProblemDetails : Type 0 where
  pub title : Option Text
  pub detail : Option Text
  pub status : Option ℕ

abbrev pub problem_of : Text → ℕ → ProblemDetails
problem_of title status = record { title = some title; detail = none; status = some status }

-- What a call is rejected with: an `ApiError`, the reason of the caller's abort signal, or whatever
-- the browser threw (a network failure, a body that is no JSON).
pub data Failure : Type 0 where
  api_error : ℕ → Option ProblemDetails → Failure
  abort_reason : Text → Failure
  thrown : Text → Failure

-- `problem?.detail ?? problem?.title ?? …`
unfoldable pub error_message : (request_failed : ℕ → Text) → ℕ → Option ProblemDetails → Text
error_message request_failed status none = request_failed status
error_message request_failed status (some p) = elim p.detail [
  | some detail ↦ detail
  | none ↦ elim p.title [ some title ↦ title | none ↦ request_failed status ]
]

-- The module's variables. A listener is known by a number; `notified` is the sequence of the calls
-- of listeners so far.
pub record Client : Type 0 where
  pub csrf_token : Text
  pub client_timeout_ms : ℕ
  pub unauthorized_listeners : List ℕ
  pub notified : List ℕ

-- `unauthorizedListeners.add` on a set, and the function that it returns.
unfoldable pub on_unauthorized : ℕ → Client → Client
on_unauthorized listener c =
    if any (λ l. l == listener) c.unauthorized_listeners
    then c
    else record c { unauthorized_listeners = c.unauthorized_listeners ++ listener ∷ [] }

unfoldable pub remove_listener : ℕ → Client → Client
remove_listener listener c = record c {
  unauthorized_listeners = select (λ l. not (l == listener)) c.unauthorized_listeners;
}

-- `none` is a number that is not finite; a negative one is 0, which the code treats alike.
unfoldable pub set_client_timeout : Option ℕ → Client → Client
set_client_timeout none c = record c { client_timeout_ms = 0 }
set_client_timeout (some seconds) c = record c {
  client_timeout_ms = if ltb 0 seconds then seconds * 1_000 else 0;
}

-- What the client does on an answer 401.
abbrev pub forget_session : Client → Client
forget_session c = record c { csrf_token = []; notified = c.notified ++ c.unauthorized_listeners }

-- `headerToken ?? bodyToken`, kept unless it is missing or empty.
abbrev pub or_body : Option Text → Option Text → Option Text
or_body none body = body
or_body (some token) body = some token

abbrev pub keep_token : Client → Option Text → Client
keep_token c none = c
keep_token c (some []) = c
keep_token c (some (t ∷ ts)) = record c { csrf_token = t ∷ ts }

unfoldable pub set_csrf_from : (body_token header_token : Option Text) → Client → Client
set_csrf_from body_token header_token c = keep_token c (or_body header_token body_token)

-- `errorStatus`: of an `ApiError` its status; of an upload error the status of its answer.
pub data CaughtError : Type 0 where
  of_client : Failure → CaughtError
  of_upload : (status : Option ℕ) → CaughtError
  unrelated : CaughtError

unfoldable pub error_status : CaughtError → Option ℕ
error_status (of_client (api_error status problem)) = some status
error_status (of_client other) = none
error_status (of_upload status) = status
error_status unrelated = none

abbrev pub has_status : ℕ → Option ℕ → Bool
has_status status none = false
has_status status (some s) = s == status

unfoldable pub is_conflict_error : CaughtError → Bool
unfolding error_status
is_conflict_error e = has_status 409 (error_status e)

unfoldable pub is_not_implemented_error : CaughtError → Bool
unfolding error_status
is_not_implemented_error e = has_status 501 (error_status e)
