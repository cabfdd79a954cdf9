-- ===== src/Client/Csrf.antt =====
-- The CSRF token and the session over the calls of frontend/src/api/client.ts.
use zen_fm.Base.{
  ◌≤◌, ◌<◌, ◌≡◌, refl, ◌≢◌, inl, inr, true, false, not, ◌&&◌, [], ◌∷◌, Option, none, some, ◌==◌,
  if◌then◌else◌, Text, is_some, arith, Bool-cases, ==_refl, ◌∙◌,
}
use zen_fm.Client.{Client, api_error, ProblemDetails, forget_session, set_csrf_from}
use zen_fm.Client.Request.{
  HeaderName, accept, content_type, csrf, name_code, Headers, get_header, set_header, is_safe,
  method_or_get, is_empty, RequestBody, no_body, object, as_it_is, RequestOptions, with_accept,
  with_body, prepare, Response, Fetched, answered, aborted, failed, resolved, rejected, Signal,
  complete, refuse, accept_answer, Result,
}

get_header-set_header :
    (name other : HeaderName) (v : Text) (hs : Headers)
    → get_header other (set_header name v hs)
      ≡ (if name_code name == name_code other then some v else get_header other hs)
get_header-set_header name other v [] = refl
get_header-set_header name other v ((n, w) ∷ hs) =
    ground (arith, get_header-set_header name other v hs)

get_header-set_header_csrf :
    (v : Text) (hs : Headers) → get_header csrf (set_header csrf v hs) ≡ some v
get_header-set_header_csrf v hs =
    rw (get_header-set_header csrf csrf v hs, ==_refl (name_code csrf)) refl

get_header-set_header_accept :
    (v : Text) (hs : Headers) → get_header csrf (set_header accept v hs) ≡ get_header csrf hs
unfolding name_code
get_header-set_header_accept v hs = get_header-set_header accept csrf v hs

get_header-set_header_content :
    (v : Text) (hs : Headers) → get_header csrf (set_header content_type v hs) ≡ get_header csrf hs
unfolding name_code
get_header-set_header_content v hs = get_header-set_header content_type csrf v hs

get_header-with_accept : (hs : Headers) → get_header csrf (with_accept hs) ≡ get_header csrf hs
get_header-with_accept hs = elim (Bool-cases (is_some (get_header accept hs))) [
  | inl e ↦ rw e refl
  | inr e ↦ rw e (get_header-set_header_accept _ hs)
]

get_header-with_body :
    (body : RequestBody) (hs : Headers) → get_header csrf (with_body body hs) ≡ get_header csrf hs
get_header-with_body no_body hs = refl
get_header-with_body (object json) hs = get_header-set_header_content _ hs
get_header-with_body (as_it_is text) hs = refl

-- A request carries the session's CSRF token exactly when its method may change something and there
-- is a token, where the caller sets no such header by hand.
pub prepare-csrf :
    (c : Client) (o : RequestOptions)
    → get_header csrf o.headers ≡ none
    → get_header csrf (prepare c o).headers ≡ (
        if not (is_safe (method_or_get o.method)) && not (is_empty c.csrf_token)
        then some c.csrf_token
        else none)
unfolding prepare
prepare-csrf c o h =
    let hs = with_accept o.headers in
    let guarded = not (is_safe (method_or_get o.method)) && not (is_empty c.csrf_token) in
    elim (Bool-cases guarded) [
      | inl e ↦ rw (get_header-with_body o.body _, e) (get_header-set_header_csrf c.csrf_token hs)
      | inr e ↦ rw (get_header-with_body o.body _, e) (get_header-with_accept o.headers ∙ h)
    ]

-- An answer that ends the session on the client: a 401, where the call does not opt out.
abbrev pub EndsSession : RequestOptions → Fetched → Type 0
EndsSession o (answered r) = (r.status ≡ 401) × (o.skip_unauthorized_event ≡ false)
EndsSession o other = ⊥

-- Only an answer 401 ends the session on the client: with any other answer, a failure or an abort,
-- and where the call opts out, a token that is there is kept or renewed, and no listener is told.
pub complete_keeps_session :
    (c : Client) (o : RequestOptions) (signal : Option Signal) (fetched : Fetched)
    → ¬ EndsSession o fetched
    → c.csrf_token ≢ []
    → ((complete c o signal fetched).0.csrf_token ≢ [])
      × ((complete c o signal fetched).0.notified ≡ c.notified)
unfolding complete refuse accept_answer set_csrf_from
complete_keeps_session c o signal aborted h k = (k, refl)
complete_keeps_session c o signal (failed e) h k = (k, refl)
complete_keeps_session c o signal (answered r) h k =
    elim (Bool-cases ((r.status == 401) && not o.skip_unauthorized_event)) [
      | inl e ↦ absurd (h (ground arith, ground arith))
      | inr e ↦ (ground arith, ground arith)
    ]

abbrev pub problem_read : Response → Option ProblemDetails
problem_read r = if r.is_json then elim r.json [ none ↦ none | some v ↦ some v.problem ] else none

-- An answer 401 whose problem document can be read forgets the token, tells every listener once, and
-- rejects the call with the status and the document.
pub complete_unauthorized :
    (c : Client) (o : RequestOptions) (signal : Option Signal) (r : Response)
    → r.status ≡ 401
    → o.skip_unauthorized_event ≡ false
    → (r.is_json ≡ true → r.json ≢ none)
    → complete c o signal (answered r)
      ≡ (forget_session c, rejected (api_error 401 (problem_read r)))
unfolding complete refuse
complete_unauthorized c o signal r s k h = ground arith

-- A call resolves only on an answer with a status from 200 to 299.
pub complete_resolved :
    (c : Client) (o : RequestOptions) (signal : Option Signal) (fetched : Fetched) (x : Result)
    → (complete c o signal fetched).1 ≡ resolved x
    → (r : Response) × (fetched ≡ answered r) × (200 ≤ r.status) × (r.status < 300)
unfolding complete refuse
complete_resolved c o signal aborted x h = absurd (cc)
complete_resolved c o signal (failed e) x h = absurd (cc)
complete_resolved c o signal (answered r) x h = (r, refl, ground arith, ground arith)
