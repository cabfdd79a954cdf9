-- ===== src/Auth/Sessions.antt =====
-- What the pages can rely on, over any course of events.
use zen_fm.Base.{◌≡◌, refl, Bool, true, false, List, [], ◌∷◌, Option, none, some, arith, not, ◌&&◌}
use zen_fm.Client.{Failure}
use zen_fm.Auth.{
  AuthStatus, AuthState, Session, answered, failed, initial, is_unauthorized, refresh, Event,
  refreshed, logged_in, setup_completed, logged_out, unauthorized, absolute_deadline,
  visibility_changed, idle_deadline, step, run, is_authenticated,
}

abbrev pub holds_session : Option Session → Bool
holds_session none = false
holds_session (some s) = s.authenticated

-- The pages are signed in only with a session that the server has authenticated.
abbrev pub IsBacked : AuthState → Type 0
IsBacked a = (is_authenticated a.status && holds_session a.session) ≡ is_authenticated a.status

step-IsBacked : (e : Event) (a : AuthState) → IsBacked a → IsBacked (step e a)
unfolding step
step-IsBacked (refreshed (answered s)) a h = ground arith
step-IsBacked (refreshed (failed e)) a h = ground arith
step-IsBacked (logged_in (answered s)) a h = ground arith
step-IsBacked (logged_in (failed e)) a h = h
step-IsBacked (setup_completed (answered s)) a h = refl
step-IsBacked (setup_completed (failed e)) a h = h
step-IsBacked (logged_out result) a h = refl
step-IsBacked unauthorized a h = refl
step-IsBacked absolute_deadline a h = refl
step-IsBacked (visibility_changed visible (answered s)) a h = ground arith
step-IsBacked (visibility_changed visible (failed e)) a h = ground arith
step-IsBacked (idle_deadline (answered s)) a h = ground arith
step-IsBacked (idle_deadline (failed e)) a h = ground arith

run-IsBacked : (es : List Event) (a : AuthState) → IsBacked a → IsBacked (run es a)
unfolding run
run-IsBacked [] a h = h
run-IsBacked (e ∷ es) a h = run-IsBacked es (step e a) (step-IsBacked e a h)

-- After any course of events, a page that is signed in has a session that the server, or the end of
-- the setup, has authenticated.
pub run-initial-IsBacked : (es : List Event) → IsBacked (run es initial)
run-initial-IsBacked es = run-IsBacked es initial refl

-- An event that ends the session: a logout, an answer 401 to a validation, the client's event for
-- such an answer, the absolute deadline, and an answer that says the session is not authenticated.
abbrev pub is_end : Event → Bool
is_end (logged_out result) = true
is_end unauthorized = true
is_end absolute_deadline = true
is_end (refreshed (failed e)) = is_unauthorized e
is_end (refreshed (answered s)) = not s.authenticated
is_end (idle_deadline (failed e)) = is_unauthorized e
is_end (idle_deadline (answered s)) = not s.authenticated
is_end other = false

-- Each of these events leaves nothing of the session behind.
pub step_ends :
    (e : Event) (a : AuthState)
    → is_end e ≡ true
    → step e a ≡ record { status = AuthStatus.anonymous; session = none; validation_error = none }
unfolding step
step_ends (logged_out result) a h = refl
step_ends unauthorized a h = refl
step_ends absolute_deadline a h = refl
step_ends (refreshed (failed e)) a h = rw h refl
step_ends (idle_deadline (failed e)) a h = rw h refl
step_ends (refreshed (answered s)) a h = ground arith
step_ends (idle_deadline (answered s)) a h = ground arith
step_ends (logged_in answer) a h = absurd (cc)
step_ends (setup_completed answer) a h = absurd (cc)
step_ends (visibility_changed visible answer) a h = absurd (cc)

-- A validation that fails for any other reason than a 401 signs nobody out: the status and the
-- session stay, and the failure is shown.
pub refresh_failed :
    (e : Failure) (a : AuthState)
    → is_unauthorized e ≡ false
    → refresh (failed e) a ≡ record a { validation_error = some e }
unfolding refresh
refresh_failed e a h = rw h refl
