-- ===== src/Auth.antt =====
-- frontend/src/auth/AuthProvider.tsx: the session that the pages see, as a machine over what the
-- server, the page's visibility and the timers deliver.
pub mod Sessions
pub mod Deadlines
pub mod Routes
use zen_fm.Base.{
  ℕ, ◌-◌, Bool, true, false, not, ◌&&◌, ◌||◌, List, [], ◌∷◌, ◌++◌, Option, none, some, leb, ltb,
  ◌==◌, if◌then◌else◌, Text, codes, min, is_some,
}
use zen_fm.Client.{Failure, api_error, abort_reason, thrown}

pub data AuthStatus : Type 0 where
  checking anonymous authenticated : AuthStatus

-- Dates are milliseconds; `none` is a date that is missing or cannot be read.
pub record Session : Type 0 where
  pub authenticated : Bool
  pub setup_required : Bool
  pub startup_directory : Text
  pub idle_expires_at : Option ℕ
  pub absolute_expires_at : Option ℕ

pub record AuthState : Type 0 where
  pub status : AuthStatus
  pub session : Option Session
  pub validation_error : Option Failure

pub data Answer : Type 0 where
  answered : Session → Answer
  failed : Failure → Answer

abbrev pub initial : AuthState
initial = record { status = AuthStatus.checking; session = none; validation_error = none }

unfoldable pub become_anonymous : AuthState → AuthState
become_anonymous a = record {
  status = AuthStatus.anonymous;
  session = none;
  validation_error = none;
}

abbrev pub is_unauthorized : Failure → Bool
is_unauthorized (api_error status problem) = status == 401
is_unauthorized other = false

abbrev pub enter : Session → AuthState
enter s = record { status = AuthStatus.authenticated; session = some s; validation_error = none }

unfoldable pub refresh : Answer → AuthState → AuthState
unfolding become_anonymous
refresh (answered next) a = if next.authenticated then enter next else become_anonymous a
refresh (failed e) a =
    if is_unauthorized e then become_anonymous a else record a { validation_error = some e }

-- A login that fails throws to its page and changes nothing here.
unfoldable pub login : Answer → AuthState → AuthState
login (answered next) a = record {
  status = if next.authenticated then AuthStatus.authenticated else AuthStatus.anonymous;
  session = some next;
  validation_error = none;
}
login (failed e) a = a

-- The session ends here whether or not the server could be told.
unfoldable pub logout : Option Failure → AuthState → AuthState
unfolding become_anonymous
logout result a = become_anonymous a

unfoldable pub complete_setup : Answer → AuthState → AuthState
complete_setup (answered next) a =
    enter (record next { authenticated = true; setup_required = false })
complete_setup (failed e) a = a

abbrev pub is_authenticated : AuthStatus → Bool
is_authenticated AuthStatus.authenticated = true
is_authenticated other = false

-- `visibilitychange`: the session is validated when the page comes into view.
unfoldable pub validate_on_resume : (visible : Bool) → Answer → AuthState → AuthState
unfolding refresh
validate_on_resume visible answer a =
    if visible && is_authenticated a.status then refresh answer a else a

pub data Event : Type 0 where
  refreshed logged_in setup_completed : Answer → Event
  logged_out : Option Failure → Event
  unauthorized absolute_deadline : Event
  visibility_changed : (visible : Bool) → Answer → Event
  idle_deadline : Answer → Event

unfoldable pub step : Event → AuthState → AuthState
unfolding refresh login logout complete_setup validate_on_resume become_anonymous
step (refreshed answer) a = refresh answer a
step (logged_in answer) a = login answer a
step (setup_completed answer) a = complete_setup answer a
step (logged_out result) a = logout result a
step unauthorized a = become_anonymous a
step absolute_deadline a = become_anonymous a
step (visibility_changed visible answer) a = validate_on_resume visible answer a
step (idle_deadline answer) a = refresh answer a

unfoldable pub run : List Event → AuthState → AuthState
run [] a = a
run (e ∷ es) a = run es (step e a)

-- The timers of the effect on the session: the absolute deadline ends the session, and the idle
-- deadline validates it, unless the absolute one comes first.
pub record Plan : Type 0 where
  pub absolute : Option ℕ
  pub idle : Option ℕ

abbrev lt_deadline : Option ℕ → Option ℕ → Bool
lt_deadline (some a) (some b) = ltb a b
lt_deadline _ _ = false

unfoldable pub plan : AuthState → Plan
plan a =
    let idle_plan = λ (s : Session).
      if not (is_some s.absolute_expires_at) || lt_deadline s.idle_expires_at s.absolute_expires_at
      then s.idle_expires_at
      else none in
    let no_plan : Plan = record { absolute = none; idle = none } in
    if is_authenticated a.status
    then elim a.session [
      | none ↦ no_plan
      | some s ↦ record { absolute = s.absolute_expires_at; idle = idle_plan s }
    ]
    else no_plan

-- The longest delay that the browser's timer takes.
abbrev pub max_delay : ℕ
max_delay = 2_147_483_647

-- One `tick` of a schedule: `none` calls back, `some delay` sets the timer again.
unfoldable pub tick : (deadline now : ℕ) → Option ℕ
tick deadline now = if leb deadline now then none else some (min (deadline - now) max_delay)
