-- ===== src/Examples/Pages.antt =====
-- The session and the pages, at concrete inputs.
use zen_fm.Base.{◌≡◌, refl, true, false, [], ◌∷◌, ◌++◌, List, Option, none, some, Text, codes}
use zen_fm.Client.{api_error}
use zen_fm.Auth
use zen_fm.Auth.{AuthState, Session, AuthStatus, initial, answered, failed}
use zen_fm.Auth.Sessions.{run-initial-IsBacked, IsBacked}
use zen_fm.Auth.Deadlines.{fires}
use zen_fm.Navigation.{Location, object, string, post_authentication_location}
use zen_fm.Navigation.Safety.{post_authentication_location-IsPrivatePage, IsPrivatePage}

-- Escaping leaves the texts of these examples as they are.
abbrev encode : Text → Text
encode s = s

post_authentication_location-IsPrivatePage_example :
    IsPrivatePage
      (post_authentication_location encode (object (string (codes "//evil"))) (codes "/in"))
post_authentication_location-IsPrivatePage_example =
    post_authentication_location-IsPrivatePage encode refl (object (string (codes "//evil")))
      (codes "/in") refl

evil_is_refused :
    post_authentication_location encode (object (string (codes "//evil"))) (codes "/in")
    ≡ codes "/files/in"
unfolding post_authentication_location zen_fm.Base.text_eq zen_fm.Base.starts_with
    zen_fm.Paths.files_route zen_fm.Base.join_with zen_fm.Base.split_on
evil_is_refused = refl

abbrev place : Location
place = record { pathname = codes "/files/a"; search = codes "?q"; hash = [] }

abbrev session : Session
session = record {
  authenticated = true;
  setup_required = true;
  startup_directory = codes "/in";
  idle_expires_at = some 50;
  absolute_expires_at = some 90;
}

run-initial-IsBacked_example : IsBacked (
    Auth.run
      (Auth.logged_in (answered session) ∷ Auth.idle_deadline (failed (api_error 500 none)) ∷ [])
      initial)
run-initial-IsBacked_example =
    run-initial-IsBacked
      (Auth.logged_in (answered session) ∷ Auth.idle_deadline (failed (api_error 500 none)) ∷ [])

abbrev signed_in : AuthState
signed_in = record {
  status = AuthStatus.authenticated;
  session = some session;
  validation_error = none;
}

fires_after_month : fires (3 ∷ 4 ∷ 5 ∷ []) 2_592_000_000 0 ≡ some 2_592_000_004
unfolding fires Auth.tick
fires_after_month = refl
