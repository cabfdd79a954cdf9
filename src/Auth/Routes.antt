-- ===== src/Auth/Routes.antt =====
-- frontend/src/App.tsx, and the forms of frontend/src/pages/LoginPage.tsx and SetupPage.tsx: which
-- pages are offered, and where a login leads. The router is not modelled: the model gives the routes
-- that are handed to it.
use zen_fm.Base.{
  ◌≡◌, refl, inl, inr, Bool, true, false, ◌&&◌, List, [], ◌∷◌, ◌++◌, Option, none, some, Text,
  codes, text_eq, starts_with, leb, length, if◌then◌else◌, any, is_some,
}
use zen_fm.Auth.{AuthStatus, AuthState, Session}
use zen_fm.Navigation.{
  LocationState, object, no_object, string, other, Location, current_private_location,
  post_authentication_location, private_location, return_to,
}
use zen_fm.Navigation.Safety.{IsPrivatePage, IsAbsolute, post_authentication_location-IsPrivatePage}

pub data Page : Type 0 where
  loading reconnect login_page setup_page files_page shares_page settings_page public_share_page :
      Page
  redirect : (to : Text) → (state : LocationState) → Page

-- A route: the pattern of its path, and what it shows. The last one takes every other path.
pub record Route : Type 0 where
  pub pattern : Text
  pub page : Page

abbrev route : Text → Page → Route
route pattern page = record { pattern = pattern; page = page }

abbrev state_of : Option Text → LocationState
state_of none = object other
state_of (some location) = object (string location)

abbrev or_location : Option Text → Text → Text
or_location none fallback = fallback
or_location (some location) fallback = location

abbrev pub public_routes : List Route
public_routes =
    route (codes "/s/:secret/*") public_share_page
    ∷ route (codes "/share/:shareId/*") public_share_page
    ∷ []

abbrev startup_of : Option Session → Text
startup_of none = []
startup_of (some s) = s.startup_directory

abbrev pub needs_setup : Option Session → Bool
needs_setup none = false
needs_setup (some s) = s.setup_required

module _ (encode : Text → Text) where
  abbrev private_routes : LocationState → Text → List Route
  private_routes state startup_directory =
      route (codes "/files/*") files_page
      ∷ route (codes "/shares") shares_page
      ∷ route (codes "/settings") settings_page
      ∷ route (codes "*")
          (redirect (post_authentication_location encode state startup_directory) no_object)
      ∷ []

  abbrev setup_routes : Location → LocationState → Text → List Route
  setup_routes location state startup_directory =
      route (codes "/setup") setup_page
      ∷ route (codes "*") (
          redirect (codes "/setup") (
            object (
              string (
                or_location (current_private_location location)
                  (post_authentication_location encode state startup_directory)))))
      ∷ []

  abbrev login_routes : Location → List Route
  login_routes location =
      route (codes "/login") login_page
      ∷ route (codes "*") (redirect (codes "/login") (state_of (current_private_location location)))
      ∷ []

  abbrev entered_routes : Option Session → Location → LocationState → List Route
  entered_routes session location state =
      if needs_setup session
      then setup_routes location state (startup_of session)
      else private_routes state (startup_of session)

  -- The routes of the application in a state; while the session is checked one screen stands for all
  -- of them, and it offers to try again after a failure.
  unfoldable pub routes : AuthState → Location → LocationState → List Route
  routes a location state = elim a.status [
    | AuthStatus.checking ↦
        route (codes "*") (if is_some a.validation_error then reconnect else loading) ∷ []
    | AuthStatus.anonymous ↦ public_routes ++ login_routes location
    | AuthStatus.authenticated ↦ public_routes ++ entered_routes a.session location state
  ]

-- Where the login form navigates: to the page itself, or to the setup with that page in the state.
pub record Destination : Type 0 where
  pub to : Text
  pub state : LocationState

unfoldable pub after_login : (encode : Text → Text) → Session → LocationState → Destination
after_login encode session state =
    let destination = post_authentication_location encode state session.startup_directory in
    if session.setup_required
    then record { to = codes "/setup"; state = object (string destination) }
    else record { to = destination; state = no_object }

-- Where the setup form navigates.
unfoldable pub after_setup : (encode : Text → Text) → Session → LocationState → Text
after_setup encode session state =
    post_authentication_location encode state session.startup_directory

-- The form's test of a new password, over its code points.
unfoldable pub password_valid : (password confirmation : Text) → Bool
password_valid password confirmation = leb 7 (length password) && text_eq password confirmation

abbrev pub is_files_page : Page → Bool
is_files_page files_page = true
is_files_page _ = false

abbrev pub is_shares_page : Page → Bool
is_shares_page shares_page = true
is_shares_page _ = false

abbrev pub is_settings_page : Page → Bool
is_settings_page settings_page = true
is_settings_page _ = false

-- A route that shows a page under a path.
abbrev pub offers : (Page → Bool) → (pattern : Text) → List Route → Bool
offers is_page pattern rs = any (λ r. is_page r.page && text_eq r.pattern pattern) rs

-- The routes offer the files, the shares and the settings, each under its path, exactly if `offered`.
abbrev pub OffersPrivate : (offered : Bool) → List Route → Type 0
OffersPrivate offered rs =
    (offers is_files_page (codes "/files/*") rs ≡ offered)
    × (offers is_shares_page (codes "/shares") rs ≡ offered)
    × (offers is_settings_page (codes "/settings") rs ≡ offered)

private_location_of_IsPrivatePage :
    (t : Text) → IsPrivatePage t → private_location (string t) ≡ some t
unfolding private_location starts_with text_eq
private_location_of_IsPrivatePage t (inl e) = rw e refl
private_location_of_IsPrivatePage t (inr (inl (r, e))) = rw e refl
private_location_of_IsPrivatePage t (inr (inr (inl (r, e)))) = rw e refl
private_location_of_IsPrivatePage t (inr (inr (inr (inl e)))) = rw e refl
private_location_of_IsPrivatePage t (inr (inr (inr (inr e)))) = rw e refl

post_authentication_location-of_private :
    (encode : Text → Text) (page d : Text)
    → IsPrivatePage page
    → post_authentication_location encode (object (string page)) d ≡ page
unfolding post_authentication_location return_to
post_authentication_location-of_private encode page d private =
    let k = private_location_of_IsPrivatePage page private in
    rw (k, post_authentication_location, return_to) refl

-- A login that has to go through the setup ends on the page that a login without a setup ends on.
pub after_setup-after_login :
    (encode : Text → Text)
    → encode [] ≡ []
    → (session : Session) (state : LocationState) (finished : Session)
    → IsAbsolute session.startup_directory
    → session.setup_required ≡ true
    → after_setup encode finished (after_login encode session state).state
      ≡ (after_login encode (record session { setup_required = false }) state).to
unfolding after_setup after_login
after_setup-after_login encode e session state finished a h =
    let page = post_authentication_location encode state session.startup_directory in
    let private =
      post_authentication_location-IsPrivatePage encode e state session.startup_directory a in
    rw h (post_authentication_location-of_private encode page finished.startup_directory private)
