-- ===== src/Navigation.antt =====
-- frontend/src/auth/navigation.ts: where the browser goes after a login. Values from the history
-- state are of any shape; the model keeps what the code distinguishes, a string or something else.
pub mod Safety
use zen_fm.Base.{
  ℕ, Bool, true, false, ◌||◌, List, [], ◌∷◌, ◌++◌, Option, none, some, if◌then◌else◌, Text, codes,
  text_eq, starts_with,
}
use zen_fm.Paths.{files_route, or_else, root}

-- `unknown`, as `typeof` tells it apart here.
pub data Unknown : Type 0 where
  string : Text → Unknown
  other : Unknown

-- `state`: no object, or an object with its `returnTo`.
pub data LocationState : Type 0 where
  no_object : LocationState
  object : Unknown → LocationState

abbrev pub is_private : Text → Bool
is_private value =
    text_eq value (codes "/files")
    || starts_with value (codes "/files/")
    || starts_with value (codes "/files?")

unfoldable pub private_location : Unknown → Option Text
private_location other = none
private_location (string value) =
    if is_private value
    then some value
    else if text_eq value (codes "/shares") || text_eq value (codes "/settings")
    then some value
    else none

pub record Location : Type 0 where
  pub pathname : Text
  pub search : Text
  pub hash : Text

unfoldable pub current_private_location : Location → Option Text
unfolding private_location
current_private_location location =
    private_location (string (location.pathname ++ location.search ++ location.hash))

unfoldable pub return_to : LocationState → Option Text
unfolding private_location
return_to no_object = none
return_to (object value) = private_location value

-- `startupDirectory` is left out of an answer as the empty text, which `||` reads alike.
unfoldable pub post_authentication_location :
    (encode_uri_component : Text → Text) → LocationState → Text → Text
unfolding return_to
post_authentication_location encode state startup_directory = elim (return_to state) [
  | some location ↦ location
  | none ↦ files_route encode (or_else startup_directory root)
]
