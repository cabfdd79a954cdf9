-- ===== src/Navigation/Safety.antt =====
-- After a login the browser stays on the application's private pages.
use zen_fm.Base.{
  ◌≡◌, refl, subst, sym, ◌⊎◌, inl, inr, [], ◌∷◌, ◌++◌, some, Option-cases, arith, Text, codes,
  text_eq, text_eq_iff, starts_with-split, split_on-cons, ◌≢◌, Bool-cases, map, split_on, join_with,
}
use zen_fm.Paths.{files_route, or_else, root, slash}
use zen_fm.Navigation.{
  LocationState, object, no_object, Unknown, string, other, private_location,
  current_private_location, return_to, post_authentication_location, Location,
}

-- A private page: the files, with a folder path or a query behind, the shares, or the settings.
abbrev pub IsPrivatePage : Text → Type 0
IsPrivatePage t =
    (t ≡ codes "/files")
    ⊎ ((r : Text) × (t ≡ codes "/files/" ++ r))
    ⊎ ((r : Text) × (t ≡ codes "/files?" ++ r))
    ⊎ (t ≡ codes "/shares")
    ⊎ (t ≡ codes "/settings")

private_location-IsPrivatePage :
    (value : Unknown) (location : Text)
    → private_location value ≡ some location
    → IsPrivatePage location
unfolding private_location
private_location-IsPrivatePage other location h = absurd (cc)
private_location-IsPrivatePage (string value) location h = ground (
  arith,
  text_eq_iff value (codes "/files"),
  text_eq_iff value (codes "/shares"),
  text_eq_iff value (codes "/settings"),
  starts_with-split value (codes "/files/"),
  starts_with-split value (codes "/files?"),
)

private_location-string :
    (value location : Text) → private_location (string value) ≡ some location → location ≡ value
unfolding private_location
private_location-string value location h = ground arith

return_to-IsPrivatePage :
    (state : LocationState) (location : Text)
    → return_to state ≡ some location
    → IsPrivatePage location
unfolding return_to
return_to-IsPrivatePage no_object location h = absurd (cc)
return_to-IsPrivatePage (object value) location h = private_location-IsPrivatePage value location h

-- An absolute path, or the empty text of an answer that names no start directory.
abbrev pub IsAbsolute : Text → Type 0
IsAbsolute [] = Unit {0}
IsAbsolute (c ∷ s) = c ≡ slash

module _ (encode : Text → Text) (encode_nil : encode [] ≡ []) where
  join-split_slash :
      (s : Text)
      → (r : Text) × (join_with slash (map encode (split_on slash (slash ∷ s))) ≡ slash ∷ r)
  unfolding join_with split_on
  join-split_slash s =
      let (w, ws, e) = split_on-cons slash s in
      (join_with slash (map encode (w ∷ ws)), rw (e, encode_nil) refl)

  files_route-IsPrivatePage :
      (path : Text) → path ≢ [] → IsAbsolute path → IsPrivatePage (files_route encode path)
  unfolding files_route
  files_route-IsPrivatePage [] h a = absurd (h refl)
  files_route-IsPrivatePage (c ∷ s) h a = elim (Bool-cases (text_eq (c ∷ s) root)) [
    | inl e ↦ rw e (inl refl)
    | inr e ↦
        let (r, f) = join-split_slash s in
        let g : join_with slash (map encode (split_on slash (c ∷ s))) ≡ slash ∷ r = rw a f in
        rw (e, g) (inr (inl (r, refl)))
  ]

  -- Whatever the history state holds, the browser goes to a private page of this application, when
  -- the start directory is absolute or missing and the escaping function keeps the empty text.
  pub post_authentication_location-IsPrivatePage :
      (state : LocationState) (startup_directory : Text)
      → IsAbsolute startup_directory
      → IsPrivatePage (post_authentication_location encode state startup_directory)
  unfolding post_authentication_location
  post_authentication_location-IsPrivatePage state startup_directory a =
      elim (Option-cases (return_to state)) [
        | inl e ↦ rw (e, post_authentication_location) (fallback startup_directory a)
        | inr (location, e) ↦
            rw (e, post_authentication_location) (return_to-IsPrivatePage state location e)
      ]
    where
      fallback : (d : Text) → IsAbsolute d → IsPrivatePage (files_route encode (or_else d root))
      fallback [] h = files_route-IsPrivatePage root (λ e. cc) refl
      fallback (c ∷ s) h = files_route-IsPrivatePage (c ∷ s) (λ e. cc) h

-- The private page that the browser left for the login is the page that it comes back to.
pub post_authentication_location-current :
    (encode : Text → Text) (location : Location) (startup_directory page : Text)
    → current_private_location location ≡ some page
    → (page ≡ location.pathname ++ location.search ++ location.hash)
      × (post_authentication_location encode (object (string page)) startup_directory ≡ page)
unfolding current_private_location post_authentication_location return_to
post_authentication_location-current encode location startup_directory page h =
    let same : page ≡ location.pathname ++ location.search ++ location.hash =
      private_location-string _ page h in
    let kept : private_location (string page) ≡ some page =
      subst (λ v. private_location (string v) ≡ some page) (sym same) h in
    (same, rw (kept, post_authentication_location, return_to) refl)
