-- ===== src/Browser/Sorting/Arranged.antt =====
-- What the list of the entries shown is, in terms of the entries of the folder.
use mathlib.Core.List.{Perm}
use zen_fm.Base.{
  ℕ, ◌≡◌, refl, sym, ap, ◌∙◌, inl, inr, Bool, true, false, Bool-cases, List, [], ◌∷◌, Text, codes,
  starts_with, All, All-map, select, if◌then◌else◌, ◌==◌, leb, not, ◌&&◌, Option, none, some, arith,
  ◌||◌, if_both,
}
use zen_fm.Entries.{FileEntry, is_directory}
use zen_fm.Browser.Sorting.{
  Sign, fits, sort_by, Preference, entry_compare, shown_entries, is_visible, flag, SortField,
  SortDirection, asc, desc, difference, date_difference, field_compare, folder_compare, directed,
}
use zen_fm.Browser.Sorting.Order.{
  IsOrder, Any, IsDated, field_compare-IsOrder, entry_compare-IsOrder,
}
use zen_fm.Browser.Sorting.Stable.{
  alike, alike-both, Fits, IsSorted, sort_by-Perm, sort_by-IsSorted, sort_by-stable,
}

-- Which entries belong in the list: all, or those without the flag and without a dot in front.
abbrev pub is_shown : (show_hidden : Bool) → (hidden : Option Bool) → (name : Text) → Bool
is_shown true hidden name = true
is_shown false (some true) name = false
is_shown false hidden [] = true
is_shown false hidden (c ∷ name) = not (c == 0x2e)

abbrev pub in_direction {ℓ} : SortDirection → {A : Type ℓ} → (A → A → Bool) → A → A → Bool
in_direction asc before a b = before a b
in_direction desc before a b = before b a

-- Of two dates the first is not later.
abbrev pub not_later : Option ℕ → Option ℕ → Bool
not_later (some a) (some b) = leb a b
not_later _ _ = true

-- Each element may stand in front of all behind it.
abbrev pub IsInOrder {ℓ} : {A : Type ℓ} → (A → A → Bool) → List A → Type 0
IsInOrder before [] = Unit
IsInOrder before (a ∷ rest) = All (λ b. before a b ≡ true) rest × IsInOrder before rest

difference-leb : (a b : ℕ) → fits (difference a b) ≡ leb a b
difference-leb a b = ground arith

date_difference-not_later : (a b : Option ℕ) → fits (date_difference a b) ≡ not_later a b
date_difference-not_later none none = refl
date_difference-not_later none (some b) = refl
date_difference-not_later (some a) none = refl
date_difference-not_later (some a) (some b) = difference-leb a b

is_visible-is_shown :
    (show_hidden : Bool) (e : FileEntry)
    → is_visible show_hidden e ≡ is_shown show_hidden e.hidden e.name
unfolding is_visible starts_with
is_visible-is_shown show_hidden e = go show_hidden e.hidden e.name
  where
    go :
        (show_hidden : Bool) (hidden : Option Bool) (name : Text)
        → (show_hidden || not (flag hidden) && not (starts_with name (codes ".")))
          ≡ is_shown show_hidden hidden name
    go true hidden name = refl
    go false (some true) name = refl
    go false (some false) [] = refl
    go false (some false) (c ∷ name) = ground arith
    go false none [] = refl
    go false none (c ∷ name) = ground arith

select-same {ℓ} :
    {A : Type ℓ} (p q : A → Bool)
    → ((a : A) → p a ≡ q a)
    → (xs : List A) → select p xs ≡ select q xs
select-same p q h [] = refl
select-same p q h (x ∷ xs) = rw (h x, select-same p q h xs) refl

All-select {ℓ} :
    {A : Type ℓ} (P : A → Type 0) (p : A → Bool) (xs : List A) → All P xs → All P (select p xs)
All-select P p [] h = tt
All-select P p (x ∷ xs) h =
    if_both (All P) (p x) (h.0, All-select P p xs h.1) (All-select P p xs h.1)

abbrev is_size : SortField → Bool
is_size SortField.size = true
is_size _ = false

module _ (locale_compare : Text → Text → Sign) (value_of : Text → Option ℕ) where
  abbrev pub by_name : FileEntry → FileEntry → Bool
  by_name a b = fits (locale_compare a.name b.name)

  abbrev pub by_field : SortField → FileEntry → FileEntry → Bool
  by_field SortField.size a b = leb a.size b.size
  by_field SortField.modified a b = not_later (value_of a.modified_at) (value_of b.modified_at)
  by_field _ a b = by_name a b

  -- Whether an entry may stand in front of another: folders in front of all else, folders that are
  -- sorted by size by their names, and otherwise by the field and the direction.
  abbrev pub in_order : SortField → SortDirection → FileEntry → FileEntry → Bool
  in_order sort direction a b =
      if is_directory a.kind && not (is_directory b.kind)
      then true
      else if not (is_directory a.kind) && is_directory b.kind
      then false
      else if is_directory a.kind && is_size sort
      then by_name a b
      else in_direction direction (by_field sort) a b

  abbrev pub is_tied : SortField → SortDirection → FileEntry → FileEntry → Bool
  is_tied sort direction a b = in_order sort direction a b && in_order sort direction b a

  field_compare-by_field :
      (sort : SortField) (a b : FileEntry)
      → fits (field_compare locale_compare value_of sort a b) ≡ by_field sort a b
  field_compare-by_field SortField.name a b = refl
  field_compare-by_field SortField.size a b = ground arith
  field_compare-by_field SortField.created a b = refl
  field_compare-by_field SortField.modified a b =
      date_difference-not_later (value_of a.modified_at) (value_of b.modified_at)

  module _ (texts : IsOrder Text Any locale_compare) where
    directed-in_direction :
        (sort : SortField) (direction : SortDirection) (a b : FileEntry)
        → fits (directed direction (field_compare locale_compare value_of sort a b))
          ≡ in_direction direction (by_field sort) a b
    directed-in_direction sort asc a b = field_compare-by_field sort a b
    directed-in_direction sort desc a b =
        let order = field_compare-IsOrder locale_compare value_of texts sort in
        ap fits (sym (order.turn a b)) ∙ field_compare-by_field sort b a

    folder_compare-in_direction :
        (sort : SortField) (direction : SortDirection) (a b : FileEntry)
        → fits (folder_compare locale_compare value_of sort direction a b)
          ≡ (if is_size sort then by_name a b else in_direction direction (by_field sort) a b)
    folder_compare-in_direction SortField.size direction a b = refl
    folder_compare-in_direction SortField.name direction a b =
        directed-in_direction SortField.name direction a b
    folder_compare-in_direction SortField.created direction a b =
        directed-in_direction SortField.created direction a b
    folder_compare-in_direction SortField.modified direction a b =
        directed-in_direction SortField.modified direction a b

    entry_compare-in_order :
        (sort : SortField) (direction : SortDirection) (a b : FileEntry)
        → fits (entry_compare locale_compare value_of sort direction a b)
          ≡ in_order sort direction a b
    unfolding entry_compare
    entry_compare-in_order sort direction a b =
        let folders = folder_compare-in_direction sort direction a b in
        let others = directed-in_direction sort direction a b in
        elim (Bool-cases (is_directory a.kind)) [
          | inl e ↦ elim (Bool-cases (is_directory b.kind)) [
            | inl k ↦ rw (e, k) folders
            | inr k ↦ rw (e, k) refl
          ]
          | inr e ↦ elim (Bool-cases (is_directory b.kind)) [
            | inl k ↦ rw (e, k) refl
            | inr k ↦ rw (e, k) others
          ]
        ]

    alike-is_tied :
        (sort : SortField) (direction : SortDirection) (a b : FileEntry)
        → alike (entry_compare locale_compare value_of sort direction a b)
          ≡ is_tied sort direction a b
    alike-is_tied sort direction a b =
        let order = entry_compare-IsOrder locale_compare value_of texts sort direction in
        alike-both (entry_compare locale_compare value_of sort direction a b)
        ∙ rw
            (
              sym (order.turn a b),
              entry_compare-in_order sort direction a b,
              entry_compare-in_order sort direction b a,
            )
            refl

    IsSorted-IsInOrder :
        (sort : SortField) (direction : SortDirection) (entries : List FileEntry)
        → IsSorted (entry_compare locale_compare value_of sort direction) entries
        → IsInOrder (in_order sort direction) entries
    IsSorted-IsInOrder sort direction [] s = tt
    IsSorted-IsInOrder sort direction (a ∷ entries) s = (
      All-map (Fits (entry_compare locale_compare value_of sort direction) a)
          (λ b. in_order sort direction a b ≡ true) entries
          (λ b h. sym (entry_compare-in_order sort direction a b) ∙ h) s.0,
      IsSorted-IsInOrder sort direction entries s.1,
    )

    -- For a comparison of the names that is an order, and entries that have a date where they are
    -- sorted by it: the entries shown are those of the folder without the hidden ones, or all when
    -- these are shown, each as often as there; each may stand in front of all behind it, by the
    -- folders, the field and the direction chosen; and those that may stand in either order keep the
    -- order that the server gives.
    pub shown_entries-arranged :
        (preference : Preference) (show_hidden : Bool) (source : List FileEntry) (entry : FileEntry)
        → All (IsDated value_of preference.sort) (entry ∷ source)
        → let shown = shown_entries locale_compare value_of preference show_hidden source in
          let listed = select (λ e. is_shown show_hidden e.hidden e.name) source in
          let tied = is_tied preference.sort preference.direction entry in
          Perm shown listed
          × IsInOrder (in_order preference.sort preference.direction) shown
          × (select tied shown ≡ select tied listed)
    unfolding shown_entries
    shown_entries-arranged preference show_hidden source entry dated =
        let sort = preference.sort in
        let direction = preference.direction in
        let compare = entry_compare locale_compare value_of sort direction in
        let order = entry_compare-IsOrder locale_compare value_of texts sort direction in
        let visible = select (is_visible show_hidden) source in
        let listed : visible ≡ select (λ e. is_shown show_hidden e.hidden e.name) source =
          select-same (is_visible show_hidden) _ (is_visible-is_shown show_hidden) source in
        let known = All-select (IsDated value_of sort) (is_visible show_hidden) source dated.1 in
        let ties = alike-is_tied sort direction entry in
        rw (sym listed) (
          sort_by-Perm compare visible,
          IsSorted-IsInOrder sort direction (sort_by compare visible)
              (sort_by-IsSorted compare (IsDated value_of sort) order visible known),
          sym (select-same _ _ ties (sort_by compare visible))
              ∙ sort_by-stable compare (IsDated value_of sort) order entry visible dated.0
              ∙ select-same _ _ ties visible,
        )
