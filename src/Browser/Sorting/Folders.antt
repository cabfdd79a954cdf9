-- ===== src/Browser/Sorting/Folders.antt =====
-- The folders stand in front, whatever is chosen.
use zen_fm.Base.{
  apart, ℕ, ◌≡◌, refl, sym, ◌∙◌, ◌⊎◌, inl, inr, Bool, true, false, Bool-cases, List, [], ◌∷◌,
  Option, Text, All, select,
}
use zen_fm.Entries.{FileEntry, is_directory}
use zen_fm.Browser.Sorting.{
  Sign, fits, insert, sort_by, Preference, SortField, SortDirection, entry_compare, shown_entries,
  is_visible,
}
use zen_fm.Browser.Sorting.Stable.{All-insert}

abbrev pub IsFolder : FileEntry → Type 0
IsFolder entry = is_directory entry.kind ≡ true

abbrev pub IsOther : FileEntry → Type 0
IsOther entry = is_directory entry.kind ≡ false

-- Behind an entry that is not a folder there is none.
abbrev pub HasFoldersFirst : List FileEntry → Type 0
HasFoldersFirst [] = Unit
HasFoldersFirst (entry ∷ entries) = (IsFolder entry ⊎ All IsOther entries) × HasFoldersFirst entries

module _ (compare : FileEntry → FileEntry → Sign) where
  here :
      ((x y : FileEntry) → IsOther x → IsFolder y → fits (compare x y) ≡ false)
      → (x y : FileEntry) (ys : List FileEntry) → fits (compare x y) ≡ true
      → HasFoldersFirst (y ∷ ys)
      → IsFolder x ⊎ All IsOther (y ∷ ys)
  here back x y ys e h = elim (Bool-cases (is_directory x.kind)) [
    | inl a ↦ inl a
    | inr a ↦ elim (Bool-cases (is_directory y.kind)) [
      | inl b ↦ absurd (apart (sym e ∙ back x y a b))
      | inr b ↦ elim h.0 [ inl c ↦ absurd (apart (sym c ∙ b)) | inr c ↦ inr (b, c) ]
    ]
  ]

  there :
      ((x y : FileEntry) → IsFolder x → IsOther y → fits (compare x y) ≡ true)
      → (x y : FileEntry) (ys : List FileEntry) → fits (compare x y) ≡ false
      → IsFolder y ⊎ All IsOther ys
      → IsFolder y ⊎ All IsOther (insert compare x ys)
  there front x y ys e (inl b) = inl b
  there front x y ys e (inr c) = elim (Bool-cases (is_directory y.kind)) [
    | inl b ↦ inl b
    | inr b ↦ elim (Bool-cases (is_directory x.kind)) [
      | inl a ↦ absurd (apart (sym (front x y a b) ∙ e))
      | inr a ↦ inr (All-insert compare IsOther x ys a c)
    ]
  ]

  insert-HasFoldersFirst :
      ((x y : FileEntry) → IsFolder x → IsOther y → fits (compare x y) ≡ true)
      → ((x y : FileEntry) → IsOther x → IsFolder y → fits (compare x y) ≡ false)
      → (x : FileEntry) (ys : List FileEntry) → HasFoldersFirst ys
      → HasFoldersFirst (insert compare x ys)
  insert-HasFoldersFirst front back x [] h = (inr tt, tt)
  insert-HasFoldersFirst front back x (y ∷ ys) h = elim (Bool-cases (fits (compare x y))) [
    | inl e ↦ rw e (here back x y ys e h, h)
    | inr e ↦ rw e (there front x y ys e h.0, insert-HasFoldersFirst front back x ys h.1)
  ]

  sort_by-HasFoldersFirst :
      ((x y : FileEntry) → IsFolder x → IsOther y → fits (compare x y) ≡ true)
      → ((x y : FileEntry) → IsOther x → IsFolder y → fits (compare x y) ≡ false)
      → (entries : List FileEntry) → HasFoldersFirst (sort_by compare entries)
  sort_by-HasFoldersFirst front back [] = tt
  sort_by-HasFoldersFirst front back (x ∷ xs) =
      insert-HasFoldersFirst front back x (sort_by compare xs)
        (sort_by-HasFoldersFirst front back xs)

module _ (locale_compare : Text → Text → Sign) (value_of : Text → Option ℕ) where
  entry_compare-front :
      (sort : SortField) (direction : SortDirection) (x y : FileEntry)
      → IsFolder x
      → IsOther y
      → fits (entry_compare locale_compare value_of sort direction x y) ≡ true
  unfolding entry_compare
  entry_compare-front sort direction x y a b = rw (a, b) refl

  entry_compare-back :
      (sort : SortField) (direction : SortDirection) (x y : FileEntry)
      → IsOther x
      → IsFolder y
      → fits (entry_compare locale_compare value_of sort direction x y) ≡ false
  unfolding entry_compare
  entry_compare-back sort direction x y a b = rw (a, b) refl

  -- Whatever the order of the names and the preference are, no folder is shown behind an entry that
  -- is not one.
  pub shown_entries-HasFoldersFirst :
      (preference : Preference) (show_hidden : Bool) (source : List FileEntry)
      → HasFoldersFirst (shown_entries locale_compare value_of preference show_hidden source)
  unfolding shown_entries
  shown_entries-HasFoldersFirst preference show_hidden source =
      sort_by-HasFoldersFirst
        (entry_compare locale_compare value_of preference.sort preference.direction)
        (entry_compare-front preference.sort preference.direction)
        (entry_compare-back preference.sort preference.direction)
        (select (is_visible show_hidden) source)
