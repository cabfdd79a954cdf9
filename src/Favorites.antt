-- ===== src/Favorites.antt =====
-- The row of favorites in frontend/src/components/FavoritesNav.tsx: how many are shown, and where they
-- lead. Widths are whole pixels.
pub mod Row
use zen_fm.Base.{
  ℕ, ◌+◌, ◌-◌, ◌/◌, Bool, true, false, List, [], ◌∷◌, Option, none, some, leb, min, max, take, drop,
  length, not, if◌then◌else◌, Text, text_eq, select, split_on, last?,
}
use zen_fm.Paths.{slash, root, or_else, files_route, file_route}

abbrev pub favorite_width : ℕ
favorite_width = 120

abbrev pub gap : ℕ
gap = 4

abbrev pub overflow_width : ℕ
overflow_width = 44

unfoldable pub capacity : (width : ℕ) → ℕ
capacity width = (width + gap) / (favorite_width + gap)

-- Below the width of the overflow button the difference is negative, and the count 0.
unfoldable pub visible_count : (favorites : List Text) → (width : ℕ) → ℕ
unfolding capacity
visible_count favorites width =
    if leb (length favorites) (min 5 (capacity width))
    then length favorites
    else min 5 (max 0 ((width - overflow_width) / (favorite_width + gap)))

unfoldable pub shown : (favorites : List Text) → (width : ℕ) → List Text
unfolding visible_count
shown favorites width = take (visible_count favorites width) favorites

unfoldable pub overflow : (favorites : List Text) → (width : ℕ) → List Text
unfolding visible_count
overflow favorites width = drop (visible_count favorites width) favorites

-- `favorites.filter((path) => path !== contextMenu.path)`.
unfoldable pub remove : (favorites : List Text) → (path : Text) → List Text
remove favorites path = select (λ other. not (text_eq other path)) favorites
