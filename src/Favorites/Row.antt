-- ===== src/Favorites/Row.antt =====
-- The row of favorites fits, and leaves none out.
use zen_fm.Base.{
  ℕ, zero, suc, ◌+◌, ◌-◌, ◌*◌, ◌/◌, ◌≤◌, ◌≡◌, ◌⊎◌, refl, ap, inl, inr, Bool-cases, leb, min, List,
  [], ◌∷◌, ◌++◌, take, drop, length, Text, arith,
}
use zen_fm.Favorites.{favorite_width, gap, overflow_width, capacity, visible_count, shown, overflow}

-- The pixels of the row: the favorites shown with a gap behind each but the last, and the button for the
-- others behind a last gap, if there are others.
abbrev pub row_width : (shown overflow : List Text) → ℕ
row_width shown [] = length shown * (favorite_width + gap) - gap
row_width shown (path ∷ paths) = length shown * (favorite_width + gap) + overflow_width

take-drop : (n : ℕ) (xs : List Text) → take n xs ++ drop n xs ≡ xs
take-drop zero xs = refl
take-drop (suc n) [] = refl
take-drop (suc n) (x ∷ xs) = ap (◌∷◌ x) (take-drop n xs)

length-take : (n : ℕ) (xs : List Text) → length (take n xs) ≡ min n (length xs)
length-take zero xs = omega arith
length-take (suc n) [] = omega arith
length-take (suc n) (x ∷ xs) = omega (arith, length-take n xs)

length-drop : (n : ℕ) (xs : List Text) → length (drop n xs) ≡ length xs - n
length-drop zero xs = omega arith
length-drop (suc n) [] = omega arith
length-drop (suc n) (x ∷ xs) = omega (arith, length-drop n xs)

-- The count fits: without the button when all are shown, and with it otherwise.
visible_count-fits :
    (favorites : List Text) (width : ℕ)
    → overflow_width ≤ width
    → (visible_count favorites width ≤ 5)
      × (((visible_count favorites width ≡ length favorites)
            × (visible_count favorites width * (favorite_width + gap) ≤ width + gap))
          ⊎ (visible_count favorites width * (favorite_width + gap) + overflow_width ≤ width))
unfolding visible_count capacity
visible_count-fits favorites width h =
    elim (Bool-cases (leb (length favorites) (min 5 ((width + gap) / (favorite_width + gap))))) [
      | inl e ↦ rw e (ground arith, inl (refl, ground arith))
      | inr e ↦ rw e (omega arith, inr (omega arith))
    ]

row_width-all :
    (all over : List Text) (width : ℕ)
    → length over ≡ 0
    → length all * (favorite_width + gap) ≤ width + gap
    → row_width all over ≤ width
row_width-all all [] width e h = omega arith
row_width-all all (path ∷ over) width e h = absurd (omega arith)

row_width-button :
    (some_shown over : List Text) (width : ℕ)
    → length some_shown * (favorite_width + gap) + overflow_width ≤ width
    → row_width some_shown over ≤ width
row_width-button some_shown [] width h = omega arith
row_width-button some_shown (path ∷ over) width h = h

-- In a row that is at least as wide as the button for the others: what is shown and what the button
-- holds are the favorites in their order, at most five are shown, and the row is no wider than its place.
pub row_fits :
    (favorites : List Text) (width : ℕ)
    → overflow_width ≤ width
    → (shown favorites width ++ overflow favorites width ≡ favorites)
      × (length (shown favorites width) ≤ 5)
      × (row_width (shown favorites width) (overflow favorites width) ≤ width)
unfolding shown overflow
row_fits favorites width h =
    let n = visible_count favorites width in
    let (five, fits) = visible_count-fits favorites width h in
    let t = length-take n favorites in
    let d = length-drop n favorites in
    (
      take-drop n favorites,
      omega (arith, t, five),
      elim fits [
        | inl (all, room) ↦
            row_width-all (take n favorites) (drop n favorites) width (omega (arith, d, all))
              (omega (arith, t, all, room))
        | inr room ↦
            row_width-button (take n favorites) (drop n favorites) width (omega (arith, t, room))
      ],
    )
