-- ===== src/Uploads/Folders/Levels.antt =====
-- Folders are made level by level.
use zen_fm.Base.{
  ℕ, zero, suc, ◌≤◌, ◌≡◌, refl, sym, inl, inr, true, Bool-cases, List, [], ◌∷◌, ◌++◌, take, drop,
  length, length-take_le, All, All-append, All-map, Text, arith, ◌==◌, ==_iff, any,
}
use zen_fm.Browser.Sorting.{Sign, difference, sort_by, fits}
use zen_fm.Browser.Sorting.Order.{IsOrder, Any, difference-IsOrder, on-IsOrder}
use zen_fm.Browser.Sorting.Stable.{IsSorted, Fits, sort_by-IsSorted_all, All-insert}
use zen_fm.Uploads.Folders.{
  depth, add_at, by_depth_from, slices, all_slices, sorted_levels, groups, Reply, is_failed,
  send_groups, make_folders, upload_concurrency,
}

-- The folders of a group stand at one depth, and there are no more of them than may be sent at once; no
-- later group has one of a smaller depth.
abbrev pub AtDepth : ℕ → List Text → Type 0
AtDepth d = All (λ directory. depth directory ≡ d)

abbrev pub NotAbove : ℕ → List (List Text) → Type 0
NotAbove d = All (All (λ directory. d ≤ depth directory))

abbrev pub IsLevelled : List (List Text) → Type 0
IsLevelled [] = Unit
IsLevelled (group ∷ later) =
    ((d : ℕ) × AtDepth d group × NotAbove d later)
    × (length group ≤ upload_concurrency)
    × IsLevelled later

abbrev Filed : List (ℕ × List Text) → Type 0
Filed = All (λ level. AtDepth level.0 level.1)

add_at-Filed :
    (directory : Text) (levels : List (ℕ × List Text))
    → Filed levels
    → Filed (add_at (depth directory) directory levels)
add_at-Filed directory [] f = ((refl, tt), tt)
add_at-Filed directory ((other, siblings) ∷ levels) f =
    elim (Bool-cases (other == depth directory)) [
      | inl e ↦ rw e (
        All-append (λ x. depth x ≡ other) siblings (directory ∷ []) f.0
            (sym ((==_iff other (depth directory)).0 e), tt),
        f.1,
      )
      | inr e ↦ rw e (f.0, add_at-Filed directory levels f.1)
    ]

by_depth_from-Filed :
    (directories : List Text) (levels : List (ℕ × List Text))
    → Filed levels
    → Filed (by_depth_from directories levels)
unfolding by_depth_from
by_depth_from-Filed [] levels f = f
by_depth_from-Filed (directory ∷ directories) levels f =
    by_depth_from-Filed directories (add_at (depth directory) directory levels)
      (add_at-Filed directory levels f)

abbrev compare_levels : ℕ × List Text → ℕ × List Text → Sign
compare_levels l r = difference l.0 r.0

compare_levels-IsOrder : IsOrder (ℕ × List Text) Any compare_levels
compare_levels-IsOrder = on-IsOrder (λ l. l.0) Any difference difference-IsOrder

sort_by-Filed :
    (levels : List (ℕ × List Text)) → Filed levels → Filed (sort_by compare_levels levels)
sort_by-Filed [] f = tt
sort_by-Filed (level ∷ levels) f =
    All-insert compare_levels (λ level. AtDepth level.0 level.1) level
      (sort_by compare_levels levels) f.0 (sort_by-Filed levels f.1)

module _ {ℓ κ} {A : Type ℓ} (P : A → Type κ) where
  All-take : (n : ℕ) (xs : List A) → All P xs → All P (take n xs)
  All-take zero xs h = tt
  All-take (suc n) [] h = tt
  All-take (suc n) (x ∷ xs) h = (h.0, All-take n xs h.1)

  All-drop : (n : ℕ) (xs : List A) → All P xs → All P (drop n xs)
  All-drop zero xs h = h
  All-drop (suc n) [] h = tt
  All-drop (suc n) (x ∷ xs) h = All-drop n xs h.1

slices-All :
    (P : Text → Type 0) (fuel : ℕ) (xs : List Text) → All P xs → All (All P) (slices fuel xs)
unfolding slices
slices-All P fuel [] h = tt
slices-All P zero (x ∷ xs) h = tt
slices-All P (suc fuel) (x ∷ xs) h = (
  All-take P upload_concurrency (x ∷ xs) h,
  slices-All P fuel (drop upload_concurrency (x ∷ xs)) (All-drop P upload_concurrency (x ∷ xs) h),
)

all_slices-NotAbove :
    (d : ℕ) (levels : List (ℕ × List Text))
    → Filed levels
    → All (λ level. d ≤ level.0) levels
    → NotAbove d (all_slices levels)
unfolding all_slices
all_slices-NotAbove d [] f h = tt
all_slices-NotAbove d ((level, directories) ∷ levels) f h =
    All-append (All (λ directory. d ≤ depth directory)) (slices (length directories) directories)
      (all_slices levels)
      (slices-All (λ directory. d ≤ depth directory) (length directories) directories
        (All-map (λ x. depth x ≡ level) (λ x. d ≤ depth x) directories
          (λ x e. omega (arith, e, h.0)) f.0))
      (all_slices-NotAbove d levels f.1 h.1)

slices-IsLevelled :
    (d fuel : ℕ) (xs : List Text) (later : List (List Text))
    → AtDepth d xs
    → NotAbove d later
    → IsLevelled later
    → IsLevelled (slices fuel xs ++ later)
unfolding slices
slices-IsLevelled d fuel [] later h n l = l
slices-IsLevelled d zero (x ∷ xs) later h n l = l
slices-IsLevelled d (suc fuel) (x ∷ xs) later h n l =
    let rest = drop upload_concurrency (x ∷ xs) in
    let below = All-drop (λ y. depth y ≡ d) upload_concurrency (x ∷ xs) h in
    (
      (
        d,
        All-take (λ y. depth y ≡ d) upload_concurrency (x ∷ xs) h,
        All-append (All (λ y. d ≤ depth y)) (slices fuel rest) later
            (slices-All (λ y. d ≤ depth y) fuel rest
              (All-map (λ y. depth y ≡ d) (λ y. d ≤ depth y) rest (λ y e. omega (arith, e)) below))
            n,
      ),
      length-take_le upload_concurrency (x ∷ xs),
      slices-IsLevelled d fuel rest later below n l,
    )

fits-le : (a b : ℕ) → fits (difference a b) ≡ true → a ≤ b
fits-le a b h = ground arith

all_slices-IsLevelled :
    (levels : List (ℕ × List Text))
    → Filed levels
    → IsSorted compare_levels levels
    → IsLevelled (all_slices levels)
unfolding all_slices
all_slices-IsLevelled [] f s = tt
all_slices-IsLevelled ((d, directories) ∷ levels) f s =
    slices-IsLevelled d (length directories) directories (all_slices levels) f.0
      (all_slices-NotAbove d levels f.1 (
        All-map (Fits compare_levels (d, directories)) (λ level. d ≤ level.0) levels
          (λ level h. fits-le d level.0 h) s.0))
      (all_slices-IsLevelled levels f.1 s.1)

send_groups-All :
    (P : List Text → Type 0) (reply : Text → Reply) (gs : List (List Text))
    → All P gs
    → All P (send_groups reply gs)
unfolding send_groups
send_groups-All P reply [] h = tt
send_groups-All P reply (g ∷ gs) h = elim (Bool-cases (any (λ x. is_failed (reply x)) g)) [
  | inl e ↦ rw e (h.0, tt)
  | inr e ↦ rw e (h.0, send_groups-All P reply gs h.1)
]

send_groups-IsLevelled :
    (reply : Text → Reply) (gs : List (List Text))
    → IsLevelled gs
    → IsLevelled (send_groups reply gs)
unfolding send_groups
send_groups-IsLevelled reply [] h = tt
send_groups-IsLevelled reply (g ∷ gs) ((d, a, n), s, l) =
    elim (Bool-cases (any (λ x. is_failed (reply x)) g)) [
      | inl e ↦ rw e ((d, a, tt), s, tt)
      | inr e ↦ rw e (
        (d, a, send_groups-All (All (λ x. d ≤ depth x)) reply gs n),
        s,
        send_groups-IsLevelled reply gs l,
      )
    ]

-- Whatever the server answers, the requests for folders go out in groups of at most four, each group
-- of one depth, and behind a group there is no request for a folder of a smaller depth: a folder is
-- asked for only after the answers for all folders above its depth.
pub make_folders-IsLevelled :
    (reply : Text → Reply) (directories : List Text) → IsLevelled (make_folders reply directories)
unfolding make_folders groups sorted_levels
make_folders-IsLevelled reply directories =
    let levels = by_depth_from directories [] in
    send_groups-IsLevelled reply (all_slices (sort_by compare_levels levels)) (
      all_slices-IsLevelled (sort_by compare_levels levels)
        (sort_by-Filed levels (by_depth_from-Filed directories [] tt))
        (sort_by-IsSorted_all compare_levels compare_levels-IsOrder levels))
