-- ===== src/Uploads/Folders/Complete.antt =====
-- Every folder of a batch is asked for, and no other.
use zen_fm.Base.{
  ℕ, zero, suc, ◌≤◌, ◌≡◌, refl, ap, ◌∙◌, inl, inr, Bool, true, false, ◌||◌, Bool-cases, List, [],
  ◌∷◌, ◌++◌, take, drop, length, All, Text, text_eq, arith, ◌==◌, any,
}
use zen_fm.Entries.{has_text}
use zen_fm.Browser.Sorting.{Sign, difference, sort_by, insert, fits}
use zen_fm.Uploads.Folders.{
  depth, add_at, by_depth_from, slices, all_slices, sorted_levels, groups, Reply, is_failed,
  send_groups, make_folders, upload_concurrency,
}

abbrev pub is_requested : Text → List (List Text) → Bool
is_requested x gs = any (λ g. has_text g x) gs

abbrev is_filed : Text → List (ℕ × List Text) → Bool
is_filed x levels = any (λ level. has_text level.1 x) levels

has_text-append :
    (x : Text) (ys zs : List Text) → has_text (ys ++ zs) x ≡ (has_text ys x || has_text zs x)
has_text-append x [] zs = refl
has_text-append x (y ∷ ys) zs = ground (arith, has_text-append x ys zs)

is_filed-add_at :
    (x directory : Text) (d : ℕ) (levels : List (ℕ × List Text))
    → is_filed x (add_at d directory levels) ≡ (text_eq directory x || is_filed x levels)
is_filed-add_at x directory d [] = ground arith
is_filed-add_at x directory d ((other, siblings) ∷ levels) = elim (Bool-cases (other == d)) [
  | inl e ↦ rw e (ground (arith, has_text-append x siblings (directory ∷ [])))
  | inr e ↦ rw e (ground (arith, is_filed-add_at x directory d levels))
]

is_filed-by_depth_from :
    (x : Text) (directories : List Text) (levels : List (ℕ × List Text))
    → is_filed x (by_depth_from directories levels) ≡ (has_text directories x || is_filed x levels)
unfolding by_depth_from
is_filed-by_depth_from x [] levels = refl
is_filed-by_depth_from x (y ∷ ys) levels = ground (
  arith,
  is_filed-by_depth_from x ys (add_at (depth y) y levels),
  is_filed-add_at x y (depth y) levels,
)

module _ (compare : ℕ × List Text → ℕ × List Text → Sign) where
  is_filed-insert :
      (x : Text) (level : ℕ × List Text) (levels : List (ℕ × List Text))
      → is_filed x (insert compare level levels) ≡ (has_text level.1 x || is_filed x levels)
  is_filed-insert x level [] = refl
  is_filed-insert x level (other ∷ levels) = elim (Bool-cases (fits (compare level other))) [
    | inl e ↦ rw e refl
    | inr e ↦ rw e (ground (arith, is_filed-insert x level levels))
  ]

  is_filed-sort_by :
      (x : Text) (levels : List (ℕ × List Text))
      → is_filed x (sort_by compare levels) ≡ is_filed x levels
  is_filed-sort_by x [] = refl
  is_filed-sort_by x (level ∷ levels) =
      ground (arith, is_filed-insert x level (sort_by compare levels), is_filed-sort_by x levels)

has_text-take :
    (x : Text) (n : ℕ) (xs : List Text)
    → (has_text (take n xs) x || has_text (drop n xs) x) ≡ has_text xs x
has_text-take x zero xs = refl
has_text-take x (suc n) [] = refl
has_text-take x (suc n) (y ∷ ys) = ground (arith, has_text-take x n ys)

length-drop_le : (n : ℕ) (xs : List Text) → length (drop n xs) ≤ length xs
length-drop_le zero xs = omega arith
length-drop_le (suc n) [] = omega arith
length-drop_le (suc n) (x ∷ xs) = omega (arith, length-drop_le n xs)

is_requested-slices :
    (x : Text) (fuel : ℕ) (xs : List Text)
    → length xs ≤ fuel
    → is_requested x (slices fuel xs) ≡ has_text xs x
unfolding slices
is_requested-slices x fuel [] h = refl
is_requested-slices x zero (y ∷ ys) h = absurd (omega arith)
is_requested-slices x (suc fuel) (y ∷ ys) h =
    let rest = drop upload_concurrency (y ∷ ys) in
    ap (λ b. has_text (take upload_concurrency (y ∷ ys)) x || b)
      (is_requested-slices x fuel rest (omega (arith, length-drop_le 3 ys)))
    ∙ has_text-take x upload_concurrency (y ∷ ys)

is_requested-append :
    (x : Text) (gs hs : List (List Text))
    → is_requested x (gs ++ hs) ≡ (is_requested x gs || is_requested x hs)
is_requested-append x [] hs = refl
is_requested-append x (g ∷ gs) hs = ground (arith, is_requested-append x gs hs)

is_requested-all_slices :
    (x : Text) (levels : List (ℕ × List Text))
    → is_requested x (all_slices levels) ≡ is_filed x levels
unfolding all_slices
is_requested-all_slices x [] = refl
is_requested-all_slices x ((d, xs) ∷ levels) = ground (
  arith,
  is_requested-append x (slices (length xs) xs) (all_slices levels),
  is_requested-slices x (length xs) xs (omega arith),
  is_requested-all_slices x levels,
)

send_groups_complete :
    (reply : Text → Reply) (gs : List (List Text))
    → All (λ g. any (λ y. is_failed (reply y)) g ≡ false) gs
    → send_groups reply gs ≡ gs
unfolding send_groups
send_groups_complete reply [] h = refl
send_groups_complete reply (g ∷ gs) h = rw h.0 (ap (◌∷◌ g) (send_groups_complete reply gs h.1))

never_failed :
    (reply : Text → Reply)
    → ((y : Text) → is_failed (reply y) ≡ false)
    → (g : List Text) → any (λ y. is_failed (reply y)) g ≡ false
never_failed reply h [] = refl
never_failed reply h (y ∷ ys) = rw (h y, never_failed reply h ys) refl

never_failed-All :
    (reply : Text → Reply)
    → ((y : Text) → is_failed (reply y) ≡ false)
    → (gs : List (List Text)) → All (λ g. any (λ y. is_failed (reply y)) g ≡ false) gs
never_failed-All reply h [] = tt
never_failed-All reply h (g ∷ gs) = (never_failed reply h g, never_failed-All reply h gs)

or_false : (b : Bool) → (b || false) ≡ b
or_false true = refl
or_false false = refl

-- When each folder is made or exists already, the loop asks for exactly the folders of the batch.
pub make_folders_complete :
    (reply : Text → Reply) (directories : List Text) (directory : Text)
    → ((y : Text) → is_failed (reply y) ≡ false)
    → is_requested directory (make_folders reply directories) ≡ has_text directories directory
unfolding make_folders groups sorted_levels
make_folders_complete reply directories directory h =
    let levels = by_depth_from directories [] in
    let sorted = sort_by (λ l r. difference l.0 r.0) levels in
    ap (is_requested directory) (
      send_groups_complete reply (all_slices sorted) (never_failed-All reply h (all_slices sorted)))
    ∙ is_requested-all_slices directory sorted
    ∙ is_filed-sort_by (λ l r. difference l.0 r.0) directory levels
    ∙ is_filed-by_depth_from directory directories []
    ∙ or_false (has_text directories directory)
