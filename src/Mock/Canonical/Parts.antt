-- ===== src/Mock/Canonical/Parts.antt =====
-- Parts of a path, and how splitting and joining treat them.
use zen_fm.Base.{
  ℕ, ◌≡◌, refl, ap, ◌∙◌, ◌⊎◌, inl, inr, Bool, true, false, not, ◌&&◌, List, [], ◌∷◌, ◌++◌, ◌==◌,
  Text, text_eq, contains, split_on, join_with, All, arith, Bool-cases, glue, if_both, if_of_true,
  if_of_false,
}
use zen_fm.Paths.{slash, root}
use zen_fm.Mock.FilePaths.{dot, dots}

-- A part of a canonical path.
abbrev pub is_name : Text → Bool
is_name w =
    not (text_eq w [])
    && not (text_eq w dot)
    && not (text_eq w dots)
    && not (contains slash w)
    && not (contains 0 w)

abbrev pub IsName : Text → Type 0
IsName w = is_name w ≡ true

abbrev pub IsCanonical : Text → Type 0
IsCanonical t =
    (t ≡ root)
    ⊎ ((p : Text) × (ps : List Text) × All IsName (p ∷ ps) × (t ≡ slash ∷ join_with slash (p ∷ ps)))

abbrev pub Lacks : ℕ → Text → Type 0
Lacks c w = contains c w ≡ false

pub Lacks-glue :
    (c d : ℕ) (ws : List Text) → (d == c) ≡ false → All (Lacks c) ws → All (Lacks c) (glue d ws)
unfolding contains
Lacks-glue c d [] e h = (ground arith, tt)
Lacks-glue c d (w ∷ ws) e h = (ground (arith, h.0), h.1)

-- No part holds the separator, nor what the text does not hold.
pub split_on-Lacks_self : (c : ℕ) (s : Text) → All (Lacks c) (split_on c s)
unfolding contains split_on
split_on-Lacks_self c [] = (refl, tt)
split_on-Lacks_self c (d ∷ s) = elim (Bool-cases (d == c)) [
  | inl e ↦ if_of_true (All (Lacks c)) (d == c) _ _ e (refl, split_on-Lacks_self c s)
  | inr e ↦
      if_of_false (All (Lacks c)) (d == c) _ _ e
        (Lacks-glue c d (split_on c s) e (split_on-Lacks_self c s))
]

pub split_on-Lacks : (sep c : ℕ) (s : Text) → Lacks c s → All (Lacks c) (split_on sep s)
unfolding contains split_on
split_on-Lacks sep c [] h = (refl, tt)
split_on-Lacks sep c (d ∷ s) h =
    let tail : Lacks c s = ground arith in
    let head : (d == c) ≡ false = ground arith in
    if_both (All (Lacks c)) (d == sep) (refl, split_on-Lacks sep c s tail)
      (Lacks-glue c d (split_on sep s) head (split_on-Lacks sep c s tail))

pub split_on_one : (w : Text) → Lacks slash w → split_on slash w ≡ w ∷ []
unfolding contains split_on
split_on_one [] h = refl
split_on_one (d ∷ w) h = ground (arith, split_on_one w)

pub split_on-append :
    (w r : Text) → Lacks slash w → split_on slash (w ++ slash ∷ r) ≡ w ∷ split_on slash r
unfolding contains split_on
split_on-append [] r h = refl
split_on-append (d ∷ w) r h = ground (arith, split_on-append w r)

pub split_on-join_with :
    (p : Text) (ps : List Text)
    → All IsName (p ∷ ps)
    → split_on slash (join_with slash (p ∷ ps)) ≡ p ∷ ps
unfolding join_with
split_on-join_with p [] h = split_on_one p (ground (arith, h.0))
split_on-join_with p (q ∷ ps) h =
    split_on-append p (join_with slash (q ∷ ps)) (ground (arith, h.0))
    ∙ ap (◌∷◌ p) (split_on-join_with q ps h.1)
