-- ===== src/Base/Texts.antt =====
-- Text as the list of its UTF-16 code units, the way JavaScript's strings index it, with the string
-- functions of the language that the program calls.
use Prim.Native.Char.{code}
use Prim.Native.Nat.{ℕ}
use Prim.Native.String.{String}
use mathlib.Core.Path.{◌≡◌, refl}
use mathlib.Core.Logic.{inl, inr, ◌↔◌}
use mathlib.Core.Bool.{Bool, true, false, ◌&&◌, ◌||◌}
use mathlib.Core.List.{List, [], ◌∷◌, ◌++◌}
use native.Mathlib.Omega.{arith}
use zen_fm.Base.Tests.{Bool-cases, ◌==◌, if◌then◌else◌}

abbrev pub Text : Type 0
Text = List ℕ

-- The code units of a literal in the Basic Multilingual Plane.
abbrev pub codes : String → Text
codes String.[] = []
codes (String.◌∷◌ c s) = code c ∷ codes s

-- `===` on strings.
unfoldable pub text_eq : Text → Text → Bool
text_eq [] [] = true
text_eq [] (d ∷ t) = false
text_eq (c ∷ s) [] = false
text_eq (c ∷ s) (d ∷ t) = (c == d) && text_eq s t

pub text_eq_iff : (s t : Text) → (text_eq s t ≡ true) ↔ (s ≡ t)
unfolding text_eq
text_eq_iff [] [] = (λ h. refl, λ h. refl)
text_eq_iff [] (d ∷ t) = ground arith
text_eq_iff (c ∷ s) [] = ground arith
text_eq_iff (c ∷ s) (d ∷ t) = ground (arith, text_eq_iff s t)

pub text_eq_refl : (s : Text) → text_eq s s ≡ true
text_eq_refl s = (text_eq_iff s s).1 refl

-- `s.startsWith(p)`.
unfoldable pub starts_with : Text → Text → Bool
starts_with s [] = true
starts_with [] (d ∷ p) = false
starts_with (c ∷ s) (d ∷ p) = (c == d) && starts_with s p

pub starts_with-append : (p s : Text) → starts_with (p ++ s) p ≡ true
unfolding starts_with
starts_with-append [] s = elim s as (λ s. starts_with s [] ≡ true) [ [] ↦ refl | x ∷ r ↦ refl ]
starts_with-append (c ∷ p) s = ground (arith, starts_with-append p s)

-- A text with a given prefix is the prefix and a rest.
pub starts_with-split : (s p : Text) → starts_with s p ≡ true → (r : Text) × (s ≡ p ++ r)
unfolding starts_with
starts_with-split s [] h = (s, refl)
starts_with-split [] (d ∷ p) h = absurd (cc)
starts_with-split (c ∷ s) (d ∷ p) h =
    let (r, e) = starts_with-split s p (ground arith) in (r, ground (arith, e))

-- `s.includes(c)` for one code unit.
unfoldable pub contains : ℕ → Text → Bool
contains c [] = false
contains c (d ∷ s) = (d == c) || contains c s

-- A code unit put before the first of some parts.
abbrev pub glue : ℕ → List Text → List Text
glue c [] = (c ∷ []) ∷ []
glue c (w ∷ ws) = (c ∷ w) ∷ ws

-- `s.split(c)` for one code unit: never empty.
unfoldable pub split_on : ℕ → Text → List Text
split_on sep [] = [] ∷ []
split_on sep (c ∷ s) = let parts = split_on sep s in if c == sep then [] ∷ parts else glue c parts

-- `parts.join(c)`.
unfoldable pub join_with : ℕ → List Text → Text
join_with sep [] = []
join_with sep (w ∷ []) = w
join_with sep (w ∷ v ∷ ws) = w ++ sep ∷ join_with sep (v ∷ ws)

pub glue-cons :
    (c : ℕ) (parts : List Text) → (w : Text) × (ws : List Text) × (glue c parts ≡ w ∷ ws)
glue-cons c [] = (c ∷ [], [], refl)
glue-cons c (w ∷ ws) = (c ∷ w, ws, refl)

pub split_on-cons : (sep : ℕ) (s : Text) → (w : Text) × (ws : List Text) × (split_on sep s ≡ w ∷ ws)
unfolding split_on
split_on-cons sep [] = ([], [], refl)
split_on-cons sep (c ∷ s) = elim (Bool-cases (c == sep)) [
  | inl e ↦ ([], split_on sep s, rw e)
  | inr e ↦ rw e (glue-cons c (split_on sep s))
]
