-- ===== src/Browser/Sorting/Stable.antt =====
-- The insertion sort of Browser/Sorting: it keeps the elements, sorts them for a comparison that is an
-- order, and is stable.
use mathlib.Core.List.{Perm}
use mathlib.Core.List.Perm
use zen_fm.Base.{
  apart, ◌≡◌, refl, sym, ap, ◌∙◌, inl, inr, Bool, true, false, Bool-cases, List, [], ◌∷◌, All,
  All-map, select, if◌then◌else◌, ◌&&◌,
}
use zen_fm.Browser.Sorting.{Sign, negative, null, positive, negate, fits, insert, sort_by}
use zen_fm.Browser.Sorting.Order.{IsOrder, Any}

abbrev pub alike : Sign → Bool
alike negative = false
alike null = true
alike positive = false

alike-fits : (s : Sign) → alike s ≡ true → (fits s ≡ true) × (fits (negate s) ≡ true)
alike-fits negative e = absurd (cc)
alike-fits null e = (refl, refl)
alike-fits positive e = absurd (cc)

pub alike-both : (s : Sign) → alike s ≡ (fits s && fits (negate s))
alike-both negative = refl
alike-both null = refl
alike-both positive = refl

All-Any {ℓ} : {A : Type ℓ} (xs : List A) → All Any xs
All-Any [] = tt
All-Any (x ∷ xs) = (tt, All-Any xs)

module _ {ℓ} {A : Type ℓ} (compare : A → A → Sign) where
  abbrev pub Fits : A → A → Type 0
  Fits x y = fits (compare x y) ≡ true

  -- Each entry fits in front of all behind it.
  abbrev pub IsSorted : List A → Type 0
  IsSorted [] = Unit
  IsSorted (x ∷ xs) = All (Fits x) xs × IsSorted xs

  insert-Perm : (x : A) (ys : List A) → Perm (insert compare x ys) (x ∷ ys)
  insert-Perm x [] = Perm.rfl
  insert-Perm x (y ∷ ys) = elim (Bool-cases (fits (compare x y))) [
    | inl e ↦ rw e Perm.rfl
    | inr e ↦ rw e (Perm.trans (Perm.cons y (insert-Perm x ys)) (Perm.swap x y ys))
  ]

  pub sort_by-Perm : (xs : List A) → Perm (sort_by compare xs) xs
  sort_by-Perm [] = Perm.rfl
  sort_by-Perm (x ∷ xs) =
      Perm.trans (insert-Perm x (sort_by compare xs)) (Perm.cons x (sort_by-Perm xs))

  pub All-insert {κ} :
      (P : A → Type κ) (x : A) (ys : List A) → P x → All P ys → All P (insert compare x ys)
  All-insert P x [] p h = (p, tt)
  All-insert P x (y ∷ ys) p h = elim (Bool-cases (fits (compare x y))) [
    | inl e ↦ rw e (p, h)
    | inr e ↦ rw e (h.0, All-insert P x ys p h.1)
  ]

  fits-negate : (s : Sign) → fits s ≡ false → fits (negate s) ≡ true
  fits-negate negative e = absurd (cc)
  fits-negate null e = absurd (cc)
  fits-negate positive e = refl

  module _ (Known : A → Type 0) (order : IsOrder A Known compare) where
    insert-IsSorted :
        (x : A) (ys : List A) → All Known ys → IsSorted ys → IsSorted (insert compare x ys)
    insert-IsSorted x [] v s = (tt, tt)
    insert-IsSorted x (y ∷ ys) v s = elim (Bool-cases (fits (compare x y))) [
      | inl e ↦ rw e ((e, All-map (Fits y) (Fits x) ys (λ z h. order.chain x y z v.0 e h) s.0), s)
      | inr e ↦
          let back : Fits y x = ap fits (order.turn x y) ∙ fits-negate (compare x y) e in
          rw e (All-insert (Fits y) x ys back s.0, insert-IsSorted x ys v.1 s.1)
    ]

    sort_by-Known : (xs : List A) → All Known xs → All Known (sort_by compare xs)
    sort_by-Known [] v = tt
    sort_by-Known (x ∷ xs) v = All-insert Known x (sort_by compare xs) v.0 (sort_by-Known xs v.1)

    pub sort_by-IsSorted : (xs : List A) → All Known xs → IsSorted (sort_by compare xs)
    sort_by-IsSorted [] v = tt
    sort_by-IsSorted (x ∷ xs) v =
        insert-IsSorted x (sort_by compare xs) (sort_by-Known xs v.1) (sort_by-IsSorted xs v.1)

    later :
        (p : A → Bool)
        → ((x y : A) → p x ≡ true → p y ≡ true → Fits x y)
        → (x y : A) (ys : List A) → fits (compare x y) ≡ false
        → (if p y then y ∷ (if p x then x ∷ ys else ys) else (if p x then x ∷ ys else ys))
          ≡ (if p x then x ∷ (if p y then y ∷ ys else ys) else (if p y then y ∷ ys else ys))
    later p h x y ys e = elim (Bool-cases (p x)) [
      | inl a ↦ elim (Bool-cases (p y)) [
        | inl b ↦ absurd (apart (sym (h x y a b) ∙ e))
        | inr b ↦ rw (a, b) refl
      ]
      | inr a ↦ rw a refl
    ]

    insert-select :
        (p : A → Bool)
        → ((x y : A) → p x ≡ true → p y ≡ true → Fits x y)
        → (x : A) (ys : List A) → select p (insert compare x ys) ≡ select p (x ∷ ys)
    insert-select p h x [] = refl
    insert-select p h x (y ∷ ys) = elim (Bool-cases (fits (compare x y))) [
      | inl e ↦ rw e refl
      | inr e ↦ rw (e, insert-select p h x ys) (later p h x y (select p ys) e)
    ]

    select-sort_by :
        (p : A → Bool)
        → ((x y : A) → p x ≡ true → p y ≡ true → Fits x y)
        → (xs : List A) → select p (sort_by compare xs) ≡ select p xs
    select-sort_by p h [] = refl
    select-sort_by p h (x ∷ xs) =
        insert-select p h x (sort_by compare xs)
        ∙ ap (λ l. if p x then x ∷ l else l) (select-sort_by p h xs)

    -- The order is kept where the comparison does not tell two entries apart.
    pub sort_by-stable :
        (z : A) (xs : List A)
        → Known z
        → select (λ x. alike (compare z x)) (sort_by compare xs)
          ≡ select (λ x. alike (compare z x)) xs
    sort_by-stable z xs v =
        select-sort_by (λ x. alike (compare z x))
          (λ x y h k.
            order.chain x z y v (ap fits (order.turn z x) ∙ (alike-fits (compare z x) h).1)
              (alike-fits (compare z y) k).0)
          xs

  -- An order of all elements.
  pub sort_by-IsSorted_all : IsOrder A Any compare → (xs : List A) → IsSorted (sort_by compare xs)
  sort_by-IsSorted_all order xs = sort_by-IsSorted Any order xs (All-Any xs)
