-- ===== src/Dialogs/Duplicate/Fresh.antt =====
-- The loop for the name of a copy ends: among more candidates than there are names, one is new.
use mathlib.Core.List.{append_cancel_left, append_cancel_right}
use zen_fm.Base.{
  ℕ, zero, suc, ◌+◌, ◌-◌, ◌*◌, ◌/◌, ◌%◌, ◌≤◌, ◌<◌, ◌≡◌, ◌≢◌, refl, subst, ◌≡⟨◌⟩◌, ◌∎, sym, ap, ◌∙◌,
  inl, inr, true, false, Bool-cases, List, [], ◌∷◌, ◌++◌, Option, none, some, ltb, ◌==◌,
  if◌then◌else◌, Text, codes, text_eq, text_eq_iff, length, arith,
}
use zen_fm.Entries.{FileEntry, has_text}
use zen_fm.Dialogs.Duplicate.{
  digits_loop, digits, candidate, count_label, duplicate_loop, duplicate_name, parts_at, with_name,
  extension_at,
}

-- Reading the digits again.
abbrev value : ℕ → Text → ℕ
value n [] = n
value n (c ∷ text) = value (n * 10 + (c - 0x30)) text

value-append : (n : ℕ) (s : Text) (c : ℕ) → value n (s ++ c ∷ []) ≡ value n s * 10 + (c - 0x30)
value-append n [] c = refl
value-append n (d ∷ s) c = value-append (n * 10 + (d - 0x30)) s c

value-digits_loop : (fuel n : ℕ) → n < fuel → value 0 (digits_loop fuel n) ≡ n
unfolding digits_loop
value-digits_loop zero n h = absurd (omega arith)
value-digits_loop (suc fuel) n h = elim (Bool-cases (ltb n 10)) [
  | inl e ↦ rw e (omega arith)
  | inr e ↦
      let big : n / 10 < fuel = ground arith in
      rw
        (
          e,
          value-append 0 (digits_loop fuel (n / 10)) (0x30 + n % 10),
          value-digits_loop fuel (n / 10) big,
        )
        (omega arith)
]

digits-injective : (m n : ℕ) → digits m ≡ digits n → m ≡ n
unfolding digits
digits-injective m n e =
    sym (value-digits_loop (suc m) m (omega arith))
    ∙ ap (value 0) e
    ∙ value-digits_loop (suc n) n (omega arith)

count_label-one : (n : ℕ) → (n == 1) ≡ true → count_label n ≡ []
count_label-one n e = rw e refl

count_label-more : (n : ℕ) → (n == 1) ≡ false → count_label n ≡ 0x20 ∷ digits n
count_label-more n e = rw e refl

bare-more : {c : ℕ} {s : Text} → [] ≢ c ∷ s
bare-more e = cc

count_label-injective : (m n : ℕ) → count_label m ≡ count_label n → m ≡ n
count_label-injective m n e = elim (Bool-cases (m == 1)) [
  | inl a ↦ elim (Bool-cases (n == 1)) [
    | inl b ↦ ground arith
    | inr b ↦ absurd (bare-more (sym (count_label-one m a) ∙ e ∙ count_label-more n b))
  ]
  | inr a ↦ elim (Bool-cases (n == 1)) [
    | inl b ↦ absurd (bare-more (sym (count_label-one n b) ∙ sym e ∙ count_label-more m a))
    | inr b ↦ digits-injective m n (
        append_cancel_left (0x20 ∷ []) (digits m) (digits n)
          (sym (count_label-more m a) ∙ e ∙ count_label-more n b))
  ]
]

candidate-injective :
    (parts : Text × Text) (m n : ℕ) → candidate parts m ≡ candidate parts n → m ≡ n
candidate-injective parts m n e = count_label-injective m n (
    append_cancel_left (parts.0 ++ codes " copy") (count_label m) (count_label n) (
      append_cancel_right (parts.0 ++ codes " copy" ++ count_label m)
        (parts.0 ++ codes " copy" ++ count_label n) parts.1 e))

-- A set of names less one of them.
abbrev without : Text → List Text → List Text
without text [] = []
without text (t ∷ texts) = if text_eq t text then texts else t ∷ without text texts

length-without :
    (text : Text) (texts : List Text)
    → has_text texts text ≡ true
    → suc (length (without text texts)) ≡ length texts
length-without text [] h = absurd (cc)
length-without text (t ∷ texts) h = ground (arith, length-without text texts)

has_text-without :
    (text other : Text) (texts : List Text)
    → text ≢ other
    → has_text texts other ≡ true
    → has_text (without text texts) other ≡ true
has_text-without text other [] n h = h
has_text-without text other (t ∷ texts) n h =
    ground (arith, has_text-without text other texts n, text_eq_iff t text, text_eq_iff t other)

-- As many candidates as a number says, from another on, are names already.
abbrev pub Taken : ℕ → Text × Text → List Text → ℕ → Type 0
Taken zero parts names number = Unit
Taken (suc count) parts names number =
    (has_text names (candidate parts number) ≡ true) × Taken count parts names (number + 1)

Taken-without :
    (count : ℕ) (parts : Text × Text) (names : List Text) (before number : ℕ)
    → before < number
    → Taken count parts names number
    → Taken count parts (without (candidate parts before) names) number
Taken-without zero parts names before number l h = tt
Taken-without (suc count) parts names before number l h = (
  has_text-without (candidate parts before) (candidate parts number) names
      (λ e. omega (arith, candidate-injective parts before number e)) h.0,
  Taken-without count parts names before (number + 1) (omega arith) h.1,
)

Taken-length :
    (count : ℕ) (parts : Text × Text) (names : List Text) (number : ℕ)
    → Taken count parts names number
    → count ≤ length names
Taken-length zero parts names number h = omega arith
Taken-length (suc count) parts names number h = omega (
  arith,
  length-without (candidate parts number) names h.0,
  Taken-length count parts (without (candidate parts number) names) (number + 1)
      (Taken-without count parts names number (number + 1) (omega arith) h.1),
)

-- The loop gives the first candidate that is new, or all it has tried are taken.
abbrev First : ℕ → Text × Text → List Text → ℕ → Option Text → Type 0
First fuel parts names number none = Taken fuel parts names number
First fuel parts names number (some name) =
    (skipped : ℕ) × (Taken skipped parts names number)
    × (has_text names (candidate parts (number + skipped)) ≡ false)
    × (name ≡ candidate parts (number + skipped))

First-behind :
    (fuel : ℕ) (parts : Text × Text) (names : List Text) (number : ℕ) (o : Option Text)
    → has_text names (candidate parts number) ≡ true
    → First fuel parts names (number + 1) o
    → First (suc fuel) parts names number o
First-behind fuel parts names number none t h = (t, h)
First-behind fuel parts names number (some name) t (skipped, taken, new, e) = (
  suc skipped,
  (t, taken),
  subst (λ k. has_text names (candidate parts k) ≡ false)
      (number + 1 + skipped ≡⟨ omega arith ⟩ number + suc skipped ∎) new,
  e ∙ ap (candidate parts) (number + 1 + skipped ≡⟨ omega arith ⟩ number + suc skipped ∎),
)

First-here :
    (fuel : ℕ) (parts : Text × Text) (names : List Text) (number : ℕ)
    → has_text names (candidate parts number) ≡ false
    → First fuel parts names number (some (candidate parts number))
First-here fuel parts names number e =
    let same : number ≡ number + 0 = omega arith in
    (
      0,
      tt,
      subst (λ k. has_text names (candidate parts k) ≡ false) same e,
      ap (candidate parts) same,
    )

duplicate_loop-First :
    (fuel : ℕ) (parts : Text × Text) (names : List Text) (number : ℕ)
    → First fuel parts names number (duplicate_loop fuel parts names number)
unfolding duplicate_loop
duplicate_loop-First zero parts names number = tt
duplicate_loop-First (suc fuel) parts names number =
    elim (Bool-cases (has_text names (candidate parts number))) [
      | inl e ↦ rw e (
          First-behind fuel parts names number (duplicate_loop fuel parts names (number + 1)) e
            (duplicate_loop-First fuel parts names (number + 1)))
      | inr e ↦ rw e (First-here fuel parts names number e)
    ]

named :
    (parts : Text × Text) (names : List Text) (o : Option Text)
    → First (suc (length names)) parts names 1 o
    → (skipped : ℕ) × (Taken skipped parts names 1)
      × (has_text names (candidate parts (1 + skipped)) ≡ false)
      × (with_name names o
          ≡ some (candidate parts (1 + skipped), candidate parts (1 + skipped) ∷ names))
named parts names none h = absurd (omega (arith, Taken-length (suc (length names)) parts names 1 h))
named parts names (some name) (skipped, taken, new, e) =
    (skipped, taken, new, ap (λ t. some (t, t ∷ names)) e)

-- For every entry and every set of names, the loop ends: its result is the copy's name with the first
-- number, from 1 on, whose name is not in the set, and the set with that name.
pub duplicate_name-fresh :
    (entry : FileEntry) (names : List Text)
    → (skipped : ℕ) × (Taken skipped (parts_at entry.name (extension_at entry)) names 1)
      × (has_text names (candidate (parts_at entry.name (extension_at entry)) (1 + skipped))
          ≡ false)
      × (duplicate_name entry names
          ≡ some (
            candidate (parts_at entry.name (extension_at entry)) (1 + skipped),
            candidate (parts_at entry.name (extension_at entry)) (1 + skipped) ∷ names,
          ))
unfolding duplicate_name
duplicate_name-fresh entry names =
    named (parts_at entry.name (extension_at entry)) names
      (duplicate_loop (suc (length names)) (parts_at entry.name (extension_at entry)) names 1)
      (duplicate_loop-First (suc (length names)) (parts_at entry.name (extension_at entry)) names 1)
