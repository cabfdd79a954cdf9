-- ===== src/Browser/Selection/Range.antt =====
-- A click with the shift key selects the entries from the anchor to the one clicked, and no others.
use zen_fm.Base.{
  ℕ, zero, suc, ◌+◌, ◌-◌, ◌≡◌, refl, sym, ap, ◌∙◌, subst, inl, inr, true, false, ◌&&◌, Bool-cases,
  apart, List, [], ◌∷◌, map, some, take, drop, min, max, ltb, leb, Text, text_eq, text_eq_iff,
  text_eq_refl, get_elem?, arith,
}
use zen_fm.Entries.{FileEntry, is_special, has_text}
use zen_fm.Browser.Selection.{Selection, select_entry, index_of_path, anchor_index}

abbrev pub paths_of : List FileEntry → List Text
paths_of entries = map (λ entry. entry.path) entries

-- No two entries have one path.
abbrev pub HasDistinctPaths : List FileEntry → Type 0
HasDistinctPaths [] = Unit
HasDistinctPaths (entry ∷ entries) =
    (has_text (paths_of entries) entry.path ≡ false) × HasDistinctPaths entries

not_in-take :
    (path : Text) (n : ℕ) (entries : List FileEntry)
    → has_text (paths_of entries) path ≡ false
    → has_text (paths_of (take n entries)) path ≡ false
not_in-take path zero entries h = refl
not_in-take path (suc n) [] h = refl
not_in-take path (suc n) (entry ∷ entries) h = ground (arith, not_in-take path n entries)

not_in-drop :
    (path : Text) (n : ℕ) (entries : List FileEntry)
    → has_text (paths_of entries) path ≡ false
    → has_text (paths_of (drop n entries)) path ≡ false
not_in-drop path zero entries h = h
not_in-drop path (suc n) [] h = refl
not_in-drop path (suc n) (entry ∷ entries) h = ground (arith, not_in-drop path n entries)

in_list :
    (i : ℕ) (entries : List FileEntry) (entry : FileEntry)
    → get_elem? entries i ≡ some entry
    → has_text (paths_of entries) entry.path ≡ true
in_list i [] entry g = absurd (cc)
in_list zero (first ∷ entries) entry g =
    let same : first ≡ entry = cc in rw (ap (λ e. e.path) same, text_eq_refl entry.path) refl
in_list (suc i) (first ∷ entries) entry g = ground (arith, in_list i entries entry g)

other_path :
    (i : ℕ) (first : FileEntry) (entries : List FileEntry) (entry : FileEntry)
    → HasDistinctPaths (first ∷ entries)
    → get_elem? entries i ≡ some entry
    → text_eq first.path entry.path ≡ false
other_path i first entries entry d g = elim (Bool-cases (text_eq first.path entry.path)) [
  | inl e ↦
      let same : first.path ≡ entry.path = (text_eq_iff first.path entry.path).0 e in
      absurd (
        apart (
          sym (in_list i entries entry g)
          ∙ subst (λ path. has_text (paths_of entries) path ≡ false) same d.0))
  | inr e ↦ e
]

ltb-suc : (m n : ℕ) → ltb m n ≡ ltb (suc m) (suc n)
ltb-suc m n = ground arith

-- The entry at a place is in a slice when the place is.
in_take :
    (n i : ℕ) (entries : List FileEntry) (entry : FileEntry)
    → HasDistinctPaths entries
    → get_elem? entries i ≡ some entry
    → has_text (paths_of (take n entries)) entry.path ≡ ltb i n
in_take n i [] entry d g = absurd (cc)
in_take zero i (first ∷ entries) entry d g = ground arith
in_take (suc n) zero (first ∷ entries) entry d g =
    let same : first ≡ entry = cc in
    rw (ap (λ e. e.path) same, text_eq_refl entry.path) (ground arith)
in_take (suc n) (suc i) (first ∷ entries) entry d g =
    rw (other_path i first entries entry d g) (in_take n i entries entry d.1 g ∙ ltb-suc i n)

from_start : (n i : ℕ) → ltb i n ≡ (leb 0 i && ltb i (0 + n))
from_start n i = ground arith

before_start : (from n : ℕ) → false ≡ (leb (suc from) 0 && ltb 0 (suc from + n))
before_start from n = ground arith

shifted :
    (from n i : ℕ)
    → (leb from i && ltb i (from + n)) ≡ (leb (suc from) (suc i) && ltb (suc i) (suc from + n))
shifted from n i = ground arith

in_slice :
    (from n i : ℕ) (entries : List FileEntry) (entry : FileEntry)
    → HasDistinctPaths entries
    → get_elem? entries i ≡ some entry
    → has_text (paths_of (take n (drop from entries))) entry.path ≡ (leb from i && ltb i (from + n))
in_slice from n i [] entry d g = absurd (cc)
in_slice zero n i (first ∷ entries) entry d g =
    in_take n i (first ∷ entries) entry d g ∙ from_start n i
in_slice (suc from) n zero (first ∷ entries) entry d g =
    let same : first ≡ entry = cc in
    let absent : has_text (paths_of entries) entry.path ≡ false =
      subst (λ e. has_text (paths_of entries) e.path ≡ false) same d.0 in
    not_in-take entry.path n (drop from entries) (not_in-drop entry.path from entries absent)
    ∙ before_start from n
in_slice (suc from) n (suc i) (first ∷ entries) entry d g =
    in_slice from n i entries entry d.1 g ∙ shifted from n i

between :
    (a b i : ℕ)
    → (leb (min a b) i && ltb i (min a b + (max a b + 1 - min a b)))
      ≡ (leb (min a b) i && leb i (max a b))
between a b i = ground arith

-- For entries with different paths, an anchor and a clicked entry that are among them: a click with the
-- shift key alone selects an entry exactly when it stands between the two, which are selected as well.
pub select_entry-between :
    (selectable : List FileEntry) (s : Selection) (clicked other : FileEntry) (a b i : ℕ)
    → HasDistinctPaths selectable
    → is_special clicked.kind ≡ false
    → anchor_index selectable s.anchor ≡ some a
    → index_of_path selectable clicked.path ≡ some b
    → get_elem? selectable i ≡ some other
    → has_text (select_entry selectable false true clicked s).paths other.path
      ≡ (leb (min a b) i && leb i (max a b))
unfolding select_entry
select_entry-between selectable s clicked other a b i d n e f g =
    rw (n, e, f) (in_slice (min a b) (max a b + 1 - min a b) i selectable other d g ∙ between a b i)
