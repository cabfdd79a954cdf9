-- ===== src/Dialogs/Find/Moves.antt =====
-- Moving through the matches with the arrow buttons, against the list of all matches.
use native.Mathlib.Nat.{mod-eq_of_lt, add-mul-mod_self_right}
use zen_fm.Base.{
  ℕ, zero, suc, ◌+◌, ◌-◌, ◌*◌, ◌%◌, ◌<◌, ◌≡◌, refl, subst, sym, ap, ◌∙◌, ◌≡⟨◌⟩◌, ◌∎, inl, inr, List,
  [], ◌∷◌, Option, none, some, ◌≢◌, if◌then◌else◌, true, false, Bool-cases, text_eq, text_eq_iff,
  ltb, ◌==◌, ◌||◌, Text, length, get_elem?, last?, arith,
}
use zen_fm.Dialogs.Find.{
  index_of, index_from, previous_text_match, Find, open_find, Direction, forward, backward,
  or_found, move_find, run,
}
use zen_fm.Dialogs.Find.Matches.{matches}
use zen_fm.Dialogs.Find.Counting.{summarize_text_matches-matches, shift-zero, length-matches_le}
use zen_fm.Dialogs.Find.Cycle.{index_from-next, previous_loop-before_at, before_at}

get_elem?-lt : (ms : List ℕ) (i m : ℕ) → get_elem? ms i ≡ some m → i < length ms
get_elem?-lt [] i m h = absurd (cc)
get_elem?-lt (n ∷ ms) zero m h = omega arith
get_elem?-lt (n ∷ ms) (suc i) m h = omega (arith, get_elem?-lt ms i m h)

get_elem?-some : (ms : List ℕ) (i : ℕ) → i < length ms → (m : ℕ) × (get_elem? ms i ≡ some m)
get_elem?-some [] i h = absurd (omega arith)
get_elem?-some (n ∷ ms) zero h = (n, refl)
get_elem?-some (n ∷ ms) (suc i) h = get_elem?-some ms i (omega arith)

get_elem?-length : (ms : List ℕ) → get_elem? ms (length ms) ≡ none
get_elem?-length [] = refl
get_elem?-length (n ∷ ms) = get_elem?-length ms

last?-get_elem? : (m : ℕ) (ms : List ℕ) → last? (m ∷ ms) ≡ get_elem? (m ∷ ms) (length ms)
last?-get_elem? m [] = refl
last?-get_elem? m (n ∷ ms) = last?-get_elem? n ms

mod_at : (j i k n : ℕ) → j ≡ i + k * n → i < n → j % n ≡ i
mod_at j i k n e h =
    (j % n
      ≡⟨ ap (λ x. x % n) e ⟩ (i + k * n) % n
      ≡⟨ add-mul-mod_self_right i k n ⟩ i % n
      ≡⟨ mod-eq_of_lt h ⟩ i ∎)

abbrev Same : Option ℕ → List ℕ → ℕ → Type 0
Same o ms i = (m : ℕ) × (o ≡ some m) × (get_elem? ms i ≡ some m)

Same-moved :
    (o : Option ℕ) (ms : List ℕ) (i j m : ℕ)
    → o ≡ some m
    → get_elem? ms i ≡ some m
    → j ≡ i
    → Same o ms j
Same-moved o ms i j m e g h = (m, e, ap (get_elem? ms) h ∙ g)

forward-Same :
    (ms : List ℕ) (i : ℕ)
    → i < length ms
    → Same (or_found (get_elem? ms (suc i)) (get_elem? ms 0)) ms ((i + 1 + length ms) % length ms)
forward-Same ms i h = elim (Bool-cases (ltb (suc i) (length ms))) [
  | inl e ↦
      let (m, g) = get_elem?-some ms (suc i) (ground arith) in
      Same-moved (or_found (get_elem? ms (suc i)) (get_elem? ms 0)) ms (suc i)
        ((i + 1 + length ms) % length ms) m (rw g refl) g
        (mod_at (i + 1 + length ms) (suc i) 1 (length ms) (omega arith) (ground arith))
  | inr e ↦
      let (m, g) = get_elem?-some ms 0 (omega arith) in
      let end : suc i ≡ length ms = ground arith in
      Same-moved (or_found (get_elem? ms (suc i)) (get_elem? ms 0)) ms 0
        ((i + 1 + length ms) % length ms) m (rw (end, get_elem?-length ms) g) g
        (mod_at (i + 1 + length ms) 0 2 (length ms) (omega (arith, end)) (omega arith))
]

backward-Same :
    (ms : List ℕ) (i : ℕ)
    → i < length ms
    → Same (or_found (before_at none ms i) (last? ms)) ms ((i + length ms - 1) % length ms)
backward-Same [] i h = absurd (omega arith)
backward-Same (n ∷ ms) zero h =
    let (m, g) = get_elem?-some (n ∷ ms) (length ms) (omega arith) in
    Same-moved (last? (n ∷ ms)) (n ∷ ms) (length ms) ((0 + length (n ∷ ms) - 1) % length (n ∷ ms)) m
      (last?-get_elem? n ms ∙ g) g
      (mod_at (0 + length (n ∷ ms) - 1) (length ms) 0 (length (n ∷ ms)) (omega arith) (omega arith))
backward-Same (n ∷ ms) (suc i) h =
    let (m, g) = get_elem?-some (n ∷ ms) i (omega arith) in
    Same-moved (or_found (get_elem? (n ∷ ms) i) (last? (n ∷ ms))) (n ∷ ms) i
      ((suc i + length (n ∷ ms) - 1) % length (n ∷ ms)) m (rw g refl) g
      (mod_at (suc i + length (n ∷ ms) - 1) i 1 (length (n ∷ ms)) (omega arith) (omega arith))

abbrev pub Shown : (text query : Text) → Find → Type 0
Shown text query f =
    (i : ℕ) × (m : ℕ) × (f.index ≡ some i)
    × (f.start ≡ some m)
    × (get_elem? (matches text query) i ≡ some m)

not_idle :
    (text query : Text) (i m : ℕ)
    → query ≢ []
    → get_elem? (matches text query) i ≡ some m
    → ((length (matches text query) == 0) || text_eq query []) ≡ false
not_idle text query i m q g =
    let l = get_elem?-lt (matches text query) i m g in
    let e = text_eq_iff query [] in ground (arith, l, e, q)

-- What a move makes of the state, in terms of the list of all matches.
abbrev moved_by : Direction → List ℕ → ℕ → Find
moved_by forward ms i = record {
  start = or_found (get_elem? ms (suc i)) (get_elem? ms 0);
  index = some ((i + 1 + length ms) % length ms);
}
moved_by backward ms i = record {
  start = or_found (before_at none ms i) (last? ms);
  index = some ((i + length ms - 1) % length ms);
}

index_from-matches :
    (text query : Text) (i m : ℕ)
    → query ≢ []
    → get_elem? (matches text query) i ≡ some m
    → index_from query text (m + length query) ≡ get_elem? (matches text query) (suc i)
unfolding matches
index_from-matches text query i m q g = index_from-next query text 0 i m q g

previous_text_match-before_at :
    (text query : Text) (i m : ℕ)
    → query ≢ []
    → get_elem? (matches text query) i ≡ some m
    → previous_text_match text query m ≡ before_at none (matches text query) i
unfolding previous_text_match matches
previous_text_match-before_at text query i m q g = rw (sym (shift-zero (index_of query text))) (
    previous_loop-before_at (suc (length text)) text query 0 i m none q
      (omega (arith, length-matches_le text query)) g)

move_find-moved_by :
    (text query : Text) (d : Direction) (i m : ℕ)
    → query ≢ []
    → get_elem? (matches text query) i ≡ some m
    → move_find text query d (record { index = some i; start = some m })
      ≡ moved_by d (matches text query) i
unfolding move_find
move_find-moved_by text query forward i m q g =
    rw
      (
        summarize_text_matches-matches text query q,
        not_idle text query i m q g,
        index_from-matches text query i m q g,
      )
      refl
move_find-moved_by text query backward i m q g =
    rw
      (
        summarize_text_matches-matches text query q,
        not_idle text query i m q g,
        previous_text_match-before_at text query i m q g,
      )
      refl

moved_by-Shown :
    (text query : Text) (d : Direction) (i : ℕ)
    → i < length (matches text query)
    → Shown text query (moved_by d (matches text query) i)
moved_by-Shown text query forward i h =
    let (m, e, g) = forward-Same (matches text query) i h in
    ((i + 1 + length (matches text query)) % length (matches text query), m, refl, e, g)
moved_by-Shown text query backward i h =
    let (m, e, g) = backward-Same (matches text query) i h in
    ((i + length (matches text query) - 1) % length (matches text query), m, refl, e, g)

move_find-Shown :
    (text query : Text) (d : Direction) (f : Find)
    → query ≢ []
    → Shown text query f
    → Shown text query (move_find text query d f)
move_find-Shown text query d f q s =
    let (i, m, e, h, g) = s in
    let whole : f ≡ record { index = some i; start = some m } = cc in
    subst (Shown text query)
      (sym (ap (move_find text query d) whole ∙ move_find-moved_by text query d i m q g))
      (moved_by-Shown text query d i (get_elem?-lt (matches text query) i m g))

first_found :
    (ms : List ℕ)
    → ms ≢ []
    → (i : ℕ) × (m : ℕ) × ((if ltb 0 (length ms) then some 0 else none) ≡ some i)
      × (get_elem? ms 0 ≡ some m)
      × (get_elem? ms i ≡ some m)
first_found [] n = absurd (n refl)
first_found (m ∷ ms) n =
    let busy : ltb 0 (suc (length ms)) ≡ true = ground arith in (0, m, rw busy refl, refl, refl)

open_find-Shown :
    (text query : Text)
    → query ≢ []
    → matches text query ≢ []
    → Shown text query (open_find text query)
unfolding open_find
open_find-Shown text query q n =
    rw (summarize_text_matches-matches text query q) (first_found (matches text query) n)

run-Shown :
    (text query : Text) (ds : List Direction) (f : Find)
    → query ≢ []
    → Shown text query f
    → Shown text query (run text query ds f)
unfolding run
run-Shown text query [] f q s = s
run-Shown text query (d ∷ ds) f q s =
    run-Shown text query ds (move_find text query d f) q (move_find-Shown text query d f q s)

-- For a query that is not empty and occurs in the text, whatever the buttons and keys are pressed after
-- the search has opened, the index is that of a match of the reference list, and the start kept beside
-- it is where that match begins in the lowered text.
pub run-open_find-Shown :
    (text query : Text) (directions : List Direction)
    → query ≢ []
    → matches text query ≢ []
    → Shown text query (run text query directions (open_find text query))
run-open_find-Shown text query directions q n =
    run-Shown text query directions (open_find text query) q (open_find-Shown text query q n)
