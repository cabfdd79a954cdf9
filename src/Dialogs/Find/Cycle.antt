-- ===== src/Dialogs/Find/Cycle.antt =====
-- Moving through the matches with the arrow buttons, against the list of all matches.
use zen_fm.Base.{
  ℕ, zero, suc, ◌+◌, ◌≤◌, ◌<◌, ◌≡◌, refl, sym, ap, ◌∙◌, inl, inr, List, [], ◌∷◌, Option, none, some,
  ◌≢◌, true, false, ltb, lt→ltb, Text, length, get_elem?, arith,
}
use zen_fm.Dialogs.Find.{index_from, previous_loop}
use zen_fm.Dialogs.Find.Rest.{rest_of, rest_of-cases}

pub index_from-head :
    (query text : Text) (from : ℕ)
    → query ≢ []
    → index_from query text from ≡ get_elem? (rest_of query text from) 0
index_from-head query text from q = elim (rest_of-cases query text from q) [
  | inl (e, r) ↦ rw (e, r) refl
  | inr (n, e, _, r) ↦ rw (e, r) refl
]

-- A match of the rest is one of the rest behind its head, unless it is the head.
get_elem?-rest :
    (query text : Text) (from i m : ℕ)
    → query ≢ []
    → get_elem? (rest_of query text from) i ≡ some m
    → (n : ℕ) × (index_from query text from ≡ some n)
      × (from ≤ n)
      × (rest_of query text from ≡ n ∷ rest_of query text (n + length query))
      × (get_elem? (n ∷ rest_of query text (n + length query)) i ≡ some m)
get_elem?-rest query text from i m q h = elim (rest_of-cases query text from q) [
  | inl (e, r) ↦ let k : none ≡ some m = ap (λ ms. get_elem? ms i) (sym r) ∙ h in absurd (cc)
  | inr (n, e, l, r) ↦ (n, e, l, r, ap (λ ms. get_elem? ms i) (sym r) ∙ h)
]

from-get_elem?_le :
    (query text : Text) (from i m : ℕ)
    → query ≢ []
    → get_elem? (rest_of query text from) i ≡ some m
    → from ≤ m
from-get_elem?_le query text from zero m q h =
    let (n, e, l, r, k) = get_elem?-rest query text from 0 m q h in
    let p : n ≡ m = cc in omega (arith, l, p)
from-get_elem?_le query text from (suc i) m q h =
    let (n, e, l, r, k) = get_elem?-rest query text from (suc i) m q h in
    omega (arith, l, from-get_elem?_le query text (n + length query) i m q k)

-- The search behind a match finds the one after it.
pub index_from-next :
    (query text : Text) (from i m : ℕ)
    → query ≢ []
    → get_elem? (rest_of query text from) i ≡ some m
    → index_from query text (m + length query) ≡ get_elem? (rest_of query text from) (suc i)
index_from-next query text from zero m q h =
    let (n, e, l, r, k) = get_elem?-rest query text from 0 m q h in
    let p : n ≡ m = cc in rw (r, sym p) (index_from-head query text (n + length query) q)
index_from-next query text from (suc i) m q h =
    let (n, e, l, r, k) = get_elem?-rest query text from (suc i) m q h in
    rw r (index_from-next query text (n + length query) i m q k)

abbrev pub before_at : Option ℕ → List ℕ → ℕ → Option ℕ
before_at previous ms zero = previous
before_at previous ms (suc i) = get_elem? ms i

before_at-head : (n : ℕ) (ms : List ℕ) (i : ℕ) → before_at (some n) ms i ≡ get_elem? (n ∷ ms) i
before_at-head n ms zero = refl
before_at-head n ms (suc i) = refl

length-pos : (query : Text) → query ≢ [] → 0 < length query
length-pos [] q = absurd (q refl)
length-pos (c ∷ query) q = omega arith

-- The loop that stops at a match gives the one before it.
pub previous_loop-before_at :
    (fuel : ℕ) (text query : Text) (from i m : ℕ) (previous : Option ℕ)
    → query ≢ []
    → length (rest_of query text from) ≤ fuel
    → get_elem? (rest_of query text from) i ≡ some m
    → previous_loop fuel text query m (index_from query text from) previous
      ≡ before_at previous (rest_of query text from) i
unfolding previous_loop
previous_loop-before_at zero text query from i m previous q f h =
    let (n, e, l, r, k) = get_elem?-rest query text from i m q h in
    absurd (omega (arith, f, ap length r))
previous_loop-before_at (suc fuel) text query from zero m previous q f h =
    let (n, e, l, r, k) = get_elem?-rest query text from 0 m q h in
    let p : n ≡ m = cc in let stop : ltb n m ≡ false = ground (arith, p) in rw (e, stop) refl
previous_loop-before_at (suc fuel) text query from (suc i) m previous q f h =
    let (n, e, l, r, k) = get_elem?-rest query text from (suc i) m q h in
    let go : ltb n m ≡ true = lt→ltb n m (
      omega (arith, length-pos query q, from-get_elem?_le query text (n + length query) i m q k)) in
    rw (e, r, go)
      (previous_loop-before_at fuel text query (n + length query) i m (some n) q
          (omega (arith, f, ap length r)) k
        ∙ before_at-head n (rest_of query text (n + length query)) i)
