-- ===== src/Dialogs/Find/Counting.antt =====
-- The loop of `summarizeTextMatches` against the list of all matches.
use zen_fm.Base.{
  ℕ, zero, suc, ◌+◌, ◌-◌, ◌≤◌, ◌≡◌, refl, sym, ap, ◌∙◌, inl, inr, List, [], ◌∷◌, Option, none, some,
  ◌≢◌, Bool-cases, text_eq, text_eq_iff, starts_with, Text, length, get_elem?, last?, arith,
}
use zen_fm.Dialogs.Find.{
  shift, index_of, index_from, Summary, count_match, summarize_loop, nothing_found,
  summarize_text_matches,
}
use zen_fm.Dialogs.Find.Matches.{matches_from, matches}
use zen_fm.Dialogs.Find.Rest.{rest_of, rest_of-cases}

-- The fuel is enough: there are no more matches than places.
length-matches_from_le :
    (query : Text) (skip place : ℕ) (text : Text)
    → length (matches_from query skip place text) ≤ length text
unfolding matches_from
length-matches_from_le query skip place [] = omega arith
length-matches_from_le query (suc skip) place (c ∷ text) =
    omega (arith, length-matches_from_le query skip (suc place) text)
length-matches_from_le query zero place (c ∷ text) =
    let h = length-matches_from_le query (length query - 1) (suc place) text in
    let k = length-matches_from_le query zero (suc place) text in
    elim (Bool-cases (starts_with (c ∷ text) query)) [
      | inl e ↦ rw e (omega (arith, h))
      | inr e ↦ rw e (omega (arith, k))
    ]

pub length-matches_le : (text query : Text) → length (matches text query) ≤ length text
unfolding matches
length-matches_le text query = length-matches_from_le query 0 0 text

abbrev count_all : List ℕ → Summary → Summary
count_all [] s = s
count_all (m ∷ ms) s = count_all ms (count_match m s)

count_all-seen :
    (ms : List ℕ) (n first last : ℕ)
    → count_all ms (record { count = n; first = some first; last = some last })
      ≡ record { count = n + length ms; first = some first; last = last? (last ∷ ms) }
count_all-seen [] n first last =
    ap (λ k. record { count = k; first = some first; last = some last }) (omega arith)
count_all-seen (m ∷ ms) n first last =
    count_all-seen ms (n + 1) first m
    ∙ ap (λ k. record { count = k; first = some first; last = last? (m ∷ ms) }) (omega arith)

count_all-found :
    (ms : List ℕ)
    → count_all ms nothing_found
      ≡ record { count = length ms; first = get_elem? ms 0; last = last? ms }
count_all-found [] = refl
count_all-found (m ∷ ms) =
    count_all-seen ms (0 + 1) m m
    ∙ ap (λ k. record { count = k; first = some m; last = last? (m ∷ ms) }) (omega arith)

pub shift-zero : (o : Option ℕ) → shift 0 o ≡ o
shift-zero none = refl
shift-zero (some i) = ap some (omega arith)

summarize_loop-count_all :
    (fuel : ℕ) (text query : Text) (from : ℕ) (s : Summary)
    → query ≢ []
    → length (rest_of query text from) ≤ fuel
    → summarize_loop fuel text query (index_from query text from) s
      ≡ count_all (rest_of query text from) s
unfolding summarize_loop
summarize_loop-count_all zero text query from s q h = elim (rest_of-cases query text from q) [
  | inl (e, r) ↦ rw (e, r) refl
  | inr (m, e, _, r) ↦ absurd (omega (arith, h, ap length r))
]
summarize_loop-count_all (suc fuel) text query from s q h = elim (rest_of-cases query text from q) [
  | inl (e, r) ↦ rw (e, r) refl
  | inr (m, e, _, r) ↦
      rw (e, r)
        (summarize_loop-count_all fuel text query (m + length query) (count_match m s) q
          (omega (arith, h, ap length r)))
]

-- For a query that is not empty, the loop counts the matches of the reference list and gives the
-- first and the last of them: no match is missed, none is counted twice, and the loop ends.
pub summarize_text_matches-matches :
    (text query : Text)
    → query ≢ []
    → summarize_text_matches text query ≡ record {
      count = length (matches text query);
      first = get_elem? (matches text query) 0;
      last = last? (matches text query);
    }
unfolding summarize_text_matches matches
summarize_text_matches-matches text query q = elim (Bool-cases (text_eq query [])) [
  | inl e ↦ absurd (q ((text_eq_iff query []).0 e))
  | inr e ↦
      rw (e, sym (shift-zero (index_of query text)))
        (summarize_loop-count_all (suc (length text)) text query 0 nothing_found q
            (omega (arith, length-matches_from_le query 0 0 text))
          ∙ count_all-found (matches_from query 0 0 text))
]
