-- ===== src/Dialogs/Find/Rest.antt =====
-- What a search from a place of the text leaves of the list of all matches.
use zen_fm.Base.{
  ℕ, zero, suc, ◌+◌, ◌≤◌, ◌≡◌, refl, sym, ap, ◌∙◌, ◌≡⟨◌⟩◌, ◌∎, ◌⊎◌, inl, inr, List, [], ◌∷◌, Option,
  none, some, ◌≢◌, Text, drop, length, arith, Option-cases,
}
use zen_fm.Dialogs.Find.{shift, index_of, index_from}
use zen_fm.Dialogs.Find.Matches.{matches_from, Unfolds, matches_from-Unfolds, same_matches}

-- The matches that begin at a place or behind it.
abbrev pub rest_of : (query text : Text) → ℕ → List ℕ
rest_of query text from = matches_from query 0 from (drop from text)

drop-nil : (n : ℕ) (s : Text) → s ≡ [] → drop n s ≡ []
drop-nil zero s e = e
drop-nil (suc n) [] e = refl
drop-nil (suc n) (c ∷ s) e = absurd (cc)

drop-drop : (m n k : ℕ) (s : Text) → n + m ≡ k → drop m (drop n s) ≡ drop k s
drop-drop m zero k s e = ap (λ j. drop j s) (omega arith)
drop-drop m (suc n) k [] e = drop-nil m [] refl ∙ sym (drop-nil k [] refl)
drop-drop m (suc n) k (c ∷ s) e =
    drop-drop m n (n + m) s refl ∙ ap (λ j. drop j (c ∷ s)) (suc (n + m) ≡⟨ omega arith ⟩ k ∎)

none_lem :
    (query text : Text) (from : ℕ) (o : Option ℕ) (ms : List ℕ)
    → Unfolds query from text o ms
    → shift from o ≡ none
    → ms ≡ []
none_lem query text from none ms u e = u
none_lem query text from (some i) ms u e = absurd (cc)

some_lem :
    (query text : Text) (from m : ℕ) (o : Option ℕ) (ms : List ℕ)
    → Unfolds query from (drop from text) o ms
    → shift from o ≡ some m
    → (from ≤ m) × (ms ≡ m ∷ rest_of query text (m + length query))
some_lem query text from m none ms u e = absurd (cc)
some_lem query text from m (some i) ms u e =
    let place : from + i ≡ m = cc in
    (
      omega (arith, place),
      u
          ∙ same_matches query (from + i) m (from + (i + length query)) (m + length query)
              (drop (i + length query) (drop from text)) (drop (m + length query) text) place
              (omega (arith, place))
              (drop-drop (i + length query) from (m + length query) text (omega (arith, place))),
    )

pub rest_of-none :
    (query text : Text) (from : ℕ)
    → query ≢ []
    → index_from query text from ≡ none
    → rest_of query text from ≡ []
rest_of-none query text from q e =
    none_lem query (drop from text) from (index_of query (drop from text)) (rest_of query text from)
      (matches_from-Unfolds query from (drop from text) q) e

pub rest_of-some :
    (query text : Text) (from m : ℕ)
    → query ≢ []
    → index_from query text from ≡ some m
    → (from ≤ m) × (rest_of query text from ≡ m ∷ rest_of query text (m + length query))
rest_of-some query text from m q e =
    some_lem query text from m (index_of query (drop from text)) (rest_of query text from)
      (matches_from-Unfolds query from (drop from text) q) e

-- The rest is empty, or the search finds its head.
pub rest_of-cases :
    (query text : Text) (from : ℕ)
    → query ≢ []
    → ((index_from query text from ≡ none) × (rest_of query text from ≡ []))
      ⊎ ((m : ℕ) × (index_from query text from ≡ some m)
          × (from ≤ m)
          × (rest_of query text from ≡ m ∷ rest_of query text (m + length query)))
rest_of-cases query text from q = elim (Option-cases (index_from query text from)) [
  | inl e ↦ inl (e, rest_of-none query text from q e)
  | inr (m, e) ↦ let r = rest_of-some query text from m q e in inr (m, e, r.0, r.1)
]
