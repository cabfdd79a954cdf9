-- ===== src/Dialogs/Find/Matches.antt =====
-- The loops over the matches against the list of all matches: the places of the text where the query
-- begins, without those that overlap the one before.
use zen_fm.Base.{
  ℕ, zero, suc, ◌+◌, ◌-◌, ◌≡◌, refl, ap, ◌∙◌, inl, inr, true, false, List, [], ◌∷◌, Option, none,
  some, ◌≢◌, if◌then◌else◌, Text, starts_with, drop, length, arith, Bool-cases,
}
use zen_fm.Dialogs.Find.{shift, index_of}

-- `skip` places belong to the match before; `place` is where the text begins.
unfoldable pub matches_from : (query : Text) → (skip place : ℕ) → Text → List ℕ
matches_from query skip place [] = []
matches_from query (suc skip) place (c ∷ text) = matches_from query skip (suc place) text
matches_from query zero place (c ∷ text) =
    let found = place ∷ matches_from query (length query - 1) (suc place) text in
    let later = matches_from query zero (suc place) text in
    if starts_with (c ∷ text) query then found else later

unfoldable pub matches : (text query : Text) → List ℕ
unfolding matches_from
matches text query = matches_from query 0 0 text

matches_from-skip :
    (query : Text) (skip place : ℕ) (text : Text)
    → matches_from query skip place text ≡ matches_from query 0 (place + skip) (drop skip text)
unfolding matches_from
matches_from-skip query zero place text = ap (λ n. matches_from query 0 n text) (omega arith)
matches_from-skip query (suc skip) place [] = refl
matches_from-skip query (suc skip) place (c ∷ text) =
    matches_from-skip query skip (suc place) text
    ∙ ap (λ n. matches_from query 0 n (drop skip text)) (omega arith)

-- The matches from a place on, as the first of them and those behind it.
abbrev pub Unfolds : (query : Text) → ℕ → Text → Option ℕ → List ℕ → Type 0
Unfolds query place text none ms = ms ≡ []
Unfolds query place text (some i) ms =
    ms
    ≡ (place + i) ∷ matches_from query 0 (place + (i + length query)) (drop (i + length query) text)

drop-suc : (m n : ℕ) (c : ℕ) (s : Text) → suc m ≡ n → drop m s ≡ drop n (c ∷ s)
drop-suc m n c s e = ap (λ k. drop k (c ∷ s)) e

pub same_matches :
    (query : Text) (a b m n : ℕ) (s t : Text)
    → a ≡ b
    → m ≡ n
    → s ≡ t
    → a ∷ matches_from query 0 m s ≡ b ∷ matches_from query 0 n t
same_matches query a b m n s t e f g = cc

Unfolds-shift :
    (query : Text) (place c : ℕ) (text : Text) (o : Option ℕ) (ms : List ℕ)
    → Unfolds query (suc place) text o ms
    → Unfolds query place (c ∷ text) (shift 1 o) ms
Unfolds-shift query place c text none ms h = h
Unfolds-shift query place c text (some i) ms h =
    h
    ∙ same_matches query (suc place + i) (place + (1 + i)) (suc place + (i + length query))
        (place + (1 + i + length query)) (drop (i + length query) text)
        (drop (1 + i + length query) (c ∷ text)) (omega arith) (omega arith)
        (drop-suc (i + length query) (1 + i + length query) c text (omega arith))

index_of-here :
    (query : Text) (c : ℕ) (text : Text)
    → starts_with (c ∷ text) query ≡ true
    → index_of query (c ∷ text) ≡ some 0
unfolding index_of
index_of-here query c text e = rw e refl

index_of-later :
    (query : Text) (c : ℕ) (text : Text)
    → starts_with (c ∷ text) query ≡ false
    → index_of query (c ∷ text) ≡ shift 1 (index_of query text)
unfolding index_of
index_of-later query c text e = rw e refl

matches_from-here :
    (query : Text) (place c : ℕ) (text : Text)
    → starts_with (c ∷ text) query ≡ true
    → matches_from query 0 place (c ∷ text)
      ≡ place ∷ matches_from query (length query - 1) (suc place) text
unfolding matches_from
matches_from-here query place c text e = rw e refl

matches_from-later :
    (query : Text) (place c : ℕ) (text : Text)
    → starts_with (c ∷ text) query ≡ false
    → matches_from query 0 place (c ∷ text) ≡ matches_from query 0 (suc place) text
unfolding matches_from
matches_from-later query place c text e = rw e refl

pub matches_from-Unfolds :
    (query : Text) (place : ℕ) (text : Text)
    → query ≢ []
    → Unfolds query place text (index_of query text) (matches_from query 0 place text)
unfolding index_of matches_from starts_with
matches_from-Unfolds [] place text h = absurd (h refl)
matches_from-Unfolds (q ∷ query) place [] h = refl
matches_from-Unfolds (q ∷ query) place (c ∷ text) h =
    elim (Bool-cases (starts_with (c ∷ text) (q ∷ query))) [
      | inl e ↦
          rw
            (
              index_of-here (q ∷ query) c text e,
              matches_from-here (q ∷ query) place c text e,
              matches_from-skip (q ∷ query) (length (q ∷ query) - 1) (suc place) text,
            )
            (same_matches (q ∷ query) place (place + 0) (suc place + (length (q ∷ query) - 1))
              (place + (0 + length (q ∷ query))) (drop (length (q ∷ query) - 1) text)
              (drop (0 + length (q ∷ query)) (c ∷ text)) (omega arith) (omega arith)
              (drop-suc (length (q ∷ query) - 1) (0 + length (q ∷ query)) c text (omega arith)))
      | inr e ↦
          rw (index_of-later (q ∷ query) c text e, matches_from-later (q ∷ query) place c text e)
            (Unfolds-shift (q ∷ query) place c text (index_of (q ∷ query) text)
              (matches_from (q ∷ query) 0 (suc place) text)
              (matches_from-Unfolds (q ∷ query) (suc place) text h))
    ]
