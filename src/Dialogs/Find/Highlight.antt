-- ===== src/Dialogs/Find/Highlight.antt =====
-- What the range marked in the text itself has, after the search in the lowered text.
use zen_fm.Base.{ℕ, ◌+◌, ◌-◌, ◌≡◌, true, some, Text, starts_with, map, take, drop, get_elem?}
use zen_fm.Dialogs.Find.{Find, TextRange, current_find_match}
use zen_fm.Dialogs.Find.Matches.{matches}

-- A place of the reference list begins a match: the text behind it, which starts at `place`, has the
-- query in front there.
abbrev BeginsAt : (query : Text) → ℕ → Text → ℕ → Type 0
BeginsAt query place text m = (k : ℕ) × (m ≡ place + k) × (starts_with (drop k text) query ≡ true)

-- The part of the text that a range marks.
abbrev pub marked : TextRange → Text → Text
marked r text = take (r.to - r.from) (drop r.from text)

-- The range marks the match at the index shown, and what it marks is the query but for the case.
abbrev pub IsHighlighted :
    (unit : ℕ → ℕ) → (lowered lowered_query : Text) → (text query : Text) → Find → Type 0
IsHighlighted unit lowered lowered_query text query f =
    (i : ℕ) × (r : TextRange) × (f.index ≡ some i)
    × (current_find_match query f ≡ some r)
    × (get_elem? (matches lowered lowered_query) i ≡ some r.from)
    × (map unit (marked r text) ≡ map unit query)
