-- ===== src/Dialogs/Find.antt =====
-- The text search of a preview in frontend/src/components/FileDialogs.tsx: `summarizeTextMatches`,
-- `previousTextMatch`, `moveFind` and the range that is marked. The text and the query have been lowered,
-- but for that range. A position is an
-- index of the text, and `none` stands for -1.
pub mod Matches
pub mod Rest
pub mod Counting
pub mod Cycle
pub mod Moves
pub mod Highlight
use zen_fm.Base.{
  ℕ, zero, suc, ◌+◌, ◌-◌, ◌%◌, Bool, true, false, ◌||◌, List, [], ◌∷◌, Option, none, some, ltb,
  ◌==◌, if◌then◌else◌, Text, text_eq, starts_with, drop, length,
}

abbrev pub shift : ℕ → Option ℕ → Option ℕ
shift n none = none
shift n (some i) = some (n + i)

-- `text.indexOf(query)`.
unfoldable pub index_of : (query text : Text) → Option ℕ
index_of query [] = if starts_with [] query then some 0 else none
index_of query (c ∷ text) =
    let later = shift 1 (index_of query text) in
    if starts_with (c ∷ text) query then some 0 else later

-- `text.indexOf(query, from)`.
abbrev pub index_from : (query text : Text) → ℕ → Option ℕ
index_from query text from = shift from (index_of query (drop from text))

pub record Summary : Type 0 where
  pub count : ℕ
  pub first : Option ℕ
  pub last : Option ℕ

abbrev pub first_or : Option ℕ → ℕ → Option ℕ
first_or none match = some match
first_or (some first) match = some first

-- The body of the loop.
abbrev pub count_match : ℕ → Summary → Summary
count_match match s = record {
  count = s.count + 1;
  first = first_or s.first match;
  last = some match;
}

-- The loop, at its next match. Each round starts behind the match before, so the length of the text
-- bounds the rounds.
unfoldable pub summarize_loop : ℕ → (text query : Text) → Option ℕ → Summary → Summary
summarize_loop fuel text query none s = s
summarize_loop zero text query (some match) s = s
summarize_loop (suc fuel) text query (some match) s =
    summarize_loop fuel text query (index_from query text (match + length query))
      (count_match match s)

abbrev pub nothing_found : Summary
nothing_found = record { count = 0; first = none; last = none }

unfoldable pub summarize_text_matches : (text query : Text) → Summary
unfolding summarize_loop index_of
summarize_text_matches text query =
    if text_eq query []
    then nothing_found
    else summarize_loop (suc (length text)) text query (index_of query text) nothing_found

unfoldable pub previous_loop :
    ℕ → (text query : Text) → (before : ℕ) → Option ℕ → Option ℕ → Option ℕ
previous_loop fuel text query before none previous = previous
previous_loop zero text query before (some match) previous = previous
previous_loop (suc fuel) text query before (some match) previous =
    let rest =
      previous_loop fuel text query before (index_from query text (match + length query))
        (some match) in
    if ltb match before then rest else previous

unfoldable pub previous_text_match : (text query : Text) → (before : ℕ) → Option ℕ
unfolding previous_loop index_of
previous_text_match text query before =
    previous_loop (suc (length text)) text query before (index_of query text) none

-- `findIndex` and `findStart`.
pub record Find : Type 0 where
  pub index : Option ℕ
  pub start : Option ℕ

-- The effect on a new text or query.
unfoldable pub open_find : (text query : Text) → Find
unfolding summarize_text_matches
open_find text query =
    let s = summarize_text_matches text query in
    record { index = if ltb 0 s.count then some 0 else none; start = s.first }

pub data Direction : Type 0 where
  forward backward : Direction

abbrev pub or_found : Option ℕ → Option ℕ → Option ℕ
or_found none fallback = fallback
or_found (some match) fallback = some match

-- `-1 + length`, where nothing is found, is one less than the length; then every position is behind.
abbrev pub behind : Option ℕ → ℕ → ℕ
behind none n = n - 1
behind (some start) n = start + n

-- A search before -1 finds nothing.
abbrev pub previous_of : (text query : Text) → Option ℕ → Option ℕ
previous_of text query none = none
previous_of text query (some start) = previous_text_match text query start

-- `(index + direction + count) % count`, from -1 as well; `count` is not 0 here.
abbrev pub moved_index : Direction → ℕ → Option ℕ → ℕ
moved_index forward count none = count % count
moved_index forward count (some index) = (index + 1 + count) % count
moved_index backward count none = (count - 2) % count
moved_index backward count (some index) = (index + count - 1) % count

abbrev pub moved_start : (text query : Text) → Direction → Summary → Option ℕ → Option ℕ
moved_start text query forward s start =
    or_found (index_from query text (behind start (length query))) s.first
moved_start text query backward s start = or_found (previous_of text query start) s.last

unfoldable pub move_find : (text query : Text) → Direction → Find → Find
unfolding summarize_text_matches previous_text_match
move_find text query direction f =
    let s = summarize_text_matches text query in
    if s.count == 0 || text_eq query [] then f else record {
      start = moved_start text query direction s f.start;
      index = some (moved_index direction s.count f.index);
    }

unfoldable pub run : (text query : Text) → List Direction → Find → Find
run text query [] f = f
run text query (direction ∷ directions) f =
    run text query directions (move_find text query direction f)

pub record TextRange : Type 0 where
  pub from : ℕ
  pub to : ℕ

abbrev pub range_at : (active_query : Text) → Option ℕ → Option TextRange
range_at active_query none = none
range_at active_query (some start) =
    some (record { from = start; to = start + length active_query })

-- `currentFindMatch`, by the query as it is typed.
unfoldable pub current_find_match : (active_query : Text) → Find → Option TextRange
current_find_match active_query f =
    if text_eq active_query [] then none else range_at active_query f.start

-- The search in a text, for a query, after some moves.
abbrev pub search : (lower : Text → Text) → (text query : Text) → List Direction → Find
search lower text query directions =
    run (lower text) (lower query) directions (open_find (lower text) (lower query))
