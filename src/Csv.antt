-- ===== src/Csv.antt =====
-- frontend/src/csv.ts: the CSV reader of the file preview, with its limits. Text is a list of
-- UTF-16 code units, so `length` and `slice` count what JavaScript counts.
pub mod Bounds
pub mod RoundTrip
use zen_fm.Base.{
  ℕ, suc, ◌+◌, Bool, true, false, not, ◌&&◌, ◌||◌, List, [], ◌∷◌, ◌++◌, ltb, leb, ◌==◌,
  if◌then◌else◌, length, take, Text,
}

abbrev pub max_characters : ℕ
max_characters = 1_000_000

abbrev pub max_rows : ℕ
max_rows = 200

abbrev pub max_columns : ℕ
max_columns = 50

abbrev pub max_cell_characters : ℕ
max_cell_characters = 4_096

abbrev pub quote : ℕ
quote = 0x22

abbrev pub comma : ℕ
comma = 0x2c

abbrev pub semicolon : ℕ
semicolon = 0x3b

abbrev pub newline : ℕ
newline = 10

abbrev pub carriage_return : ℕ
carriage_return = 13

-- `input[index + 1] === character`, over the text behind the index.
abbrev pub next_is : ℕ → Text → Bool
next_is c [] = false
next_is c (d ∷ rest) = d == c

-- The text before the first line break, which is `\n` with one `\r` before it.
unfoldable pub first_line : Text → Text
first_line [] = []
first_line (c ∷ rest) =
    let line = c ∷ first_line rest in
    if c == newline || (c == carriage_return && next_is newline rest) then [] else line

unfoldable pub count_of : ℕ → Text → ℕ
count_of c [] = 0
count_of c (d ∷ rest) = if d == c then suc (count_of c rest) else count_of c rest

-- `split(',').length` is one more than the number of commas.
unfoldable pub separator_for : Text → ℕ
unfolding first_line count_of
separator_for source =
    let line = first_line source in
    let commas = count_of comma line + 1 in
    let semicolons = count_of semicolon line + 1 in
    if ltb commas semicolons then semicolon else comma

-- The variables of the loop.
pub record State : Type 0 where
  pub rows : List (List Text)
  pub row : List Text
  pub field : Text
  pub quoted : Bool
  pub truncated : Bool

unfoldable pub push_field : State → State
push_field s = record s {
  row =
      if ltb (length s.row) max_columns
      then s.row ++ take max_cell_characters s.field ∷ []
      else s.row;
  field = [];
  truncated =
      s.truncated
      || not (ltb (length s.row) max_columns)
      || ltb max_cell_characters (length s.field);
}

abbrev file_row : State → State
file_row s = record s {
  rows = if ltb (length s.rows) max_rows then s.rows ++ s.row ∷ [] else s.rows;
  row = [];
  truncated = s.truncated || not (ltb (length s.rows) max_rows);
}

unfoldable pub push_row : State → State
push_row s = file_row (push_field s)

abbrev append : ℕ → State → State
append c s = record s { field = s.field ++ c ∷ [] }

-- What one round leaves: the variables, whether the next character is skipped, and whether the
-- loop is left.
pub record Round : Type 0 where
  pub state : State
  pub skip : Bool
  pub stop : Bool

abbrev go_on : State → Bool → Round
go_on s skip = record { state = s; skip = skip; stop = false }

abbrev quote_round : Text → State → Round
quote_round rest s =
    if s.quoted && next_is quote rest
    then go_on (append quote s) true
    else go_on (record s { quoted = not s.quoted }) false

abbrev line_round : Bool → Text → State → Round
line_round skip rest s =
    if leb max_rows (length s.rows)
    then record {
      state = record s { truncated = s.truncated || ltb (if skip then 1 else 0) (length rest) };
      skip = skip;
      stop = true;
    }
    else go_on s skip

-- One round at the character `c`, with the text behind it.
unfoldable pub round : ℕ → ℕ → Text → State → Round
round separator c rest s =
    if c == quote
    then quote_round rest s
    else if c == separator && not s.quoted
    then go_on (push_field s) false
    else if (c == newline || c == carriage_return) && not s.quoted
    then line_round (c == carriage_return && next_is newline rest) rest (push_row s)
    else go_on (append c s) false

-- The loop over the input; `skip` says that the round before has advanced the index once more.
unfoldable pub scan : ℕ → Bool → Text → State → State
scan separator skip [] s = s
scan separator true (c ∷ rest) s = scan separator false rest s
scan separator false (c ∷ rest) s =
    let r = round separator c rest s in
    elim r.stop [ true ↦ r.state | false ↦ scan separator r.skip rest r.state ]

abbrev pub is_empty {ℓ} : {A : Type ℓ} → List A → Bool
is_empty [] = true
is_empty (x ∷ xs) = false

unfoldable pub finish : State → State
finish s = if not (is_empty s.field) || not (is_empty s.row) then push_row s else s

pub record Table : Type 0 where
  pub rows : List (List Text)
  pub truncated : Bool

abbrev pub start : Bool → State
start truncated = record { rows = []; row = []; field = []; quoted = false; truncated = truncated }

unfoldable pub parse_csv : Text → Table
unfolding scan finish round push_row push_field separator_for
parse_csv source =
    let input = take max_characters source in
    let separator = separator_for input in
    let s = finish (scan separator false input (start (ltb (length input) (length source)))) in
    record { rows = s.rows; truncated = s.truncated }
