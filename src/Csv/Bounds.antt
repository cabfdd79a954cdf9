-- ===== src/Csv/Bounds.antt =====
-- The limits of frontend/src/csv.ts hold of every table.
use zen_fm.Base.{
  ℕ, ◌≤◌, Bool, true, false, List, [], ◌∷◌, length, take, All, All-append, length-append,
  length-take_le, arith, Text, ltb,
}
use zen_fm.Csv.{
  State, push_field, push_row, round, scan, finish, start, parse_csv, max_rows, max_columns,
  max_cell_characters, max_characters, separator_for,
}

abbrev pub IsShortCell : Text → Type 0
IsShortCell cell = length cell ≤ max_cell_characters

abbrev pub IsShortRow : List Text → Type 0
IsShortRow row = (length row ≤ max_columns) × All IsShortCell row

pub record IsBounded (s : State) : Type 0 where
  pub few : length s.rows ≤ max_rows
  pub short_rows : All IsShortRow s.rows
  pub short_row : IsShortRow s.row

push_field-IsBounded : (s : State) → IsBounded s → IsBounded (push_field s)
unfolding push_field
push_field-IsBounded s v = ground (
  arith,
  length-append s.row (take max_cell_characters s.field ∷ []),
  length-take_le max_cell_characters s.field,
  All-append IsShortCell s.row (take max_cell_characters s.field ∷ []),
)

push_row-IsBounded : (s : State) → IsBounded s → IsBounded (push_row s)
unfolding push_row push_field
push_row-IsBounded s v =
    let w = push_field-IsBounded s v in
    let t = push_field s in
    ground (
      arith,
      w.short_row,
      length-append s.rows (t.row ∷ []),
      All-append IsShortRow s.rows (t.row ∷ []),
    )

round-IsBounded :
    (separator c : ℕ) (rest : Text) (s : State)
    → IsBounded s
    → IsBounded (round separator c rest s).state
unfolding round
round-IsBounded separator c rest s v =
    ground (arith, push_field-IsBounded s v, push_row-IsBounded s v)

scan-IsBounded :
    (separator : ℕ) (skip : Bool) (input : Text) (s : State)
    → IsBounded s
    → IsBounded (scan separator skip input s)
unfolding scan
scan-IsBounded separator skip [] s v = v
scan-IsBounded separator true (c ∷ rest) s v = scan-IsBounded separator false rest s v
scan-IsBounded separator false (c ∷ rest) s v =
    let w = round-IsBounded separator c rest s v in
    let r = round separator c rest s in
    ground (arith, w, scan-IsBounded separator r.skip rest r.state w)

finish-IsBounded : (s : State) → IsBounded s → IsBounded (finish s)
unfolding finish
finish-IsBounded s v = ground (arith, push_row-IsBounded s v)

start-IsBounded : (truncated : Bool) → IsBounded (start truncated)
start-IsBounded truncated = record {
  few = omega arith;
  short_rows = tt;
  short_row = (omega arith, tt);
}

-- Whatever the text, its table has at most 200 rows, each with at most 50 cells of at most 4096
-- characters.
pub parse_csv_bounds :
    (source : Text)
    → (length (parse_csv source).rows ≤ max_rows) × All IsShortRow (parse_csv source).rows
unfolding parse_csv
parse_csv_bounds source =
    let input = take max_characters source in
    let b = ltb (length input) (length source) in
    let v =
      finish-IsBounded _
        (scan-IsBounded (separator_for input) false input (start b) (start-IsBounded b)) in
    (v.few, v.short_rows)
