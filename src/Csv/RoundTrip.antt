-- ===== src/Csv/RoundTrip.antt =====
-- Reading back what is written with every cell in quotes.
use zen_fm.Base.{
  ℕ, suc, ◌+◌, ◌≤◌, ◌<◌, ◌≡◌, refl, ap, ◌∙◌, ◌⊎◌, inl, inr, Bool, true, false, List, [], ◌∷◌, ◌++◌,
  length, All, length-append, take_all, append_assoc, append-nil, arith, Text, ltb, lt→ltb, ◌==◌,
  if◌then◌else◌,
}
use zen_fm.Csv.{
  State, push_field, push_row, round, scan, finish, parse_csv, max_rows, max_columns,
  max_cell_characters, max_characters, separator_for, quote, newline, comma, semicolon, next_is,
}
use zen_fm.Csv.Bounds.{IsShortCell, IsShortRow}

-- A cell between quotes, with its own quotes doubled.
escape : Text → Text
escape [] = []
escape (c ∷ cell) = if c == quote then quote ∷ quote ∷ escape cell else c ∷ escape cell

write_cell : Text → Text
unfolding escape
write_cell cell = quote ∷ (escape cell ++ quote ∷ [])

write_cells : ℕ → Text → List Text → Text
unfolding write_cell
write_cells separator cell [] = write_cell cell
write_cells separator cell (next ∷ cells) =
    write_cell cell ++ (separator ∷ write_cells separator next cells)

-- Every row ends in a newline.
write_row : ℕ → List Text → Text
unfolding write_cells
write_row separator [] = newline ∷ []
write_row separator (cell ∷ cells) = write_cells separator cell cells ++ newline ∷ []

unfoldable pub write_rows : ℕ → List (List Text) → Text
unfolding write_row
write_rows separator [] = []
write_rows separator (row ∷ rows) = write_row separator row ++ write_rows separator rows

abbrev IsSeparator : ℕ → Type 0
IsSeparator separator = (separator ≡ comma) ⊎ (separator ≡ semicolon)

le→not_ltb : (a b : ℕ) → b ≤ a → ltb a b ≡ false
le→not_ltb a b h = ground arith

ltb_self : (n : ℕ) → ltb n n ≡ false
ltb_self n = ground arith

separator_for-IsSeparator :
    (text : Text) (separator : ℕ) → separator_for text ≡ separator → IsSeparator separator
unfolding separator_for
separator_for-IsSeparator text separator h = ground arith

abbrev reading : List (List Text) → List Text → Text → Bool → State
reading rows row field quoted = record {
  rows = rows;
  row = row;
  field = field;
  quoted = quoted;
  truncated = false;
}

-- Inside the quotes the loop gathers the cell, and leaves the quotes at the closing one.
scan-escape :
    (separator : ℕ) (cell rest : Text) (rows : List (List Text)) (row : List Text) (field : Text)
    → next_is quote rest ≡ false
    → scan separator false (escape cell ++ quote ∷ rest) (reading rows row field true)
      ≡ scan separator false rest (reading rows row (field ++ cell) false)
unfolding scan round escape
scan-escape separator [] rest rows row field h = rw (append-nil field) (ground arith)
scan-escape separator (c ∷ cell) rest rows row field h =
    let ih = scan-escape separator cell rest rows row (field ++ c ∷ []) h in
    ground (arith, ih, append_assoc field (c ∷ []) cell)

scan-write_cell :
    (separator : ℕ) (cell rest : Text) (rows : List (List Text)) (row : List Text)
    → next_is quote rest ≡ false
    → scan separator false (write_cell cell ++ rest) (reading rows row [] false)
      ≡ scan separator false rest (reading rows row cell false)
unfolding scan round write_cell
scan-write_cell separator cell rest rows row h =
    let e = scan-escape separator cell rest rows row [] h in
    rw (append_assoc (escape cell) (quote ∷ []) rest) (ground (arith, e))

scan-separator :
    (separator : ℕ) (rest : Text) (rows : List (List Text)) (row : List Text) (cell : Text)
    → IsSeparator separator
    → length row < max_columns
    → IsShortCell cell
    → scan separator false (separator ∷ rest) (reading rows row cell false)
      ≡ scan separator false rest (reading rows (row ++ cell ∷ []) [] false)
unfolding scan round push_field
scan-separator separator rest rows row cell s h k =
    ground (arith, take_all max_cell_characters cell k)

abbrev HasRoom : List (List Text) → Text → Type 0
HasRoom rows rest = (length rows + 1 < max_rows) ⊎ ((length rows + 1 ≡ max_rows) × (rest ≡ []))

push_row-reading :
    (rows : List (List Text)) (row : List Text) (cell : Text)
    → length row < max_columns
    → IsShortCell cell
    → length rows < max_rows
    → push_row (reading rows row cell false) ≡ reading (rows ++ (row ++ cell ∷ []) ∷ []) [] [] false
unfolding push_row push_field
push_row-reading rows row cell h k m =
    rw
      (
        lt→ltb (length row) max_columns h,
        lt→ltb (length rows) max_rows m,
        le→not_ltb max_cell_characters (length cell) k,
        take_all max_cell_characters cell k,
      )
      refl

scan-newline :
    (separator : ℕ) (rest : Text) (rows : List (List Text)) (row : List Text) (cell : Text)
    → IsSeparator separator
    → length row < max_columns
    → IsShortCell cell
    → HasRoom rows rest
    → scan separator false (newline ∷ rest) (reading rows row cell false)
      ≡ scan separator false rest (reading (rows ++ (row ++ cell ∷ []) ∷ []) [] [] false)
unfolding scan round
scan-newline separator rest rows row cell s h k (inl room) = ground (
  arith,
  push_row-reading rows row cell h k (omega arith),
  length-append rows ((row ++ cell ∷ []) ∷ []),
)
scan-newline separator rest rows row cell s h k (inr (full, e)) = rw e (
    ground (
      arith,
      push_row-reading rows row cell h k (omega arith),
      length-append rows ((row ++ cell ∷ []) ∷ []),
    ))

scan-write_cells :
    (separator : ℕ) (cell : Text) (cells : List Text) (rest : Text) (rows : List (List Text))
    (row : List Text)
    → IsSeparator separator
    → length row + length cells < max_columns
    → All IsShortCell (cell ∷ cells)
    → HasRoom rows rest
    → scan separator false
        (write_cells separator cell cells ++ newline ∷ rest)
        (reading rows row [] false)
      ≡ scan separator false rest (reading (rows ++ (row ++ cell ∷ cells) ∷ []) [] [] false)
unfolding write_cells
scan-write_cells separator cell [] rest rows row s h k room =
    scan-write_cell separator cell (newline ∷ rest) rows row refl
    ∙ scan-newline separator rest rows row cell s (omega arith) k.0 room
scan-write_cells separator cell (next ∷ cells) rest rows row s h k room =
    let more = write_cells separator next cells in
    rw (append_assoc (write_cell cell) (separator ∷ more) (newline ∷ rest)) (
      scan-write_cell separator cell (separator ∷ (more ++ newline ∷ rest)) rows row (ground arith)
      ∙ scan-separator separator (more ++ newline ∷ rest) rows row cell s (omega arith) k.0
      ∙ scan-write_cells separator next cells rest rows (row ++ cell ∷ []) s
          (omega (arith, length-append row (cell ∷ []))) k.1 room
      ∙ ap (λ r. scan separator false rest (reading (rows ++ r ∷ []) [] [] false))
          (append_assoc row (cell ∷ []) (next ∷ cells)))

-- A row that the reader keeps whole.
abbrev pub IsWritable : List Text → Type 0
IsWritable row = (0 < length row) × IsShortRow row

room-write_rows :
    (separator : ℕ) (todo rows : List (List Text))
    → length rows + suc (length todo) ≤ max_rows
    → HasRoom rows (write_rows separator todo)
unfolding write_rows
room-write_rows separator [] rows h = ground arith
room-write_rows separator (row ∷ todo) rows h = inl (omega arith)

scan-write_rows :
    (separator : ℕ) (todo rows : List (List Text))
    → IsSeparator separator
    → All IsWritable todo
    → length rows + length todo ≤ max_rows
    → scan separator false (write_rows separator todo) (reading rows [] [] false)
      ≡ reading (rows ++ todo) [] [] false
unfolding write_rows write_row scan
scan-write_rows separator [] rows s h k = rw (append-nil rows)
scan-write_rows separator ([] ∷ todo) rows s h k = absurd (omega (arith, h.0.0))
scan-write_rows separator ((cell ∷ cells) ∷ todo) rows s h k =
    let rest = write_rows separator todo in
    let one : scan separator false (write_cells separator cell cells ++ newline ∷ rest)
          (reading rows [] [] false)
        ≡ scan separator false rest (reading (rows ++ (cell ∷ cells) ∷ []) [] [] false) =
      scan-write_cells separator cell cells rest rows [] s (omega arith) h.0.1.1
        (room-write_rows separator todo rows k) in
    rw (append_assoc (write_cells separator cell cells) (newline ∷ []) rest) (
      one
      ∙ scan-write_rows separator todo (rows ++ (cell ∷ cells) ∷ []) s h.1
          (omega (arith, length-append rows ((cell ∷ cells) ∷ [])))
      ∙ ap (λ r. reading r [] [] false) (append_assoc rows ((cell ∷ cells) ∷ []) todo))

-- A table within the limits is read back as it was written, and not reported as truncated. The
-- separator is the one that the reader guesses from the first line of the written text.
pub parse_csv-write_rows :
    (separator : ℕ) (rows : List (List Text))
    → All IsWritable rows
    → length rows ≤ max_rows
    → length (write_rows separator rows) ≤ max_characters
    → separator_for (write_rows separator rows) ≡ separator
    → parse_csv (write_rows separator rows) ≡ record { rows = rows; truncated = false }
unfolding parse_csv finish
parse_csv-write_rows separator rows h k short guessed =
    let text = write_rows separator rows in
    let s = separator_for-IsSeparator text separator guessed in
    rw
      (
        take_all max_characters text short,
        guessed,
        ltb_self (length text),
        scan-write_rows separator rows [] s h (omega arith),
      )
      refl
