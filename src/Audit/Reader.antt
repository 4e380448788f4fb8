-- ===== src/Audit/Reader.antt =====
-- A reader of CSV, written without the export. Fields and quotes are those of RFC 4180; a record ends
-- at CRLF, as there, or at a line feed alone, which RFC 4180 does not have and the export writes.
use head_control.Common.{ℕ, Option, none, some, List, [], ◌∷◌, ◌++◌, ◌==◌, if◌then◌else◌}
use head_control.Text.{Text}

-- Before a field, in a field without quotes, in quotes, after a quote that may be doubled, and after
-- a carriage return, which a line feed must follow.
pub data Mode : Type 0 where
  fresh plain quoted closing returned : Mode

-- What is read: the field so far, the fields of the row before it, and the rows before that.
pub record Reading : Type 0 where
  pub field : Text
  pub row : List Text
  pub rows : List (List Text)

abbrev pub put_unit : ℕ → Reading → Reading
put_unit c r = record r { field = r.field ++ c ∷ [] }

abbrev end_field : Reading → Reading
end_field r = record r { field = []; row = r.row ++ r.field ∷ [] }

abbrev end_row : Reading → Reading
end_row r = record { field = []; row = []; rows = r.rows ++ (r.row ++ r.field ∷ []) ∷ [] }

-- A comma or a line feed ends the field, whatever its form, and a carriage return is about to;
-- `none` is any other unit.
abbrev ended : ℕ → Reading → Option (Mode × Reading)
ended c r =
    if c == b','
    then some (fresh, end_field r)
    else if c == 10
    then some (fresh, end_row r)
    else if c == 13
    then some (returned, r)
    else none

-- The next mode and what is read then.
abbrev read_unit : Mode → ℕ → Reading → Option (Mode × Reading)
read_unit quoted c r = if c == b'"' then some (closing, r) else some (quoted, put_unit c r)
read_unit fresh c r =
    if c == b'"'
    then some (quoted, r)
    else elim (ended c r) [ some next ↦ some next | none ↦ some (plain, put_unit c r) ]
read_unit plain c r =
    if c == b'"'
    then none
    else elim (ended c r) [ some next ↦ some next | none ↦ some (plain, put_unit c r) ]
read_unit closing c r = if c == b'"' then some (quoted, put_unit c r) else ended c r
read_unit returned c r = if c == 10 then some (fresh, end_row r) else none

-- The end of the text ends the last row, unless that has ended and no other has begun.
abbrev last_rows : Reading → List Text → List (List Text)
last_rows r [] = r.rows
last_rows r (f ∷ fs) = (end_row r).rows

unfoldable pub read_from : Mode → Reading → Text → Option (List (List Text))
read_from quoted r [] = none
read_from returned r [] = none
read_from fresh r [] = some (last_rows r r.row)
read_from plain r [] = some (end_row r).rows
read_from closing r [] = some (end_row r).rows
read_from m r (c ∷ s) = elim (read_unit m c r) [ none ↦ none | some (m', r') ↦ read_from m' r' s ]

-- The rows of a text, each with its fields.
unfoldable pub read_csv : Text → Option (List (List Text))
unfolding read_from
read_csv s = read_from fresh (record { field = []; row = []; rows = [] }) s
