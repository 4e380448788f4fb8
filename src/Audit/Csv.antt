-- ===== src/Audit/Csv.antt =====
-- The exported file is read back by a reader of CSV.
use head_control.Common.{
  ◌≢◌, All, inr, inl, false, true, Bool-cases, ℕ, some, List, [], ◌∷◌, ◌++◌, ◌≡◌, refl, arith, ◌==◌,
  map, ap, sym, ◌∙◌, append_assoc, append-nil,
}
use head_control.Text.{Text, codes, join}
use head_control.Audit.{AuditEntry, columns, csv_row, double_quotes, esc, export_csv, header}
use head_control.Audit.Reader.{
  fresh, quoted, closing, plain, Reading, fresh, plain, quoted, closing, put_unit, read_from,
  read_csv,
}

read_quoted_unit :
    (c : ℕ) (r : Reading) (rest : Text)
    → (c == b'"') ≡ false
    → read_from quoted r (c ∷ rest) ≡ read_from quoted (put_unit c r) rest
unfolding read_from
read_quoted_unit c r rest h = rw (h, read_from) refl

read_quoted_pair :
    (c : ℕ) (r : Reading) (rest : Text)
    → (c == b'"') ≡ true
    → read_from quoted r (c ∷ c ∷ rest) ≡ read_from quoted (put_unit c r) rest
unfolding read_from
read_quoted_pair c r rest h = rw (h, read_from) (rw (h, read_from) refl)

put_unit_assoc :
    (c : ℕ) (r : Reading) (s : Text)
    → record (put_unit c r) { field = (r.field ++ c ∷ []) ++ s }
      ≡ record r { field = r.field ++ (c ∷ s) }
put_unit_assoc c r s = ap (λ (f : Text). record r { field = f }) (append_assoc r.field (c ∷ []) s)

-- A field in quotes gives back its units.
read-double_quotes :
    (s : Text) (r : Reading) (rest : Text)
    → read_from quoted r (double_quotes s ++ (b'"' ∷ rest))
      ≡ read_from closing (record r { field = r.field ++ s }) rest
unfolding read_from double_quotes
read-double_quotes [] r rest = rw append-nil refl
read-double_quotes (c ∷ s) r rest =
    let ih =
      read-double_quotes s (put_unit c r) rest
      ∙ ap (λ (q : Reading). read_from closing q rest) (put_unit_assoc c r s) in
    elim (Bool-cases (c == b'"')) [
      | inl e ↦ rw e (read_quoted_pair c r (double_quotes s ++ (b'"' ∷ rest)) e ∙ ih)
      | inr e ↦ rw e (read_quoted_unit c r (double_quotes s ++ (b'"' ∷ rest)) e ∙ ih)
    ]

read-esc :
    (s : Text) (row : List Text) (rows : List (List Text)) (rest : Text)
    → read_from fresh (record { field = []; row = row; rows = rows }) (esc s ++ rest)
      ≡ read_from closing (record { field = s; row = row; rows = rows }) rest
unfolding read_from esc
read-esc s row rows rest =
    rw (append_assoc (double_quotes s) (b'"' ∷ []) rest)
      (read-double_quotes s (record { field = []; row = row; rows = rows }) rest)

read_comma :
    (f : Text) (row : List Text) (rows : List (List Text)) (more rest : Text)
    → read_from fresh
        (record { field = []; row = row; rows = rows })
        ((esc f ++ (b',' ∷ more)) ++ rest)
      ≡ read_from fresh (record { field = []; row = row ++ f ∷ []; rows = rows }) (more ++ rest)
unfolding read_from
read_comma f row rows more rest =
    rw (append_assoc (esc f) (b',' ∷ more) rest) (read-esc f row rows (b',' ∷ (more ++ rest)))

-- The fields of a row that is not empty, and what follows it: nothing, or another row.
read-fields :
    (f : Text) (fs row : List Text) (rows : List (List Text)) (rest : Text)
    → (r : Reading) × (read_from fresh
          (record { field = []; row = row; rows = rows })
          (join (codes ",") (map esc (f ∷ fs)) ++ rest)
        ≡ read_from closing r rest)
      × (r.row ++ r.field ∷ [] ≡ row ++ f ∷ fs)
      × (r.rows ≡ rows)
unfolding join
read-fields f [] row rows rest =
    (record { field = f; row = row; rows = rows }, read-esc f row rows rest, refl, refl)
read-fields f (g ∷ fs) row rows rest =
    let more = join (codes ",") (map esc (g ∷ fs)) in
    let ih = read-fields g fs (row ++ f ∷ []) rows rest in
    (ih.0, read_comma f row rows more rest ∙ ih.1, ih.2 ∙ append_assoc row (f ∷ []) (g ∷ fs), ih.3)

-- The rows that follow, each after a line feed.
abbrev lines : List (List Text) → Text
lines [] = []
lines (fs ∷ rows) = codes "\n" ++ (join (codes ",") (map esc fs) ++ lines rows)

abbrev IsRow : List Text → Type 0
IsRow fs = fs ≢ []

-- What a reader that has closed a field reads from the rows that follow.
read-lines :
    (r : Reading) (rows : List (List Text))
    → All IsRow rows
    → read_from closing r (lines rows) ≡ some ((r.rows ++ (r.row ++ r.field ∷ []) ∷ []) ++ rows)
unfolding read_from
read-lines r [] h = rw append-nil refl
read-lines r ([] ∷ rows) h = absurd (h.0 refl)
read-lines r ((f ∷ fs) ∷ rows) h =
    let got = read-fields f fs [] (r.rows ++ (r.row ++ r.field ∷ []) ∷ []) (lines rows) in
    let ih = read-lines got.0 rows h.1 in
    got.1
    ∙ ih
    ∙ ap some (
        rw got.2
          (rw got.3 (append_assoc (r.rows ++ (r.row ++ r.field ∷ []) ∷ []) ((f ∷ fs) ∷ []) rows)))

-- The names of the columns, but for the end of the last.
abbrev names : Reading
names = record {
  field = codes "cli";
  row =
      codes "time"
      ∷ codes "action"
      ∷ codes "targetType"
      ∷ codes "target"
      ∷ codes "summary"
      ∷ codes "outcome"
      ∷ codes "error"
      ∷ [];
  rows = [];
}

read-header :
    (s : Text)
    → read_from fresh (record { field = []; row = []; rows = [] }) (header ++ s)
      ≡ read_from plain names s
unfolding read_from
read-header s = refl

-- The header is read up to its last field, which the next line feed or the end closes.
read_plain-lines :
    (r : Reading) (rows : List (List Text))
    → read_from plain r (lines rows) ≡ read_from closing r (lines rows)
unfolding read_from
read_plain-lines r [] = refl
read_plain-lines r (fs ∷ rows) = refl

csv_row-columns : (e : AuditEntry) → csv_row e ≡ join (codes ",") (map esc (columns e))
unfolding csv_row
csv_row-columns e = refl

join-lines :
    (s : Text) (es : List AuditEntry)
    → join (codes "\n") (s ∷ map csv_row es) ≡ s ++ lines (map columns es)
unfolding join
join-lines s [] = sym (append-nil s)
join-lines s (e ∷ es) =
    ap (λ (t : Text). s ++ (10 ∷ t))
      (join-lines (csv_row e) es
        ∙ ap (λ (t : Text). t ++ lines (map columns es)) (csv_row-columns e))

export_csv-lines :
    (entries : List AuditEntry) → export_csv entries ≡ header ++ lines (map columns entries)
unfolding export_csv
export_csv-lines es = join-lines header es

columns-IsRow : (es : List AuditEntry) → All IsRow (map columns es)
unfolding columns
columns-IsRow [] = tt
columns-IsRow (e ∷ es) = (λ h. ground arith, columns-IsRow es)

-- A reader of CSV with the fields and quotes of RFC 4180 that ends a record at a line feed, with or
-- without a carriage return before it, gets from the exported file the names of the columns and, for
-- each entry in its order, its eight columns as they are, whatever units they hold.
pub read_csv-export_csv :
    (entries : List AuditEntry)
    → read_csv (export_csv entries)
      ≡ some (
          (codes "time"
            ∷ codes "action"
            ∷ codes "targetType"
            ∷ codes "target"
            ∷ codes "summary"
            ∷ codes "outcome"
            ∷ codes "error"
            ∷ codes "cli"
            ∷ [])
          ∷ map columns entries)
unfolding read_csv
read_csv-export_csv es = rw (export_csv-lines es) (
    read-header (lines (map columns es))
    ∙ read_plain-lines names (map columns es)
    ∙ read-lines names (map columns es) (columns-IsRow es))
