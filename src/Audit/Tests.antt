-- ===== src/Audit/Tests.antt =====
-- The export of the audit log at a concrete entry.
use head_control.Common.{none, some, [], ◌∷◌, ◌≡◌, refl, map}
use head_control.Text.{codes}
use head_control.Audit.{AuditEntry, AuditOutcome, columns, csv_row, double_quotes, export_csv}
use head_control.Audit.Csv.{read_csv-export_csv}
use head_control.Audit.Reader.{read_csv}

abbrev entry : AuditEntry
entry = record {
  id = 7;
  time = codes "2025-01-01T00:00:00Z";
  action = codes "node.rename";
  target_type = some (codes "node");
  target_id = some (codes "4");
  target_name = none;
  summary = some (codes "renamed to \"web\",\nthen back");
  outcome = AuditOutcome.ok;
  error_text = none;
  cli = none;
}

csv_row_test :
    csv_row entry
    ≡ codes
        "\"2025-01-01T00:00:00Z\",\"node.rename\",\"node\",\"4\",\"renamed to \"\"web\"\",\nthen back\",\"ok\",\"\",\"\""
unfolding csv_row double_quotes
csv_row_test = refl

read_csv-export_csv_example :
    read_csv (export_csv (entry ∷ []))
    ≡ some (
        (codes "time"
          ∷ codes "action"
          ∷ codes "targetType"
          ∷ codes "target"
          ∷ codes "summary"
          ∷ codes "outcome"
          ∷ codes "error"
          ∷ codes "cli"
          ∷ [])
        ∷ map columns (entry ∷ []))
read_csv-export_csv_example = read_csv-export_csv (entry ∷ [])

-- Other files: CRLF, a last line break, a quote in a field without quotes, text after a quote.
crlf_test :
    read_csv (codes "a,\"b\"\r\nc") ≡ some ((codes "a" ∷ codes "b" ∷ []) ∷ (codes "c" ∷ []) ∷ [])
unfolding read_csv
crlf_test = refl

last_break_test : read_csv (codes "a\r\n") ≡ some ((codes "a" ∷ []) ∷ [])
unfolding read_csv
last_break_test = refl

refused_test : (read_csv (codes "a\"b") ≡ none) × (read_csv (codes "\"a\"b") ≡ none)
unfolding read_csv
refused_test = (refl, refl)
