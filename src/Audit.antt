-- ===== src/Audit.antt =====
-- The export of the audit log as CSV, exportCSV of frontend/src/pages/SettingsPage.tsx.
mod Reader
mod Csv
mod Tests
use head_control.Common.{ℕ, Option, none, some, List, [], ◌∷◌, ◌++◌, ◌==◌, if◌then◌else◌, map}
use head_control.Text.{Text, codes, join}
use head_control.Client.{text_or}
use head_control.Format.{first_of}

pub data AuditOutcome : Type 0 where
  ok error : AuditOutcome

abbrev pub outcome_text : AuditOutcome → Text
outcome_text ok = codes "ok"
outcome_text error = codes "error"

pub record AuditEntry : Type 0 where
  pub id : ℕ
  pub time : Text
  pub action : Text
  pub target_type : Option Text
  pub target_id : Option Text
  pub target_name : Option Text
  pub summary : Option Text
  pub outcome : AuditOutcome
  pub error_text : Option Text
  pub cli : Option Text

-- `s.replaceAll('"', '""')`
unfoldable pub double_quotes : Text → Text
double_quotes [] = []
double_quotes (c ∷ s) = let rest = double_quotes s in if c == b'"' then c ∷ c ∷ rest else c ∷ rest

unfoldable pub esc : Text → Text
unfolding double_quotes
esc s = b'"' ∷ (double_quotes s ++ codes "\"")

-- The columns of an entry.
unfoldable pub columns : AuditEntry → List Text
columns e =
    e.time
    ∷ e.action
    ∷ text_or e.target_type []
    ∷ first_of (e.target_name ∷ e.target_id ∷ []) []
    ∷ text_or e.summary []
    ∷ outcome_text e.outcome
    ∷ text_or e.error_text []
    ∷ text_or e.cli []
    ∷ []

unfoldable pub csv_row : AuditEntry → Text
unfolding columns esc join
csv_row e = join (codes ",") (map esc (columns e))

abbrev pub header : Text
header = codes "time,action,targetType,target,summary,outcome,error,cli"

unfoldable pub export_csv : List AuditEntry → Text
unfolding csv_row join
export_csv entries = join (codes "\n") (header ∷ map csv_row entries)
