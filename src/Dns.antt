-- ===== src/Dns.antt =====
-- The extra records of frontend/src/pages/DnsPage.tsx: the card as a state machine over the records
-- of the child `Records`. Its events are the results of the query, what the user does in the
-- card and in the dialog of a conflict, and the answers to a save; they may come in any order. The
-- child `Server` is the part of the backend that takes a save.
mod Records
mod Taken
mod Server
mod Valid
mod Sent
mod Kept
mod Stale
mod Tests
unfoldable pub use Records.*
use head_control.Common.{
  ℕ, zero, suc, Bool, true, false, not, ◌&&◌, ◌||◌, Option, none, some, List, [], ◌∷◌, ◌++◌, leb,
  ltb, ◌==◌, if◌then◌else◌, length, all,
}
use head_control.Text.{Text, codes, text_eq, includes, split, has_unit, is_digit, is_number}
use head_control.Text.Sort.{text_lt}
use head_control.Text.Equal.{text_eq_iff}

-- `DnsState`, the part that the card reads.
pub record DnsState : Type 0 where
  pub records_enabled : Bool
  pub records_writable : Bool
  pub records : Option (List DnsRecord)
  pub records_hash : Option Text

pub record SaveRequest : Type 0 where
  pub records : List DnsRecord
  pub expected_hash : Text
  pub force : Bool

pub data Toast : Type 0 where
  records_saved save_failed : Toast

pub record Card : Type 0 where
  pub state : Option DnsState
  pub draft : List DnsRecord
  pub dirty : Bool
  pub conflict : Bool
  pub pending : Bool
  -- What was sent, and what was said, the newest first.
  pub sent : List SaveRequest
  pub toasts : List Toast

abbrev pub start : Card
start = record {
  state = none;
  draft = [];
  dirty = false;
  conflict = false;
  pending = false;
  sent = [];
  toasts = [];
}

-- What a save comes to: the records, an `ApiError` of a status, or another error.
pub data Answer : Type 0 where
  saved broken : Answer
  refused : ℕ → Answer

pub data Event : Type 0 where
  fetched : DnsState → Event
  record_added save_clicked conflict_closed reload_clicked overwrite_clicked : Event
  name_typed value_typed : ℕ → Text → Event
  type_chosen : ℕ → RecordType → Event
  record_deleted : ℕ → Event
  answer_came : Answer → Event

abbrev pub records_of : Option DnsState → Option (List DnsRecord)
records_of none = none
records_of (some d) = d.records

-- `data?.recordsEnabled`, without which the card has no buttons
abbrev pub is_enabled : Option DnsState → Bool
is_enabled none = false
is_enabled (some d) = d.records_enabled

abbrev pub is_writable : Option DnsState → Bool
is_writable none = false
is_writable (some d) = d.records_enabled && d.records_writable

-- `data.recordsHash ?? ""`
abbrev pub hash_of : Option DnsState → Text
hash_of none = []
hash_of (some d) = elim d.records_hash [ some h ↦ h | none ↦ [] ]

abbrev sync_with : Option (List DnsRecord) → Bool → Card → Card
sync_with (some rs) false c = record c { draft = rs }
sync_with _ _ c = c

-- The effect that copies the records of the query while there are no edits. It runs where the
-- records or `dirty` have changed, and would change nothing where they have not.
unfoldable pub sync : Card → Card
sync c = sync_with (records_of c.state) c.dirty c

abbrev edit : List DnsRecord → Card → Card
edit rs c = if is_writable c.state then record c { draft = rs; dirty = true } else c

-- `next[i] = …`, for a row that is there
unfoldable pub set_row : (DnsRecord → DnsRecord) → ℕ → List DnsRecord → List DnsRecord
set_row f i [] = []
set_row f zero (r ∷ rs) = f r ∷ rs
set_row f (suc i) (r ∷ rs) = r ∷ set_row f i rs

-- `draft.filter((_, j) => j !== i)`
unfoldable pub drop_row : ℕ → List DnsRecord → List DnsRecord
drop_row i [] = []
drop_row zero (r ∷ rs) = rs
drop_row (suc i) (r ∷ rs) = r ∷ drop_row i rs

abbrev edit_row : ℕ → List DnsRecord → Card → Card
edit_row i rs c = if ltb i (length c.draft) then edit rs c else c

abbrev pub is_none {ℓ} : {A : Type ℓ} → Option A → Bool
is_none none = true
is_none (some x) = false

abbrev pub is_empty {ℓ} : {A : Type ℓ} → List A → Bool
is_empty [] = true
is_empty (x ∷ xs) = false

-- The button is neither disabled nor loading.
unfoldable pub save_enabled : Card → Bool
unfolding first_error dupes
save_enabled c =
    c.dirty
    && (is_none (first_error c.draft)
        && (is_empty (dupes c.draft) && (is_writable c.state && not c.pending)))

abbrev request : Bool → Card → SaveRequest
request force c = record { records = c.draft; expected_hash = hash_of c.state; force = force }

unfoldable pub do_save : Bool → Card → Card
do_save force c = record c { sent = request force c ∷ c.sent; pending = true }

-- `onSuccess` and `onError` of the save
unfoldable pub finish : Answer → Card → Card
finish saved c = record c {
  dirty = false;
  conflict = false;
  pending = false;
  toasts = records_saved ∷ c.toasts;
}
finish (refused status) c =
    if status == 409
    then record c { conflict = true; pending = false }
    else record c { pending = false; toasts = save_failed ∷ c.toasts }
finish broken c = record c { pending = false; toasts = save_failed ∷ c.toasts }

abbrev pub dialog_shown : Card → Bool
dialog_shown c = is_enabled c.state && c.conflict

unfoldable pub handle : Card → Event → Card
unfolding set_row drop_row save_enabled do_save finish
handle c (fetched d) = record c { state = some d }
handle c record_added = edit (c.draft ++ record { name = []; type = a; value = [] } ∷ []) c
handle c (name_typed i t) = edit_row i (set_row (λ r. record r { name = t }) i c.draft) c
handle c (type_chosen i t) = edit_row i (set_row (λ r. record r { type = t }) i c.draft) c
handle c (value_typed i t) = edit_row i (set_row (λ r. record r { value = t }) i c.draft) c
handle c (record_deleted i) = edit_row i (drop_row i c.draft) c
handle c save_clicked = if save_enabled c then do_save false c else c
handle c (answer_came r) = if c.pending then finish r c else c
handle c conflict_closed = if dialog_shown c then record c { conflict = false } else c
handle c reload_clicked = if dialog_shown c then record c { conflict = false; dirty = false } else c
handle c overwrite_clicked = if dialog_shown c && not c.pending then do_save true c else c

unfoldable pub step : Card → Event → Card
unfolding sync handle
step c e = sync (handle c e)

unfoldable pub run : Card → List Event → Card
unfolding step
run c [] = c
run c (e ∷ es) = run (step c e) es
