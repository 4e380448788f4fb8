-- ===== src/PolicyText.antt =====
-- The editor of the policy as a text, frontend/src/pages/AclPage.tsx: the page as a state machine.
-- Its events are the results of the query, changes of the text, and the answers of the check and of
-- the save, in any order. The backend's judgement of a text is part of the events.
mod Gated
mod Hints
mod Gate
mod Shown
mod Tests
use head_control.Common.{
  Bool, true, false, not, ◌&&◌, ◌||◌, Option, none, some, List, [], ◌∷◌, if◌then◌else◌,
}
use head_control.Text.{Text, codes, text_eq}
use head_control.Acl.Selector.{truthy}

-- `PolicyState`, the part that decides what the page does.
pub record PolicyState : Type 0 where
  pub policy : Text
  pub writable : Bool

pub record CheckResult : Type 0 where
  pub ok : Bool
  pub message : Text

pub record SaveRequest : Type 0 where
  pub policy : Text
  pub comment : Option Text

-- A check under way: its text, and the comment of the save that waits for it.
pub record Check : Type 0 where
  pub text : Text
  pub saves : Option Text

-- The notices of the page, in the order of its code.
pub data Toast : Type 0 where
  validation_failed saved_with_warning file_written applied save_failed version_loaded : Toast

pub record Page : Type 0 where
  pub state : Option PolicyState
  -- The text of the editor.
  pub doc : Text
  pub dirty : Bool
  pub checking : Option Check
  pub check_result : Option CheckResult
  pub save_modal : Bool
  pub comment : Text
  -- The policy that was put into the editor last.
  pub loaded_hash : Text
  pub pending : Bool
  -- What was sent, which texts a check has accepted, and what was said, the newest first.
  pub sent : List SaveRequest
  pub accepted : List Text
  pub toasts : List Toast

abbrev pub start : Page
start = record {
  state = none;
  doc = [];
  dirty = false;
  checking = none;
  check_result = none;
  save_modal = false;
  comment = [];
  loaded_hash = [];
  pending = false;
  sent = [];
  accepted = [];
  toasts = [];
}

-- What a save comes to.
pub data SaveAnswer : Type 0 where
  saved : Bool → Bool → SaveAnswer
  failed : SaveAnswer

pub data Event : Type 0 where
  fetched : PolicyState → Event
  -- A change of the text by the user, a snippet included.
  typed : Text → Event
  -- An older version has come, with its text if it has one.
  version_came : Option Text → Event
  check_clicked save_opened save_closed save_clicked : Event
  comment_typed : Text → Event
  -- The check accepts the text, or throws an error of a message.
  check_came : Option Text → Event
  save_came : SaveAnswer → Event

-- The listener of the editor, which hears of every change.
abbrev pub change : Text → Page → Page
change t p = record p { doc = t; dirty = true; check_result = none }

abbrev pub load_into : PolicyState → Page → Page
load_into s p = record (change s.policy p) { loaded_hash = s.policy; dirty = false }

abbrev pub effect_with : Option PolicyState → Bool → Page → Page
effect_with none b p = p
effect_with (some s) b p =
    if not b && (not (text_eq s.policy p.doc) && not (text_eq p.loaded_hash s.policy))
    then load_into s p
    else p

-- The effect that puts the policy of the query into an editor without edits.
unfoldable pub run_effect : Page → Page
run_effect p = effect_with p.state p.dirty p

abbrev pub is_checking : Option Check → Bool
is_checking none = false
is_checking (some k) = true

abbrev pub is_writable : Option PolicyState → Bool
is_writable none = false
is_writable (some s) = s.writable

-- `runCheck`, up to the answer; `comment` is that of the save that waits.
unfoldable pub begin_check : Option Text → Page → Page
begin_check comment p = record p { checking = some (record { text = p.doc; saves = comment }) }

-- `comment || undefined`
abbrev pub comment_of : Text → Option Text
comment_of c = truthy (some c)

-- `runCheck` and the rest of `doSave`, once the answer is there. The text is read again.
unfoldable pub check_done : Option Check → Option Text → Page → Page
check_done none r p = p
check_done (some k) none p =
    let p' : Page = record p {
      checking = none;
      check_result = some (record {
        ok = true;
        message = codes "Policy is valid against the live tailnet (users, nodes, tests all pass).";
      });
      accepted = k.text ∷ p.accepted;
    } in
    elim k.saves [
      | none ↦ p'
      | some c ↦ record p' {
        pending = true;
        sent = record { policy = p.doc; comment = comment_of c } ∷ p.sent;
      }
    ]
check_done (some k) (some message) p =
    let p' : Page = record p {
      checking = none;
      check_result = some (record { ok = false; message = message });
    } in
    elim k.saves [
      | none ↦ p'
      | some c ↦ record p' { save_modal = false; toasts = validation_failed ∷ p.toasts }
    ]

-- `res.warning` and `res.reloadPending`
abbrev success_toast : Bool → Bool → Toast
success_toast warning reload =
    if warning then saved_with_warning else if reload then file_written else applied

unfoldable pub save_done : SaveAnswer → Page → Page
save_done (saved warning reload) p = record p {
  save_modal = false;
  comment = [];
  dirty = false;
  pending = false;
  toasts = success_toast warning reload ∷ p.toasts;
}
save_done failed p = record p { pending = false; toasts = save_failed ∷ p.toasts }

abbrev pub modal_shown : Page → Bool
modal_shown p = p.save_modal && elim p.state [ some s ↦ true | none ↦ false ]

unfoldable pub handle : Page → Event → Page
unfolding begin_check check_done save_done
handle p (fetched s) = record p { state = some s }
handle p (typed t) = change t p
handle p (version_came none) = p
handle p (version_came (some t)) = record (change t p) { toasts = version_loaded ∷ p.toasts }
handle p check_clicked = if not (is_checking p.checking) then begin_check none p else p
handle p save_opened = if p.dirty && is_writable p.state then record p { save_modal = true } else p
handle p save_closed = record p { save_modal = false }
handle p (comment_typed t) = if modal_shown p then record p { comment = t } else p
handle p save_clicked =
    if modal_shown p && (not p.pending && not (is_checking p.checking))
    then begin_check (some p.comment) p
    else p
handle p (check_came r) = check_done p.checking r p
handle p (save_came r) = if p.pending then save_done r p else p

unfoldable pub step : Page → Event → Page
unfolding handle run_effect
step p e = run_effect (handle p e)

unfoldable pub run : Page → List Event → Page
unfolding step
run p [] = p
run p (e ∷ es) = run (step p e) es
