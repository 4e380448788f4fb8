-- ===== src/Keys/Lockout.antt =====
-- The tab of API keys, ApiKeysTab of frontend/src/pages/KeysPage.tsx with ConfirmDialog of
-- frontend/src/components/common.tsx, and the backend's guard of the key that the UI itself uses
-- (handleExpireAPIKey and handleDeleteAPIKey of internal/server/handlers_keys.go). Whether headscale
-- carries a request out is part of the events.
mod Guarded
mod Kept
mod Tests
use head_control.Common.{
  Bool, true, false, not, ◌&&◌, Option, none, some, List, [], ◌∷◌, if◌then◌else◌,
}
use head_control.Text.{Text, text_eq}

pub data Action : Type 0 where
  expire delete : Action

pub data Modal : Type 0 where
  closed create : Modal
  -- The dialogs "expire" and "delete", and those with "-lockout", for the key of a prefix.
  confirm lockout : Action → Text → Modal

-- What `doExpire` and `doDelete` send.
pub record KeyRequest : Type 0 where
  pub prefix : Text
  pub confirm_self_lockout : Bool

pub record Tab : Type 0 where
  pub modal : Modal
  -- The text of the input of the dialog.
  pub typed : Text
  pub expiring : Option KeyRequest
  pub deleting : Option KeyRequest
  -- The requests, and the prefixes of the keys that are expired or deleted, the newest first.
  pub sent : List KeyRequest
  pub gone : List Text

abbrev pub start : Tab
start = record {
  modal = closed;
  typed = [];
  expiring = none;
  deleting = none;
  sent = [];
  gone = [];
}

abbrev same_action : Action → Action → Bool
same_action expire expire = true
same_action delete delete = true
same_action _ _ = false

-- The dialogs stand at four places, and the input lives as long as the dialog of its place.
abbrev pub same_place : Modal → Modal → Bool
same_place (confirm a k) (confirm b l) = same_action a b
same_place (lockout a k) (lockout b l) = same_action a b
same_place _ _ = false

abbrev pub set_modal : Modal → Tab → Tab
set_modal m t = record t { modal = m; typed = if same_place t.modal m then t.typed else [] }

abbrev pub request_of : Action → Tab → Option KeyRequest
request_of expire t = t.expiring
request_of delete t = t.deleting

abbrev pub put_request : Action → Option KeyRequest → Tab → Tab
put_request expire o t = record t { expiring = o }
put_request delete o t = record t { deleting = o }

abbrev pub is_idle : Option KeyRequest → Bool
is_idle none = true
is_idle (some q) = false

-- `doExpire` and `doDelete`, up to the answer
abbrev pub send : Action → KeyRequest → Tab → Tab
send a q t = put_request a (some q) (record t { sent = q ∷ t.sent })

-- `blocked` of the dialog whose text to type is the prefix
unfoldable pub blocked : Text → Text → Bool
unfolding text_eq
blocked prefix typed = not (text_eq prefix []) && not (text_eq typed prefix)

pub data Reply : Type 0 where
  done self_lockout refused : Reply

abbrev pub is_guarded : Action → Text → Text → Bool
is_guarded expire own prefix = not (text_eq prefix []) && text_eq prefix own
is_guarded delete own prefix = text_eq prefix own

-- An expiry wants a prefix, as the tab sends no id.
abbrev has_target : Action → Text → Bool
has_target expire prefix = not (text_eq prefix [])
has_target delete prefix = true

-- The backend's answer, where `own` is the prefix of the UI's key.
unfoldable pub reply : Text → Action → Bool → KeyRequest → Reply
unfolding text_eq
reply own a works q =
    if is_guarded a own q.prefix && not q.confirm_self_lockout
    then self_lockout
    else if has_target a q.prefix && works
    then done
    else refused

abbrev pub received : Action → KeyRequest → Reply → Tab → Tab
received a q done t = set_modal closed (record t { gone = q.prefix ∷ t.gone })
received a q self_lockout t = set_modal (lockout a q.prefix) t
received a q refused t = t

abbrev pub answer : Text → Action → Bool → Option KeyRequest → Tab → Tab
answer own a works none t = t
answer own a works (some q) t = received a q (reply own a works q) (put_request a none t)

abbrev pub press_confirm : Modal → Tab → Tab
press_confirm (confirm a k) t =
    if is_idle (request_of a t)
    then send a (record { prefix = k; confirm_self_lockout = false }) t
    else t
press_confirm (lockout a k) t =
    if is_idle (request_of a t) && not (blocked k t.typed)
    then send a (record { prefix = k; confirm_self_lockout = true }) t
    else t
press_confirm _ t = t

abbrev pub write : Modal → Text → Tab → Tab
write (lockout a k) s t = record t { typed = s }
write _ s t = t

pub data Event : Type 0 where
  opened : Action → Text → Event
  create_opened cancelled confirmed : Event
  typed_in : Text → Event
  -- The answer to the request of an action has come; the flag is whether headscale has done it.
  answered : Action → Bool → Event

unfoldable pub step : Text → Tab → Event → Tab
unfolding reply blocked
step own t (opened a k) = set_modal (confirm a k) t
step own t create_opened = set_modal create t
step own t cancelled = set_modal closed t
step own t confirmed = press_confirm t.modal t
step own t (typed_in s) = write t.modal s t
step own t (answered a works) = answer own a works (request_of a t) t

unfoldable pub run : Text → Tab → List Event → Tab
unfolding step
run own t [] = t
run own t (e ∷ es) = run own (step own t e) es
