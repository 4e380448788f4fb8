-- ===== src/Keys/Lockout/Guarded.antt =====
-- What guards the key that the UI itself uses, over every list of events.
use head_control.Common.{
  Bool, true, false, not, ◌&&◌, Option, none, some, List, [], ◌∷◌, ◌≡◌, refl, arith, All,
  if◌then◌else◌,
}
use head_control.Text.{Text}
use head_control.Text.Equal.{text_eq_iff}
use head_control.Keys.Lockout.{
  Action, Event, KeyRequest, Modal, Reply, Tab, expire, delete, closed, create, confirm, lockout,
  done, self_lockout, refused, start, step, run, reply, blocked, request_of, put_request, send,
  answer, received, press_confirm, set_modal, is_idle, write,
}

-- A request that confirms names the key.
abbrev pub ConfirmsOwn : Text → KeyRequest → Type 0
ConfirmsOwn own q = q.confirm_self_lockout ≡ true → q.prefix ≡ own

abbrev pub Each : (KeyRequest → Type 0) → Option KeyRequest → Type 0
Each P none = Unit
Each P (some q) = P q

abbrev pub WarnsOf : Text → Modal → Type 0
WarnsOf own (lockout a k) = k ≡ own
WarnsOf own m = Unit

pub record IsGuarded (own : Text) (t : Tab) : Type 0 where
  pub modal_own : WarnsOf own t.modal
  pub expiring_own : Each (ConfirmsOwn own) t.expiring
  pub deleting_own : Each (ConfirmsOwn own) t.deleting
  pub sent_own : All (ConfirmsOwn own) t.sent

module _ (own : Text) where
  send-IsGuarded :
      (a : Action) (q : KeyRequest) (t : Tab)
      → ConfirmsOwn own q
      → IsGuarded own t
      → IsGuarded own (send a q t)
  send-IsGuarded expire q t c g = record {
    modal_own = g.modal_own;
    expiring_own = c;
    deleting_own = g.deleting_own;
    sent_own = (c, g.sent_own);
  }
  send-IsGuarded delete q t c g = record {
    modal_own = g.modal_own;
    expiring_own = g.expiring_own;
    deleting_own = c;
    sent_own = (c, g.sent_own);
  }

  if_IsGuarded :
      (b : Bool) (t u : Tab)
      → IsGuarded own u
      → IsGuarded own t
      → IsGuarded own (if b then u else t)
  if_IsGuarded true t u f g = f
  if_IsGuarded false t u f g = g

  press-IsGuarded :
      (m : Modal) (t : Tab) → WarnsOf own m → IsGuarded own t → IsGuarded own (press_confirm m t)
  press-IsGuarded closed t w g = g
  press-IsGuarded create t w g = g
  press-IsGuarded (confirm a k) t w g =
      if_IsGuarded (is_idle (request_of a t)) t
        (send a (record { prefix = k; confirm_self_lockout = false }) t)
        (send-IsGuarded a (record { prefix = k; confirm_self_lockout = false }) t
          (λ h. absurd (ground arith)) g)
        g
  press-IsGuarded (lockout a k) t w g =
      if_IsGuarded (is_idle (request_of a t) && not (blocked k t.typed)) t
        (send a (record { prefix = k; confirm_self_lockout = true }) t)
        (send-IsGuarded a (record { prefix = k; confirm_self_lockout = true }) t (λ h. w) g) g

  write-IsGuarded : (m : Modal) (s : Text) (t : Tab) → IsGuarded own t → IsGuarded own (write m s t)
  write-IsGuarded closed s t g = g
  write-IsGuarded create s t g = g
  write-IsGuarded (confirm a k) s t g = g
  write-IsGuarded (lockout a k) s t g = record {
    modal_own = g.modal_own;
    expiring_own = g.expiring_own;
    deleting_own = g.deleting_own;
    sent_own = g.sent_own;
  }

  set_modal-IsGuarded :
      (m : Modal) (t : Tab) → WarnsOf own m → IsGuarded own t → IsGuarded own (set_modal m t)
  set_modal-IsGuarded m t w g = record {
    modal_own = w;
    expiring_own = g.expiring_own;
    deleting_own = g.deleting_own;
    sent_own = g.sent_own;
  }

  put-IsGuarded : (a : Action) (t : Tab) → IsGuarded own t → IsGuarded own (put_request a none t)
  put-IsGuarded expire t g = record {
    modal_own = g.modal_own;
    expiring_own = tt;
    deleting_own = g.deleting_own;
    sent_own = g.sent_own;
  }
  put-IsGuarded delete t g = record {
    modal_own = g.modal_own;
    expiring_own = g.expiring_own;
    deleting_own = tt;
    sent_own = g.sent_own;
  }

  reply-own :
      (a : Action) (works : Bool) (q : KeyRequest)
      → reply own a works q ≡ self_lockout
      → q.prefix ≡ own
  unfolding reply
  reply-own expire works q h = ground (arith, text_eq_iff q.prefix own)
  reply-own delete works q h = ground (arith, text_eq_iff q.prefix own)

  received-IsGuarded :
      (a : Action) (q : KeyRequest) (r : Reply) (t : Tab)
      → (r ≡ self_lockout → q.prefix ≡ own)
      → IsGuarded own t
      → IsGuarded own (received a q r t)
  received-IsGuarded a q done t w g = record {
    modal_own = tt;
    expiring_own = g.expiring_own;
    deleting_own = g.deleting_own;
    sent_own = g.sent_own;
  }
  received-IsGuarded a q self_lockout t w g = set_modal-IsGuarded (lockout a q.prefix) t (w refl) g
  received-IsGuarded a q refused t w g = g

  answer-IsGuarded :
      (a : Action) (works : Bool) (o : Option KeyRequest) (t : Tab)
      → IsGuarded own t
      → IsGuarded own (answer own a works o t)
  answer-IsGuarded a works none t g = g
  answer-IsGuarded a works (some q) t g =
      received-IsGuarded a q (reply own a works q) (put_request a none t) (reply-own a works q)
        (put-IsGuarded a t g)

  pub step-IsGuarded : (t : Tab) (e : Event) → IsGuarded own t → IsGuarded own (step own t e)
  unfolding step
  step-IsGuarded t (Event.opened a k) g = set_modal-IsGuarded (confirm a k) t tt g
  step-IsGuarded t Event.create_opened g = set_modal-IsGuarded create t tt g
  step-IsGuarded t Event.cancelled g = set_modal-IsGuarded closed t tt g
  step-IsGuarded t Event.confirmed g = press-IsGuarded t.modal t g.modal_own g
  step-IsGuarded t (Event.typed_in s) g = write-IsGuarded t.modal s t g
  step-IsGuarded t (Event.answered a works) g = answer-IsGuarded a works (request_of a t) t g

  run-IsGuarded_from : (t : Tab) (es : List Event) → IsGuarded own t → IsGuarded own (run own t es)
  unfolding run
  run-IsGuarded_from t [] g = g
  run-IsGuarded_from t (e ∷ es) g = run-IsGuarded_from (step own t e) es (step-IsGuarded t e g)

pub start-IsGuarded : (own : Text) → IsGuarded own start
start-IsGuarded own = record { modal_own = tt; expiring_own = tt; deleting_own = tt; sent_own = tt }

-- A request confirms that the UI locks itself out only where it names the key that the UI uses,
-- whatever the user does and the backend answers, in any order.
pub run-ConfirmsOwn : (own : Text) (es : List Event) → All (ConfirmsOwn own) (run own start es).sent
run-ConfirmsOwn own es = (run-IsGuarded_from own start es (start-IsGuarded own)).sent_own
