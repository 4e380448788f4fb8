-- ===== src/Keys/Lockout/Kept.antt =====
-- The key that the UI itself uses stays, unless the user types its prefix.
use head_control.Common.{
  sym, Bool, true, false, not, ◌&&◌, Option, none, some, List, [], ◌∷◌, ◌≡◌, ◌≢◌, refl, arith, All,
  if◌then◌else◌,
}
use head_control.Text.{Text, includes, text_eq}
use head_control.Text.Equal.{text_eq_iff}
use head_control.Keys.Lockout.{
  same_place, Action, Event, KeyRequest, Modal, Reply, Tab, expire, delete, closed, create, confirm,
  lockout, done, self_lockout, refused, start, step, run, reply, blocked, request_of, put_request,
  send, answer, received, press_confirm, set_modal, is_idle, write,
}
use head_control.Keys.Lockout.Guarded.{IsGuarded, WarnsOf, step-IsGuarded, start-IsGuarded}

abbrev IsPlain : Option KeyRequest → Type 0
IsPlain none = Unit
IsPlain (some q) = q.confirm_self_lockout ≡ false

record IsKept (own : Text) (t : Tab) : Type 0 where
  untyped : t.typed ≢ own
  plain_expiring : IsPlain t.expiring
  plain_deleting : IsPlain t.deleting
  kept : includes own t.gone ≡ false

-- The event is not the typing of the prefix.
abbrev pub Spares : Text → Event → Type 0
Spares own (Event.typed_in s) = s ≢ own
Spares own e = Unit

module _ (own : Text) (named : own ≢ []) where
  send-IsKept :
      (a : Action) (q : KeyRequest) (t : Tab)
      → q.confirm_self_lockout ≡ false
      → IsKept own t
      → IsKept own (send a q t)
  send-IsKept expire q t c k = record {
    untyped = k.untyped;
    plain_expiring = c;
    plain_deleting = k.plain_deleting;
    kept = k.kept;
  }
  send-IsKept delete q t c k = record {
    untyped = k.untyped;
    plain_expiring = k.plain_expiring;
    plain_deleting = c;
    kept = k.kept;
  }

  blocked-own : (k s : Text) → k ≡ own → s ≢ own → blocked k s ≡ true
  unfolding blocked
  blocked-own k s h n = ground (arith, text_eq_iff k [], text_eq_iff s k)

  if_IsKept :
      (b : Bool) (t u : Tab)
      → (b ≡ true → IsKept own u)
      → IsKept own t
      → IsKept own (if b then u else t)
  if_IsKept true t u f g = f refl
  if_IsKept false t u f g = g

  press-IsKept :
      (m : Modal) (t : Tab) → WarnsOf own m → IsKept own t → IsKept own (press_confirm m t)
  press-IsKept closed t w k = k
  press-IsKept create t w k = k
  press-IsKept (confirm a p) t w k =
      let q : KeyRequest = record { prefix = p; confirm_self_lockout = false } in
      if_IsKept (is_idle (request_of a t)) t (send a q t) (λ h. send-IsKept a q t refl k) k
  press-IsKept (lockout a p) t w k =
      let q : KeyRequest = record { prefix = p; confirm_self_lockout = true } in
      let stops = blocked-own p t.typed w k.untyped in
      if_IsKept (is_idle (request_of a t) && not (blocked p t.typed)) t (send a q t)
        (λ h. absurd (ground arith)) k

  write-IsKept :
      (m : Modal) (s : Text) (t : Tab) → s ≢ own → IsKept own t → IsKept own (write m s t)
  write-IsKept closed s t n k = k
  write-IsKept create s t n k = k
  write-IsKept (confirm a p) s t n k = k
  write-IsKept (lockout a p) s t n k = record {
    untyped = n;
    plain_expiring = k.plain_expiring;
    plain_deleting = k.plain_deleting;
    kept = k.kept;
  }

  set_modal-IsKept : (m : Modal) (t : Tab) → IsKept own t → IsKept own (set_modal m t)
  set_modal-IsKept m t k = record {
    untyped = still (same_place t.modal m);
    plain_expiring = k.plain_expiring;
    plain_deleting = k.plain_deleting;
    kept = k.kept;
  }
    where
      still : (b : Bool) → (if b then t.typed else []) ≢ own
      still true = k.untyped
      still false = λ e. named (sym e)

  put-IsKept : (a : Action) (t : Tab) → IsKept own t → IsKept own (put_request a none t)
  put-IsKept expire t k = record {
    untyped = k.untyped;
    plain_expiring = tt;
    plain_deleting = k.plain_deleting;
    kept = k.kept;
  }
  put-IsKept delete t k = record {
    untyped = k.untyped;
    plain_expiring = k.plain_expiring;
    plain_deleting = tt;
    kept = k.kept;
  }

  reply_spares :
      (a : Action) (works : Bool) (q : KeyRequest)
      → q.confirm_self_lockout ≡ false
      → reply own a works q ≡ done
      → text_eq q.prefix own ≡ false
  unfolding reply
  reply_spares expire works q c h =
      ground (arith, text_eq_iff q.prefix own, text_eq_iff q.prefix [])
  reply_spares delete works q c h = ground (arith, text_eq_iff q.prefix own)

  received-IsKept :
      (a : Action) (q : KeyRequest) (r : Reply) (t : Tab)
      → (r ≡ done → text_eq q.prefix own ≡ false)
      → IsKept own t
      → IsKept own (received a q r t)
  unfolding includes
  received-IsKept a q done t w k =
      set_modal-IsKept closed (record t { gone = q.prefix ∷ t.gone })
        (record {
          untyped = k.untyped;
          plain_expiring = k.plain_expiring;
          plain_deleting = k.plain_deleting;
          kept = rw (w refl) (k.kept);
        })
  received-IsKept a q self_lockout t w k = set_modal-IsKept (lockout a q.prefix) t k
  received-IsKept a q refused t w k = k

  answer-IsKept :
      (a : Action) (works : Bool) (o : Option KeyRequest) (t : Tab)
      → IsPlain o
      → IsKept own t
      → IsKept own (answer own a works o t)
  answer-IsKept a works none t p k = k
  answer-IsKept a works (some q) t p k =
      received-IsKept a q (reply own a works q) (put_request a none t) (reply_spares a works q p)
        (put-IsKept a t k)

  IsPlain-request_of : (a : Action) (t : Tab) → IsKept own t → IsPlain (request_of a t)
  IsPlain-request_of expire t k = k.plain_expiring
  IsPlain-request_of delete t k = k.plain_deleting

  step-IsKept :
      (t : Tab) (e : Event)
      → WarnsOf own t.modal
      → Spares own e
      → IsKept own t
      → IsKept own (step own t e)
  unfolding step
  step-IsKept t (Event.opened a p) w s k = set_modal-IsKept (confirm a p) t k
  step-IsKept t Event.create_opened w s k = set_modal-IsKept create t k
  step-IsKept t Event.cancelled w s k = set_modal-IsKept closed t k
  step-IsKept t Event.confirmed w s k = press-IsKept t.modal t w k
  step-IsKept t (Event.typed_in x) w s k = write-IsKept t.modal x t s k
  step-IsKept t (Event.answered a works) w s k =
      answer-IsKept a works (request_of a t) t (IsPlain-request_of a t k) k

  run-IsKept :
      (t : Tab) (es : List Event)
      → All (Spares own) es
      → IsGuarded own t
      → IsKept own t
      → IsKept own (run own t es)
  unfolding run
  run-IsKept t [] s g k = k
  run-IsKept t (e ∷ es) s g k =
      run-IsKept (step own t e) es s.1 (step-IsGuarded own t e g)
        (step-IsKept t e g.modal_own s.0 k)

-- The key that the UI uses is neither expired nor deleted through the tab unless the user types its
-- prefix, whatever else the user does and the backend answers, in any order; the prefix is not
-- empty.
pub includes-gone :
    (own : Text) (es : List Event)
    → own ≢ []
    → All (Spares own) es
    → includes own (run own start es).gone ≡ false
unfolding includes
includes-gone own es named s =
    (run-IsKept own named start es s (start-IsGuarded own) (record {
      untyped = λ e. named (sym e);
      plain_expiring = tt;
      plain_deleting = tt;
      kept = refl;
    })).kept
