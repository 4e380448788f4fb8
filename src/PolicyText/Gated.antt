-- ===== src/PolicyText/Gated.antt =====
-- A save that waits for its check: what stays true of the text, over the events of the page.
use head_control.Common.{
  Option-cases, Bool, true, false, not, ◌&&◌, Option, none, some, List, [], ◌∷◌, ◌≡◌, ◌⊎◌, inl, inr,
  refl, arith, All, if◌then◌else◌,
}
use head_control.Text.{Text, includes, text_eq}
use head_control.Text.Equal.{text_eq_iff}
use head_control.PolicyText.{
  is_writable, load_into, Check, Page, PolicyState, Event, SaveRequest, SaveAnswer, handle, step,
  run, start, run_effect, effect_with, check_done, save_done, begin_check, is_checking, modal_shown,
}

-- The comment of the save that waits for a check.
abbrev pub waiting : Option Check → Option Text
waiting none = none
waiting (some k) = k.saves

-- No text comes into the editor while a save waits for its check.
abbrev pub Undisturbed : Page → Event → Type 0
Undisturbed p (Event.typed t) = waiting p.checking ≡ none
Undisturbed p (Event.version_came (some t)) = waiting p.checking ≡ none
Undisturbed p e = Unit

abbrev pub Quiet : Page → List Event → Type 0
Quiet p [] = Unit
Quiet p (e ∷ es) = Undisturbed p e × Quiet (step p e) es

-- A save that waits has the text of the editor checked, which holds edits.
abbrev pub WaitsFor : Option Check → Text → Bool → Bool → Type 0
WaitsFor none doc dirty pending = Unit
WaitsFor (some k) doc dirty pending =
    (k.saves ≡ none) ⊎ ((k.text ≡ doc) × (dirty ≡ true) × (pending ≡ false))

abbrev pub AllAccepted : List Text → List SaveRequest → Type 0
AllAccepted ts qs = All (λ q. includes q.policy ts ≡ true) qs

pub record IsGated (p : Page) : Type 0 where
  pub modal_dirty : p.save_modal ≡ true → p.dirty ≡ true
  pub waits : WaitsFor p.checking p.doc p.dirty p.pending
  pub sent_accepted : AllAccepted p.accepted p.sent

idle_WaitsFor :
    (k : Option Check) (doc : Text) (dirty pending : Bool)
    → waiting k ≡ none
    → WaitsFor k doc dirty pending
idle_WaitsFor none doc d q h = tt
idle_WaitsFor (some k) doc d q h = inl h

clean_waiting :
    (k : Option Check) (doc : Text) (dirty pending : Bool)
    → WaitsFor k doc dirty pending
    → (dirty ≡ false) ⊎ (pending ≡ true)
    → waiting k ≡ none
clean_waiting none doc d q w h = refl
clean_waiting (some k) doc d q (inl e) h = e
clean_waiting (some k) doc d q (inr w) h = absurd (ground arith)

AllAccepted-cons :
    (t : Text) (ts : List Text) (qs : List SaveRequest)
    → AllAccepted ts qs
    → AllAccepted (t ∷ ts) qs
unfolding includes
AllAccepted-cons t ts [] h = tt
AllAccepted-cons t ts (q ∷ qs) h = (ground arith, AllAccepted-cons t ts qs h.1)

if_IsGated :
    (b : Bool) (p q : Page) → (b ≡ true → IsGated q) → IsGated p → IsGated (if b then q else p)
if_IsGated true p q f g = f refl
if_IsGated false p q f g = g

effect_with-IsGated :
    (o : Option PolicyState) (b : Bool) (p : Page)
    → p.dirty ≡ b
    → IsGated p
    → IsGated (effect_with o b p)
effect_with-IsGated none b p e g = g
effect_with-IsGated (some s) true p e g = g
effect_with-IsGated (some s) false p e g =
    if_IsGated (not (text_eq s.policy p.doc) && not (text_eq p.loaded_hash s.policy)) p
      (load_into s p)
      (λ h. record {
        modal_dirty = λ m. ground (arith, g.modal_dirty m);
        waits =
            idle_WaitsFor p.checking s.policy false p.pending
              (clean_waiting p.checking p.doc p.dirty p.pending g.waits (inl e));
        sent_accepted = g.sent_accepted;
      })
      g

effect-IsGated : (p : Page) → IsGated p → IsGated (run_effect p)
unfolding run_effect
effect-IsGated p g = effect_with-IsGated p.state p.dirty p refl g

waiting_text :
    (k : Check) (p : Page) (c : Text)
    → WaitsFor (some k) p.doc p.dirty p.pending
    → k.saves ≡ some c
    → includes p.doc (k.text ∷ p.accepted) ≡ true
unfolding includes
waiting_text k p c (inl e) h = absurd (ground arith)
waiting_text k p c (inr w) h = ground (arith, text_eq_iff k.text p.doc)

check_done-IsGated :
    (k : Option Check) (r : Option Text) (p : Page)
    → p.checking ≡ k
    → IsGated p
    → IsGated (check_done k r p)
unfolding check_done
check_done-IsGated none r p e g = g
check_done-IsGated (some k) none p e g = elim (Option-cases k.saves) [
  | inl s ↦ rw s (record { modal_dirty = g.modal_dirty; waits = tt; sent_accepted = kept })
  | inr s ↦ rw (s.1) (record {
    modal_dirty = g.modal_dirty;
    waits = tt;
    sent_accepted = (waiting_text k p s.0 (rw e at (g.waits)) s.1, kept);
  })
]
  where
    kept : AllAccepted (k.text ∷ p.accepted) p.sent
    kept = AllAccepted-cons k.text p.accepted p.sent g.sent_accepted
check_done-IsGated (some k) (some m) p e g = elim (Option-cases k.saves) [
  | inl s ↦
      rw s (record { modal_dirty = g.modal_dirty; waits = tt; sent_accepted = g.sent_accepted })
  | inr s ↦ rw (s.1) (record {
    modal_dirty = λ h. absurd (ground arith);
    waits = tt;
    sent_accepted = g.sent_accepted;
  })
]

save_done-IsGated :
    (r : SaveAnswer) (p : Page) → p.pending ≡ true → IsGated p → IsGated (save_done r p)
unfolding save_done
save_done-IsGated (SaveAnswer.saved w l) p e g = record {
  modal_dirty = λ h. absurd (ground arith);
  waits =
      idle_WaitsFor p.checking p.doc false false
        (clean_waiting p.checking p.doc p.dirty p.pending g.waits (inr e));
  sent_accepted = g.sent_accepted;
}
save_done-IsGated SaveAnswer.failed p e g = record {
  modal_dirty = g.modal_dirty;
  waits =
      idle_WaitsFor p.checking p.doc p.dirty false
        (clean_waiting p.checking p.doc p.dirty p.pending g.waits (inr e));
  sent_accepted = g.sent_accepted;
}

handle-IsGated : (p : Page) (e : Event) → Undisturbed p e → IsGated p → IsGated (handle p e)
unfolding handle begin_check
handle-IsGated p (Event.fetched s) u g = record {
  modal_dirty = g.modal_dirty;
  waits = g.waits;
  sent_accepted = g.sent_accepted;
}
handle-IsGated p (Event.typed t) u g = record {
  modal_dirty = λ h. refl;
  waits = idle_WaitsFor p.checking t true p.pending u;
  sent_accepted = g.sent_accepted;
}
handle-IsGated p (Event.version_came none) u g = g
handle-IsGated p (Event.version_came (some t)) u g = record {
  modal_dirty = λ h. refl;
  waits = idle_WaitsFor p.checking t true p.pending u;
  sent_accepted = g.sent_accepted;
}
handle-IsGated p Event.check_clicked u g =
    if_IsGated (not (is_checking p.checking)) p (begin_check none p)
      (λ h. record {
        modal_dirty = g.modal_dirty;
        waits = inl refl;
        sent_accepted = g.sent_accepted;
      })
      g
handle-IsGated p Event.save_opened u g =
    if_IsGated (p.dirty && is_writable p.state) p (record p { save_modal = true })
      (λ h. record {
        modal_dirty = λ m. ground arith;
        waits = g.waits;
        sent_accepted = g.sent_accepted;
      })
      g
handle-IsGated p Event.save_closed u g = record {
  modal_dirty = λ h. absurd (ground arith);
  waits = g.waits;
  sent_accepted = g.sent_accepted;
}
handle-IsGated p (Event.comment_typed t) u g =
    if_IsGated (modal_shown p) p (record p { comment = t })
      (λ h. record {
        modal_dirty = g.modal_dirty;
        waits = g.waits;
        sent_accepted = g.sent_accepted;
      })
      g
handle-IsGated p Event.save_clicked u g =
    if_IsGated (modal_shown p && (not p.pending && not (is_checking p.checking))) p
      (begin_check (some p.comment) p)
      (λ h. record {
        modal_dirty = g.modal_dirty;
        waits = inr (refl, g.modal_dirty (ground arith), ground arith);
        sent_accepted = g.sent_accepted;
      })
      g
handle-IsGated p (Event.check_came r) u g = check_done-IsGated p.checking r p refl g
handle-IsGated p (Event.save_came r) u g =
    if_IsGated p.pending p (save_done r p) (λ h. save_done-IsGated r p h g) g

pub start-IsGated : IsGated start
start-IsGated = record { modal_dirty = λ h. absurd (ground arith); waits = tt; sent_accepted = tt }

pub run-IsGated : (p : Page) (es : List Event) → Quiet p es → IsGated p → IsGated (run p es)
unfolding run step
run-IsGated p [] u g = g
run-IsGated p (e ∷ es) u g =
    run-IsGated (step p e) es u.1 (effect-IsGated (handle p e) (handle-IsGated p e u.0 g))
