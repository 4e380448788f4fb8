-- ===== src/Acl/Page/Frame.antt =====
-- What the effect and the toasts of the page of frontend/src/pages/acls/AclsBetaPage.tsx leave alone.
use head_control.Common.{
  ℕ, Bool, true, false, not, ◌&&◌, ◌≡◌, refl, Option, none, some, if◌then◌else◌,
}
use head_control.Text.{Text, text_eq}
use head_control.Acl.Draft.{PolicyModel}
use head_control.Acl.Page.{
  Page, Event, SaveResult, is_dirty, adopt_model, run_effect, handle, step, success_toast,
  warning_toast, reset_to,
}

-- Two states of the page that differ in the draft and its keys only.
pub record SameFrame (p q : Page) : Type 0 where
  pub model : q.model ≡ p.model
  pub save_open : q.save_open ≡ p.save_open
  pub comment : q.comment ≡ p.comment
  pub conflict : q.conflict ≡ p.conflict
  pub discard_open : q.discard_open ≡ p.discard_open
  pub saving : q.saving ≡ p.saving
  pub reloads : q.reloads ≡ p.reloads

pub SameFrame-refl : (p : Page) → SameFrame p p
SameFrame-refl p = record {
  model = refl;
  save_open = refl;
  comment = refl;
  conflict = refl;
  discard_open = refl;
  saving = refl;
  reloads = refl;
}

module _ (key_at : ℕ → Text) where
  if-SameFrame :
      (b : Bool) (m : PolicyModel) (p : Page) → SameFrame p (if b then reset_to key_at m p else p)
  if-SameFrame true m p = record {
    model = refl;
    save_open = refl;
    comment = refl;
    conflict = refl;
    discard_open = refl;
    saving = refl;
    reloads = refl;
  }
  if-SameFrame false m p = SameFrame-refl p

  adopt_model-SameFrame : (o : Option PolicyModel) (p : Page) → SameFrame p (adopt_model key_at o p)
  unfolding adopt_model
  adopt_model-SameFrame none p = SameFrame-refl p
  adopt_model-SameFrame (some m) p =
      if-SameFrame (not (is_dirty p.draft) && not (text_eq m.hash p.draft.base_hash)) m p

  pub step-SameFrame : (p : Page) (e : Event) → SameFrame (handle key_at p e) (step key_at p e)
  unfolding step run_effect
  step-SameFrame p e = adopt_model-SameFrame (handle key_at p e).model (handle key_at p e)

success_toast-SameFrame : (a b : Bool) (p : Page) → SameFrame p (success_toast a b p)
success_toast-SameFrame false b p = record {
  model = refl;
  save_open = refl;
  comment = refl;
  conflict = refl;
  discard_open = refl;
  saving = refl;
  reloads = refl;
}
success_toast-SameFrame true true p = record {
  model = refl;
  save_open = refl;
  comment = refl;
  conflict = refl;
  discard_open = refl;
  saving = refl;
  reloads = refl;
}
success_toast-SameFrame true false p = record {
  model = refl;
  save_open = refl;
  comment = refl;
  conflict = refl;
  discard_open = refl;
  saving = refl;
  reloads = refl;
}

pub warning_toast-SameFrame :
    (o : Option Text) (r : SaveResult) (p : Page) → SameFrame p (warning_toast o r p)
warning_toast-SameFrame (some w) r p = record {
  model = refl;
  save_open = refl;
  comment = refl;
  conflict = refl;
  discard_open = refl;
  saving = refl;
  reloads = refl;
}
warning_toast-SameFrame none r p = success_toast-SameFrame r.policy_changed r.reload_pending p
