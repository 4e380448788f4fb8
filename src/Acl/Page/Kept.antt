-- ===== src/Acl/Page/Kept.antt =====
-- What happens to unsaved changes: nothing, but by the user's own decision.
use head_control.Common.{ℕ, true, List, [], ◌∷◌, ◌≡◌, refl, ap, ◌∙◌, arith, All, Option, none, some}
use head_control.Text.{Text}
use head_control.Client.{Outcome}
use head_control.Acl.Draft.{PolicyModel, PolicyModelSave}
use head_control.Acl.Page.Coherent.{draft-finish_save}
use head_control.Acl.Page.{
  Page, Event, SaveResult, Current, is_dirty, adopt_model, run_effect, handle, step, run, end_save,
  press_save, fetched, edited, discard_opened, discard_cancelled, discard_confirmed, save_opened,
  save_closed, comment_typed, save_pressed, save_done, reloaded, reload_chosen, reapply_chosen,
}

-- The events that decide nothing on the draft: results of the query, dialogs that open and close,
-- and saves that begin and end.
abbrev pub KeepsDraft : Event → Type 0
KeepsDraft (fetched m) = Unit
KeepsDraft (edited a) = ⊥
KeepsDraft discard_opened = Unit
KeepsDraft discard_cancelled = Unit
KeepsDraft discard_confirmed = ⊥
KeepsDraft save_opened = Unit
KeepsDraft save_closed = Unit
KeepsDraft (comment_typed t) = Unit
KeepsDraft save_pressed = Unit
KeepsDraft (save_done text o) = Unit
KeepsDraft (reloaded o) = ⊥
KeepsDraft (reload_chosen o) = ⊥
KeepsDraft (reapply_chosen o) = ⊥

module _ (key_at : ℕ → Text) where
  pub draft-adopt_model :
      (o : Option PolicyModel) (p : Page)
      → is_dirty p.draft ≡ true
      → (adopt_model key_at o p).draft ≡ p.draft
  unfolding adopt_model
  draft-adopt_model none p h = refl
  draft-adopt_model (some m) p h = rw h refl

  draft-end_save :
      (b : Option PolicyModelSave) (text : Text) (o : Outcome SaveResult Current) (p : Page)
      → (end_save key_at b text o p).draft ≡ p.draft
  unfolding end_save
  draft-end_save none text o p = refl
  draft-end_save (some b) text o p = draft-finish_save text o (record p { saving = none })

  draft-handle : (p : Page) (e : Event) → KeepsDraft e → (handle key_at p e).draft ≡ p.draft
  unfolding handle press_save
  draft-handle p (fetched m) k = refl
  draft-handle p (edited a) k = absurd k
  draft-handle p discard_opened k = ground arith
  draft-handle p discard_cancelled k = refl
  draft-handle p discard_confirmed k = absurd k
  draft-handle p save_opened k = ground arith
  draft-handle p save_closed k = refl
  draft-handle p (comment_typed t) k = refl
  draft-handle p save_pressed k = ground arith
  draft-handle p (save_done text o) k = draft-end_save p.saving text o p
  draft-handle p (reloaded o) k = absurd k
  draft-handle p (reload_chosen o) k = absurd k
  draft-handle p (reapply_chosen o) k = absurd k

  draft-step :
      (p : Page) (e : Event)
      → is_dirty p.draft ≡ true
      → KeepsDraft e
      → (step key_at p e).draft ≡ p.draft
  unfolding step run_effect
  draft-step p e h k =
      let kept = draft-handle p e k in
      let dirty : is_dirty (handle key_at p e).draft ≡ true = ap is_dirty kept ∙ h in
      draft-adopt_model (handle key_at p e).model (handle key_at p e) dirty ∙ kept

-- Unsaved changes survive results of the query, the dialogs and every save, whether it succeeds,
-- fails or meets a conflict, in any order: only an edit, a discard that is confirmed, the reload
-- after a save or a choice after a conflict changes them.
pub draft-run :
    (key_at : ℕ → Text) (p : Page) (es : List Event)
    → is_dirty p.draft ≡ true
    → All KeepsDraft es
    → (run key_at p es).draft ≡ p.draft
unfolding run
draft-run key_at p [] h k = refl
draft-run key_at p (e ∷ es) h k =
    let kept = draft-step key_at p e h k.0 in
    draft-run key_at (step key_at p e) es (ap is_dirty kept ∙ h) k.1 ∙ kept
