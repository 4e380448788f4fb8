-- ===== src/Acl/Page/Conflict.antt =====
-- From a conflict back to a page without changes.
use head_control.Acl.Page.Frame.{warning_toast-SameFrame, step-SameFrame}
use mathlib.Core.Path.{subst}
use head_control.Common.{
  ap₂, ℕ, suc, ltb, Bool, true, false, not, ◌&&◌, [], ◌∷◌, ◌≡◌, refl, sym, ap, ◌∙◌, arith, none,
  some, if◌then◌else◌,
}
use head_control.Text.{Text, text_eq}
use head_control.Text.Equal.{text_eq_refl}
use head_control.Acl.Selector.{truthy}
use head_control.Client.{answered}
use head_control.Acl.Draft.{Draft, PolicyModel, PolicyModelSave, draft_from_model, to_save_body}
use head_control.Acl.Diff.Untouched.{diff_draft-draft_from_model}
use head_control.Acl.Diff.SameKeys.{IsModel}
use head_control.Acl.Rebase.{rebase_draft, reduce}
use head_control.Acl.Page.Kept.{draft-adopt_model}
use head_control.Acl.Page.{
  Page, SaveResult, is_dirty, summary_of, adopt_model, run_effect, handle, step, run, end_save,
  end_reload, press_save, choose_reapply, finish_save, reset_to, save_pressed, save_done, reloaded,
  reapply_chosen,
}

-- The draft with its changes on top of a newer model.
abbrev pub re_applied : (ℕ → Text) → PolicyModel → Page → Draft
re_applied key_at m p = (rebase_draft key_at p.made p.draft m (summary_of p.draft)).0

record Reapplied (key_at : ℕ → Text) (m : PolicyModel) (p q : Page) : Type 0 where
  save_open : q.save_open ≡ true
  conflict : q.conflict ≡ none
  discard_open : q.discard_open ≡ p.discard_open
  saving : q.saving ≡ p.saving
  model : q.model ≡ p.model
  comment : q.comment ≡ p.comment
  draft : q.draft ≡ re_applied key_at m p

-- A page without changes that shows a version, with no dialog open and no save under way.
pub record IsClean (m : PolicyModel) (p : Page) : Type 0 where
  pub model : p.model ≡ some m
  pub hash : p.draft.base_hash ≡ m.hash
  pub clean : is_dirty p.draft ≡ false
  pub save_closed : p.save_open ≡ false
  pub settled : p.conflict ≡ none
  pub discard_closed : p.discard_open ≡ false
  pub idle : p.saving ≡ none

-- The page after a save that succeeds.
record Saved (p q : Page) : Type 0 where
  save_open : q.save_open ≡ false
  conflict : q.conflict ≡ p.conflict
  discard_open : q.discard_open ≡ p.discard_open
  saving : q.saving ≡ none
  reloads : q.reloads ≡ suc p.reloads

if-false {ℓ} :
    {A : Type ℓ} (a b : Bool) (x y : A) → b ≡ true → (if not a && not b then x else y) ≡ y
if-false true b x y h = refl
if-false false b x y h = rw h refl

module _ (key_at : ℕ → Text) where
  choose_reapply-Reapplied :
      (m : PolicyModel) (p : Page)
      → Reapplied key_at m p (choose_reapply key_at (some (some m)) none p)
  unfolding choose_reapply reduce
  choose_reapply-Reapplied m p = record {
    save_open = refl;
    conflict = refl;
    discard_open = refl;
    saving = refl;
    model = refl;
    comment = refl;
    draft = refl;
  }

  reapply_step :
      (m : PolicyModel) (p : Page)
      → p.conflict ≡ some (some m)
      → is_dirty (re_applied key_at m p) ≡ true
      → Reapplied key_at m p (step key_at p (reapply_chosen none))
  unfolding handle
  reapply_step m p h d =
      let f = step-SameFrame key_at p (reapply_chosen none) in
      let r =
        subst (λ c. Reapplied key_at m p (choose_reapply key_at c none p)) (sym h)
          (choose_reapply-Reapplied m p) in
      let next = handle key_at p (reapply_chosen none) in
      let kept : (step key_at p (reapply_chosen none)).draft ≡ next.draft =
        unfold step run_effect in
        draft-adopt_model key_at next.model next (ap is_dirty r.draft ∙ d) in
      record {
        save_open = f.save_open ∙ r.save_open;
        conflict = f.conflict ∙ r.conflict;
        discard_open = f.discard_open ∙ r.discard_open;
        saving = f.saving ∙ r.saving;
        model = f.model ∙ r.model;
        comment = f.comment ∙ r.comment;
        draft = kept ∙ r.draft;
      }

  saving-press_save :
      (p : Page) (m : PolicyModel)
      → p.save_open ≡ true
      → p.model ≡ some m
      → p.saving ≡ none
      → (step key_at p save_pressed).saving ≡ some (to_save_body p.draft (some p.comment))
  unfolding handle press_save
  saving-press_save p m a b c = (step-SameFrame key_at p save_pressed).saving ∙ ground arith

  discard_open-press_save : (p : Page) → (step key_at p save_pressed).discard_open ≡ p.discard_open
  unfolding handle press_save
  discard_open-press_save p = (step-SameFrame key_at p save_pressed).discard_open ∙ ground arith

  conflict-press_save : (p : Page) → (step key_at p save_pressed).conflict ≡ p.conflict
  unfolding handle press_save
  conflict-press_save p = (step-SameFrame key_at p save_pressed).conflict ∙ ground arith

  -- The page that a save leaves before its toast.
  abbrev saved_page : Page → Page
  saved_page p = record p {
    saving = none;
    save_open = false;
    comment = [];
    reloads = suc p.reloads;
  }

  end_save-Saved :
      (p : Page) (b : PolicyModelSave) (text : Text) (r : SaveResult)
      → Saved p (end_save key_at (some b) text (answered r) p)
  unfolding end_save finish_save
  end_save-Saved p b text r =
      let f = warning_toast-SameFrame (truthy r.warning) r (saved_page p) in
      record {
        save_open = f.save_open;
        conflict = f.conflict;
        discard_open = f.discard_open;
        saving = f.saving;
        reloads = f.reloads;
      }

  save_step :
      (p : Page) (b : PolicyModelSave) (text : Text) (r : SaveResult)
      → p.saving ≡ some b
      → Saved p (step key_at p (save_done text (answered r)))
  unfolding handle
  save_step p b text r h =
      let f = step-SameFrame key_at p (save_done text (answered r)) in
      let s =
        subst (λ o. Saved p (end_save key_at o text (answered r) p)) (sym h)
          (end_save-Saved p b text r) in
      record {
        save_open = f.save_open ∙ s.save_open;
        conflict = f.conflict ∙ s.conflict;
        discard_open = f.discard_open ∙ s.discard_open;
        saving = f.saving ∙ s.saving;
        reloads = f.reloads ∙ s.reloads;
      }

  is_dirty-draft_from_model :
      (n : ℕ) (m : PolicyModel) → IsModel m → is_dirty (draft_from_model key_at n m).0 ≡ false
  unfolding is_dirty summary_of draft_from_model
  is_dirty-draft_from_model n m v =
      ap (λ s. ltb 0 s.count) (diff_draft-draft_from_model key_at n m v)

  -- The effect leaves a draft alone that starts from the model of the query.
  adopt_model-reset_to :
      (m : PolicyModel) (p : Page)
      → adopt_model key_at (some m) (reset_to key_at m p) ≡ reset_to key_at m p
  unfolding adopt_model
  adopt_model-reset_to m p =
      if-false (is_dirty (reset_to key_at m p).draft)
        (text_eq m.hash (reset_to key_at m p).draft.base_hash)
        (reset_to key_at m (reset_to key_at m p)) (reset_to key_at m p)
        (unfold draft_from_model in text_eq_refl m.hash)

  loaded-IsClean :
      (m : PolicyModel) (p : Page)
      → IsModel m
      → p.model ≡ some m
      → p.save_open ≡ false
      → p.conflict ≡ none
      → p.discard_open ≡ false
      → p.saving ≡ none
      → IsClean m (reset_to key_at m p)
  loaded-IsClean m p v a b c g d = record {
    model = a;
    hash = unfold draft_from_model in refl;
    clean = is_dirty-draft_from_model p.made m v;
    save_closed = b;
    settled = c;
    discard_closed = g;
    idle = d;
  }

  reload_step :
      (p : Page) (k : ℕ) (m : PolicyModel)
      → IsModel m
      → p.reloads ≡ suc k
      → p.save_open ≡ false
      → p.conflict ≡ none
      → p.discard_open ≡ false
      → p.saving ≡ none
      → IsClean m (step key_at p (reloaded (some m)))
  unfolding step run_effect handle end_reload
  reload_step p k m v h a b g c =
      let q = record p { model = some m; reloads = k } in
      let clean : IsClean m (adopt_model key_at (some m) (reset_to key_at m q)) =
        subst (IsClean m) (sym (adopt_model-reset_to m q)) (loaded-IsClean m q v refl a b g c) in
      subst
        (λ j. IsClean m (
          adopt_model key_at (end_reload key_at j (some m) p).model
            (end_reload key_at j (some m) p)))
        (sym h) clean

-- After a conflict that carried the newer model, the choice to re-apply the changes opens the
-- dialog of the save, whose button sends the re-applied draft with the hash of the newer model and
-- the comment; once the backend takes that save and the reload has come, the page shows the model
-- that came, with no changes, no dialog and no save under way. The dialog that discards the changes
-- was not open and no save was under way, some change is left once the draft is re-applied, and the
-- model that came is well formed.
pub run-reapply :
    (key_at : ℕ → Text) (p : Page) (seen newer saved : PolicyModel) (text : Text) (r : SaveResult)
    → p.model ≡ some seen
    → p.conflict ≡ some (some newer)
    → p.discard_open ≡ false
    → p.saving ≡ none
    → is_dirty (re_applied key_at newer p) ≡ true
    → IsModel saved
    → ((run key_at p (reapply_chosen none ∷ save_pressed ∷ [])).saving
        ≡ some (to_save_body (re_applied key_at newer p) (some p.comment)))
      × ((to_save_body (re_applied key_at newer p) (some p.comment)).base_hash ≡ newer.hash)
      × IsClean saved (
          run key_at p (
            reapply_chosen none
            ∷ save_pressed
            ∷ save_done text (answered r)
            ∷ reloaded (some saved)
            ∷ []))
unfolding run
run-reapply key_at p seen newer saved text r e c g s d v =
    let q = step key_at p (reapply_chosen none) in
    let a = reapply_step key_at newer p c d in
    let pressed = step key_at q save_pressed in
    let sent = saving-press_save key_at q seen a.save_open (a.model ∙ e) (a.saving ∙ s) in
    let calm = conflict-press_save key_at q ∙ a.conflict in
    let undiscarded = discard_open-press_save key_at q ∙ a.discard_open ∙ g in
    let done = save_step key_at pressed (to_save_body q.draft (some q.comment)) text r sent in
    (
      sent ∙ ap₂ (λ d t. some (to_save_body d (some t))) a.draft a.comment,
      unfold to_save_body rebase_draft in refl,
      reload_step key_at (step key_at pressed (save_done text (answered r))) pressed.reloads saved v
          done.reloads done.save_open (done.conflict ∙ calm) (done.discard_open ∙ undiscarded)
          done.saving,
    )
