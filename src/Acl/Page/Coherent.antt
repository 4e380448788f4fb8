-- ===== src/Acl/Page/Coherent.antt =====
-- What holds of the page of the editor after any events in any order.
use mathlib.Core.Path.{subst}
use head_control.Common.{
  ℕ, suc, zero, Bool, true, false, not, ◌&&◌, List, [], ◌∷◌, ◌≡◌, refl, sym, ◌∙◌, arith, Option,
  none, some, Bool-cases, inl, inr, if◌then◌else◌,
}
use head_control.Text.{Text, text_eq}
use head_control.Text.Equal.{text_eq_iff}
use head_control.Client.{Outcome, answered, no_content, bad_json, failed}
use head_control.Acl.Draft.{PolicyModelSave, PolicyModel, draft_from_model}
use head_control.Acl.Diff.{ChangeSummary}
use head_control.Acl.Rebase.{reduce, rebase_draft}
use head_control.Acl.Selector.{truthy}
use head_control.Acl.Reducer.Based.{IsBased, draft_reducer-IsBased}
use head_control.Acl.Page.{
  reduce, Page, end_save, end_reload, with_fresh, choose_reload, choose_reapply, fresh_model,
  summary_of, press_save, fetched, edited, discard_opened, discard_cancelled, discard_confirmed,
  save_opened, save_closed, comment_typed, save_pressed, save_done, reloaded, reload_chosen,
  reapply_chosen, success_toast, warning_toast, Event, SaveResult, Current, is_dirty, finish_save,
  reset_option, rebase_option, put_model, adopt_model, run_effect, step, run, handle, start,
}

-- The draft is based on the model that it was loaded from or applied to, and where it has no
-- changes this is the newest version that the page has.
pub record IsCoherent (p : Page) : Type 0 where
  pub based : IsBased p.draft
  pub newest :
      (m : PolicyModel) → p.model ≡ some m → is_dirty p.draft ≡ false → p.draft.base_hash ≡ m.hash

draft-success_toast : (a b : Bool) (p : Page) → (success_toast a b p).draft ≡ p.draft
draft-success_toast false b p = refl
draft-success_toast true true p = refl
draft-success_toast true false p = refl

draft-warning_toast :
    (o : Option Text) (r : SaveResult) (p : Page) → (warning_toast o r p).draft ≡ p.draft
draft-warning_toast none r p = draft-success_toast r.policy_changed r.reload_pending p
draft-warning_toast (some w) r p = refl

pub draft-finish_save :
    (text : Text) (o : Outcome SaveResult Current) (p : Page)
    → (finish_save text o p).draft ≡ p.draft
unfolding finish_save
draft-finish_save text (answered r) p =
    draft-warning_toast (truthy r.warning) r
      (record p { save_open = false; comment = []; reloads = suc p.reloads })
draft-finish_save text no_content p = refl
draft-finish_save text bad_json p = refl
draft-finish_save text (failed e) p = ground arith

newest_of :
    (m m' : PolicyModel) (p : Page)
    → p.model ≡ some m
    → p.model ≡ some m'
    → not (is_dirty p.draft) && not (text_eq m.hash p.draft.base_hash) ≡ false
    → is_dirty p.draft ≡ false
    → p.draft.base_hash ≡ m'.hash
newest_of m m' p e e' b d =
    let same : text_eq m.hash p.draft.base_hash ≡ true = ground arith in
    sym ((text_eq_iff m.hash p.draft.base_hash).0 same) ∙ cc (e, e')

if-IsBased :
    (b : Bool) (p q : Page) → IsBased p.draft → IsBased q.draft → IsBased (if b then p else q).draft
if-IsBased true p q h k = h
if-IsBased false p q h k = k

module _ (key_at : ℕ → Text) where
  reset_option-IsBased :
      (o : Option PolicyModel) (p : Page)
      → IsBased p.draft
      → IsBased (reset_option key_at o p).draft
  unfolding draft_from_model
  reset_option-IsBased none p h = h
  reset_option-IsBased (some m) p h = refl

  rebase_option-IsBased :
      (o : Option PolicyModel) (s : ChangeSummary) (p : Page)
      → IsBased p.draft
      → IsBased (rebase_option key_at o s p).draft
  unfolding reduce rebase_draft
  rebase_option-IsBased none s p h = h
  rebase_option-IsBased (some m) s p h = refl

  draft-put_model :
      (o : Option PolicyModel) (p : Page) → IsBased p.draft → IsBased (put_model o p).draft
  draft-put_model none p h = h
  draft-put_model (some m) p h = h

  adopt_model-IsCoherent :
      (o : Option PolicyModel) (p : Page)
      → p.model ≡ o
      → IsBased p.draft
      → IsCoherent (adopt_model key_at o p)
  unfolding adopt_model
  adopt_model-IsCoherent none p e h = record { based = h; newest = λ m e'. cc }
  adopt_model-IsCoherent (some m) p e h =
      elim (Bool-cases (not (is_dirty p.draft) && not (text_eq m.hash p.draft.base_hash))) [
        | inl b ↦ rw b (record {
          based = unfold draft_from_model in refl;
          newest = λ m' e' d. unfold draft_from_model in cc (e, e');
        })
        | inr b ↦ rw b (record { based = h; newest = λ m' e' d. newest_of m m' p e e' b d })
      ]

  end_save-IsBased :
      (b : Option PolicyModelSave) (text : Text) (o : Outcome SaveResult Current) (p : Page)
      → IsBased p.draft
      → IsBased (end_save key_at b text o p).draft
  unfolding end_save
  end_save-IsBased none text o p h = h
  end_save-IsBased (some b) text o p h =
      subst IsBased (sym (draft-finish_save text o (record p { saving = none }))) h

  end_reload-IsBased :
      (k : ℕ) (data_of_query : Option PolicyModel) (p : Page)
      → IsBased p.draft
      → IsBased (end_reload key_at k data_of_query p).draft
  unfolding end_reload
  end_reload-IsBased zero o p h = h
  end_reload-IsBased (suc k) o p h =
      reset_option-IsBased o (put_model o (record p { reloads = k }))
        (draft-put_model o (record p { reloads = k }) h)

  with_fresh-IsBased :
      (c o : Option PolicyModel) (p : Page) → IsBased p.draft → IsBased (with_fresh c o p).draft
  with_fresh-IsBased none o p h = draft-put_model o p h
  with_fresh-IsBased (some m) o p h = h

  choose_reload-IsBased :
      (c : Option (Option PolicyModel)) (o : Option PolicyModel) (p : Page)
      → IsBased p.draft
      → IsBased (choose_reload key_at c o p).draft
  unfolding choose_reload
  choose_reload-IsBased none o p h = h
  choose_reload-IsBased (some c) o p h =
      reset_option-IsBased (fresh_model c o) (with_fresh c o p) (with_fresh-IsBased c o p h)

  choose_reapply-IsBased :
      (c : Option (Option PolicyModel)) (o : Option PolicyModel) (p : Page)
      → IsBased p.draft
      → IsBased (choose_reapply key_at c o p).draft
  unfolding choose_reapply
  choose_reapply-IsBased none o p h = h
  choose_reapply-IsBased (some c) o p h =
      rebase_option-IsBased (fresh_model c o) (summary_of p.draft) (with_fresh c o p)
        (with_fresh-IsBased c o p h)

  handle-IsBased : (p : Page) (e : Event) → IsBased p.draft → IsBased (handle key_at p e).draft
  unfolding handle reduce press_save
  handle-IsBased p (fetched m) h = h
  handle-IsBased p (edited a) h = draft_reducer-IsBased key_at p.draft p.made a h
  handle-IsBased p discard_opened h = ground arith
  handle-IsBased p discard_cancelled h = h
  handle-IsBased p discard_confirmed h =
      if-IsBased p.discard_open (record (reset_option key_at p.model p) { discard_open = false }) p
        (reset_option-IsBased p.model p h) h
  handle-IsBased p save_opened h = ground arith
  handle-IsBased p save_closed h = h
  handle-IsBased p (comment_typed t) h = h
  handle-IsBased p save_pressed h = ground arith
  handle-IsBased p (save_done text o) h = end_save-IsBased p.saving text o p h
  handle-IsBased p (reloaded o) h = end_reload-IsBased p.reloads o p h
  handle-IsBased p (reload_chosen o) h = choose_reload-IsBased p.conflict o p h
  handle-IsBased p (reapply_chosen o) h = choose_reapply-IsBased p.conflict o p h

  step-IsCoherent : (p : Page) (e : Event) → IsCoherent p → IsCoherent (step key_at p e)
  unfolding step run_effect
  step-IsCoherent p e h =
      adopt_model-IsCoherent (handle key_at p e).model (handle key_at p e) refl
        (handle-IsBased p e h.based)

  run-IsCoherent_from : (p : Page) (es : List Event) → IsCoherent p → IsCoherent (run key_at p es)
  unfolding run
  run-IsCoherent_from p [] h = h
  run-IsCoherent_from p (e ∷ es) h =
      run-IsCoherent_from (step key_at p e) es (step-IsCoherent p e h)

-- After any events in any order, the hash that a save would send is that of the model that the
-- draft was loaded from or applied to, and where the draft has no changes this model is the newest
-- one that the page has.
pub run-IsCoherent : (key_at : ℕ → Text) (es : List Event) → IsCoherent (run key_at start es)
run-IsCoherent key_at es =
    run-IsCoherent_from key_at start es (record { based = refl; newest = λ m e d. cc })
