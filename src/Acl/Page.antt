-- ===== src/Acl/Page.antt =====
-- The page of the editor, frontend/src/pages/acls/AclsBetaPage.tsx: its state with what the query
-- of the model and the save have come to, and a step for each thing that the user does or that the
-- backend answers, in any order. After each step the effect of the page runs.
mod State
mod Coherent
mod Kept
mod Frame
mod Conflict
mod Shown
mod Tests
unfoldable pub use State.*
use head_control.Common.{
  ◌==◌, ℕ, suc, zero, ◌-◌, ◌+◌, Bool, true, false, not, ◌&&◌, List, [], ◌∷◌, ◌++◌, ltb,
  if◌then◌else◌, Option, none, some,
}
use head_control.Text.{Text, codes, text_eq}
use head_control.Dict.{Dict, get, set}
use head_control.Api.{User, Node}
use head_control.Format.{or_nil}
use head_control.Client.{text_or, ApiError, Outcome, answered, no_content, bad_json, failed}
use head_control.Acl.Selector.{SelectorContext, SelectorUser, truthy}
use head_control.Acl.Draft.{
  PolicyModel, Draft, PolicyModelSave, empty_draft, to_save_body, draft_from_model,
}
use head_control.Acl.Diff.{ChangeSummary, diff_draft, empty_summary}
use head_control.Acl.Reducer.{DraftAction}
use head_control.Acl.Rebase.{Action, edit, rebase, reduce}

pub data Event : Type 0 where
  -- the query of the model has a result
  fetched : PolicyModel → Event
  edited : DraftAction → Event
  discard_opened discard_cancelled discard_confirmed : Event
  save_opened save_closed : Event
  comment_typed : Text → Event
  save_pressed : Event
  -- the save has come to an end; the text is that of an error of the parser of JSON
  save_done : Text → Outcome SaveResult Current → Event
  -- the reload after a save has come to an end, with the data that the query then has
  reloaded : Option PolicyModel → Event
  -- a choice after a conflict, with the data of the query where the conflict carried no model
  reload_chosen reapply_chosen : Option PolicyModel → Event

abbrev pub add_toast : Bool → Text → Text → Page → Page
add_toast is_error title detail p = record p {
  toasts = p.toasts ++ record { is_error = is_error; title = title; detail = detail } ∷ [];
}

abbrev success_toast : Bool → Bool → Page → Page
success_toast false reload_pending p =
    add_toast false (codes "Names and descriptions saved (policy unchanged)") [] p
success_toast true true p =
    add_toast false (codes "Policy file written — reload headscale to apply") [] p
success_toast true false p = add_toast false (codes "Policy applied") [] p

abbrev warning_toast : Option Text → SaveResult → Page → Page
warning_toast (some w) r p = add_toast true (codes "Saved with warning") w p
warning_toast none r p = success_toast r.policy_changed r.reload_pending p

abbrev saved_toast : SaveResult → Page → Page
saved_toast r p = warning_toast (truthy r.warning) r p

-- The newer model of a conflict, where its body has one.
abbrev current_model : Option Current → Option PolicyModel
current_model none = none
current_model (some records) = none
current_model (some (model m)) = some m

abbrev current_of : ApiError Current → Option PolicyModel
current_of e = elim e.body [ none ↦ none | some b ↦ current_model b.current ]

-- `conflict.current ?? (await refetch()).data`
abbrev pub fresh_model : Option PolicyModel → Option PolicyModel → Option PolicyModel
fresh_model none data_of_query = data_of_query
fresh_model (some m) data_of_query = some m

-- What the failure of a save leaves.
abbrev fail_save : ApiError Current → Page → Page
fail_save e p =
    if e.status == 409
    then record p { conflict = some (current_of e); save_open = false }
    else add_toast true (codes "Save failed") e.message
        (record p { save_error = some (text_or (truthy e.headscale_message) e.message) })

abbrev reset_form : Page → Page
reset_form p = record p { save_open = false; comment = [] }

-- `onSuccess` and `onError` of a save. Where the answer is `undefined`, the toast reads a field of
-- it and throws, so nothing is reloaded.
unfoldable pub finish_save : Text → Outcome SaveResult Current → Page → Page
finish_save text (answered r) p = saved_toast r (record (reset_form p) { reloads = suc p.reloads })
finish_save text no_content p = reset_form p
finish_save text bad_json p =
    add_toast true (codes "Save failed") text (record p { save_error = some text })
finish_save text (failed e) p = fail_save e p

abbrev has_model : Option PolicyModel → Bool
has_model none = false
has_model (some m) = true

abbrev is_idle : Option PolicyModelSave → Bool
is_idle none = true
is_idle (some b) = false

-- The query of the model has new data; a reload that fails keeps the old.
abbrev put_model : Option PolicyModel → Page → Page
put_model none p = p
put_model (some m) p = record p { model = some m }

-- `conflict.current ?? (await refetch()).data`; the reload is a result of the query too.
abbrev with_fresh : Option PolicyModel → Option PolicyModel → Page → Page
with_fresh none data_of_query p = put_model data_of_query p
with_fresh (some m) data_of_query p = p

module _ (key_at : ℕ → Text) where
  abbrev dispatch : Action → Page → Page
  dispatch a p =
      let next = reduce key_at p.draft p.made a in record p { draft = next.0; made = next.1 }

  abbrev reset_to : PolicyModel → Page → Page
  reset_to m p =
      let next = draft_from_model key_at p.made m in record p { draft = next.0; made = next.1 }

  abbrev reset_option : Option PolicyModel → Page → Page
  reset_option none p = p
  reset_option (some m) p = reset_to m p

  abbrev rebase_option : Option PolicyModel → ChangeSummary → Page → Page
  rebase_option none s p = p
  rebase_option (some m) s p = dispatch (rebase m s) p

  -- The effect: a page with no changes takes the model that the query has.
  pub adopt_model : Option PolicyModel → Page → Page
  unfolding is_dirty text_eq
  adopt_model none p = p
  adopt_model (some m) p =
      if not (is_dirty p.draft) && not (text_eq m.hash p.draft.base_hash) then reset_to m p else p

  unfoldable pub run_effect : Page → Page
  unfolding adopt_model
  run_effect p = adopt_model p.model p

  end_reload : ℕ → Option PolicyModel → Page → Page
  end_reload zero data_of_query p = p
  end_reload (suc k) data_of_query p =
      reset_option data_of_query (put_model data_of_query (record p { reloads = k }))

  press_save : Page → Page
  press_save p =
      if p.save_open && has_model p.model && is_idle p.saving
      then record p { save_error = none; saving = some (to_save_body p.draft (some p.comment)) }
      else p

  end_save : Option PolicyModelSave → Text → Outcome SaveResult Current → Page → Page
  unfolding finish_save
  end_save none text o p = p
  end_save (some b) text o p = finish_save text o (record p { saving = none })

  choose_reload : Option (Option PolicyModel) → Option PolicyModel → Page → Page
  choose_reload none data_of_query p = p
  choose_reload (some c) data_of_query p =
      record (reset_option (fresh_model c data_of_query) (with_fresh c data_of_query p)) {
        conflict = none;
      }

  choose_reapply : Option (Option PolicyModel) → Option PolicyModel → Page → Page
  choose_reapply none data_of_query p = p
  choose_reapply (some c) data_of_query p =
      record (rebase_option (fresh_model c data_of_query) (summary_of p.draft)
        (with_fresh c data_of_query p)) { conflict = none; save_open = true }

  -- What an event does before the effect runs.
  unfoldable pub handle : Page → Event → Page
  unfolding end_reload press_save end_save choose_reload choose_reapply is_dirty
  handle p (fetched m) = record p { model = some m }
  handle p (edited a) = dispatch (edit a) p
  handle p discard_opened = if is_dirty p.draft then record p { discard_open = true } else p
  handle p discard_cancelled = record p { discard_open = false }
  handle p discard_confirmed =
      if p.discard_open then record (reset_option p.model p) { discard_open = false } else p
  handle p save_opened =
      if is_dirty p.draft && is_writable p.model then record p { save_open = true } else p
  handle p save_closed = record p { save_open = false }
  handle p (comment_typed t) = record p { comment = t }
  handle p save_pressed = press_save p
  handle p (save_done text o) = end_save p.saving text o p
  handle p (reloaded data_of_query) = end_reload p.reloads data_of_query p
  handle p (reload_chosen data_of_query) = choose_reload p.conflict data_of_query p
  handle p (reapply_chosen data_of_query) = choose_reapply p.conflict data_of_query p

  unfoldable pub step : Page → Event → Page
  unfolding handle run_effect
  step p e = run_effect (handle p e)

  unfoldable pub run : Page → List Event → Page
  unfolding step
  run p [] = p
  run p (e ∷ es) = run (step p e) es
