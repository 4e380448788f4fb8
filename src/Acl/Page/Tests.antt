-- ===== src/Acl/Page/Tests.antt =====
-- The page of the editor at concrete events.
use head_control.Acl.Samples.{key_at, model, loaded, model-IsModel}
use head_control.Common.{true, false, List, [], ◌∷◌, ◌≡◌, refl, any, none, some}
use head_control.Text.{codes}
use head_control.Client.{answered}
use head_control.Acl.Draft.{PolicyModel, Draft, to_save_body}
use head_control.Acl.Reducer.{set_host}
use head_control.Acl.Draft.{draft_from_model}
use head_control.Acl.Diff.{by_id, same_rule}
use head_control.Dict.{has, get}
use head_control.Acl.Rebase.{
  rebase_draft, rebase_rules, chosen_rule, changed_rules, orphan_rules, merge_keys, rebase_list,
}
use head_control.Acl.Page.{
  Page, Event, SaveResult, start, is_dirty, summary_of, run, fetched, edited, save_opened,
  save_pressed, save_done, save_closed, reloaded, reapply_chosen,
}
use head_control.Acl.Page.Coherent.{IsCoherent, run-IsCoherent}
use head_control.Acl.Page.Kept.{draft-run}
use head_control.Acl.Page.Conflict.{re_applied, IsClean, run-reapply}
use head_control.Acl.Page.Shown.{tab_dirty, summary_parts, summary_sections}
use head_control.Acl.Page.Shown.Agree.{is_filled, tabs, is_dirty-shown}

-- The model arrives, the user adds a host, and a save meets a conflict.
abbrev events : List Event
events =
    fetched model
    ∷ edited (set_host (codes "db2") (codes "10.0.0.9"))
    ∷ save_opened
    ∷ save_pressed
    ∷ []

run-IsCoherent_example : IsCoherent (run key_at start events)
run-IsCoherent_example = run-IsCoherent key_at events

-- A newer version of the model, with a host that another admin added.
abbrev newer : PolicyModel
newer = record model {
  hash = codes "h2";
  hosts = (codes "db1", codes "10.0.0.7") ∷ (codes "web1", codes "10.0.0.8") ∷ [];
}

abbrev changed : Draft
changed = record loaded {
  hosts = (codes "db1", codes "10.0.0.7") ∷ (codes "db2", codes "10.0.0.9") ∷ [];
}

abbrev page : Page
page = record start { model = some model; draft = changed; made = 5; conflict = some (some newer) }

changed-dirty : is_dirty changed ≡ true
unfolding is_dirty summary_of draft_from_model by_id same_rule has get
changed-dirty = refl

draft-run_example :
    (run key_at page (fetched newer ∷ save_pressed ∷ save_closed ∷ [])).draft ≡ changed
draft-run_example =
    draft-run key_at page (fetched newer ∷ save_pressed ∷ save_closed ∷ []) changed-dirty
      (tt, (tt, (tt, tt)))

is_dirty-shown_example :
    (is_dirty changed ≡ any (tab_dirty (summary_of changed)) tabs)
    × (is_dirty changed ≡ is_filled (summary_parts (summary_of changed)))
    × (is_dirty changed ≡ is_filled (summary_sections (summary_of changed)))
is_dirty-shown_example = is_dirty-shown changed

re_applied-dirty : is_dirty (re_applied key_at newer page) ≡ true
unfolding is_dirty summary_of rebase_draft rebase_rules draft_from_model chosen_rule changed_rules
    by_id same_rule orphan_rules merge_keys has rebase_list
re_applied-dirty = refl

abbrev result : SaveResult
result = record { warning = none; policy_changed = true; reload_pending = false }

run-reapply_example :
    ((run key_at page (reapply_chosen none ∷ save_pressed ∷ [])).saving
      ≡ some (to_save_body (re_applied key_at newer page) (some [])))
    × ((to_save_body (re_applied key_at newer page) (some [])).base_hash ≡ newer.hash)
    × IsClean model (
        run key_at page (
          reapply_chosen none
          ∷ save_pressed
          ∷ save_done [] (answered result)
          ∷ reloaded (some model)
          ∷ []))
run-reapply_example =
    run-reapply key_at page model newer model [] result refl refl refl refl re_applied-dirty
      model-IsModel
