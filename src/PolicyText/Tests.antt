-- ===== src/PolicyText/Tests.antt =====
-- The editor of the policy at concrete events.
use head_control.Common.{true, false, none, some, List, [], ◌∷◌, ◌≡◌, refl, arith, map}
use head_control.Text.{Text, codes, text_eq, is_space}
use head_control.PolicyText.{Page, PolicyState, Event, SaveRequest, SaveAnswer, run, step, start}
use head_control.PolicyText.Gate.{run-AllAccepted, sent-version_came}
use head_control.PolicyText.Gated.{AllAccepted}
use head_control.PolicyText.Hints.{content_hints, Hint, Level}
use head_control.PolicyText.Shown.{doc-fetched, doc-save_came}

abbrev policy : Text → PolicyState
policy t = record { policy = t; writable = true }

abbrev session : List Event
session =
    Event.fetched (policy (codes "{}"))
    ∷ Event.typed (codes "{ }")
    ∷ Event.save_opened
    ∷ Event.comment_typed (codes "spaces")
    ∷ Event.save_clicked
    ∷ Event.check_came none
    ∷ []

session_sent :
    (run start session).sent ≡ record { policy = codes "{ }"; comment = some (codes "spaces") } ∷ []
unfolding run text_eq
session_sent = refl

run-AllAccepted_example : AllAccepted (run start session).accepted (run start session).sent
unfolding run text_eq
run-AllAccepted_example = run-AllAccepted session (tt, (refl, (tt, (tt, (tt, (tt, tt))))))

-- The page while a save waits for its check.
abbrev waiting_page : Page
waiting_page = record start {
  state = some (policy (codes "{}"));
  doc = codes "{ }";
  dirty = true;
  checking = some (record { text = codes "{ }"; saves = some (codes "spaces") });
  save_modal = true;
}

sent-version_came_test :
    (q : SaveRequest) × ((run waiting_page
        (Event.version_came (some (codes "[]")) ∷ Event.check_came none ∷ [])).sent
      ≡ q ∷ [])
    × (q.policy ≡ codes "[]")
sent-version_came_test =
    sent-version_came waiting_page (record { text = codes "{ }"; saves = some (codes "spaces") })
      (codes "spaces") (codes "[]") refl refl

-- The page after it has saved "{ }", which it shows; the backend is back at "{}".
abbrev saved_page : Page
saved_page = record start {
  state = some (policy (codes "{ }"));
  doc = codes "{ }";
  loaded_hash = codes "{}";
}

doc-fetched_test : (step saved_page (Event.fetched (policy (codes "{}")))).doc ≡ codes "{ }"
doc-fetched_test = doc-fetched saved_page (policy (codes "{}")) refl

abbrev saving_page : Page
saving_page = record saved_page { dirty = true; pending = true }

doc-save_came_example :
    (run saving_page (
      Event.typed (codes "{  }")
      ∷ Event.save_came (SaveAnswer.saved false false)
      ∷ Event.fetched (policy (codes "{ }"))
      ∷ [])).doc
    ≡ codes "{ }"
doc-save_came_example =
    doc-save_came saving_page (codes "{  }") false false (policy (codes "{ }")) refl
      (λ e. ground arith)

-- The hints of a policy that has the older section and a wildcard.
hints_test :
    map
      (λ (h : Hint). h.level)
      (content_hints (codes "{\"acls\": [{\"src\": [\"a\", \"*\"]}], \"ipsets\" : {}}"))
    ≡ Level.warn ∷ Level.warn ∷ Level.info ∷ []
unfolding content_hints is_space
hints_test = refl

no_hints_test : content_hints (codes "{\"grants\": [{\"src\": [\"a\"], \"dst\": [\"*\"]}]}") ≡ []
unfolding content_hints is_space
no_hints_test = refl
