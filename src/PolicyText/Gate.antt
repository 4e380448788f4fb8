-- ===== src/PolicyText/Gate.antt =====
-- The check before every save: which texts are sent.
use head_control.Common.{
  ◌∙◌, Bool, true, false, Option, none, some, List, [], ◌∷◌, ◌≡◌, refl, arith,
}
use head_control.Text.{Text}
use head_control.PolicyText.{
  comment_of, Check, Page, PolicyState, Event, SaveRequest, handle, step, run, start, run_effect,
  effect_with, check_done, change, version_loaded,
}
use head_control.PolicyText.Gated.{Quiet, AllAccepted, start-IsGated, run-IsGated}

-- Every text that the page sends to be saved is one that a check has accepted, whatever the user
-- does and the query, the checks and the saves answer, in any order; no text comes into the editor
-- while a save waits for its check.
pub run-AllAccepted :
    (es : List Event) → Quiet start es → AllAccepted (run start es).accepted (run start es).sent
run-AllAccepted es u = (run-IsGated start es u start-IsGated).sent_accepted

pub effect_dirty : (p : Page) → p.dirty ≡ true → run_effect p ≡ p
unfolding run_effect
effect_dirty p h = same p.state p.dirty h
  where
    same : (o : Option PolicyState) (b : Bool) → b ≡ true → effect_with o b p ≡ p
    same none b e = refl
    same (some s) true e = refl
    same (some s) false e = absurd (ground arith)

sent-effect : (p : Page) → (run_effect p).sent ≡ p.sent
unfolding run_effect
sent-effect p = same p.state p.dirty
  where
    same : (o : Option PolicyState) (b : Bool) → (effect_with o b p).sent ≡ p.sent
    same none b = refl
    same (some s) b = ground arith

sent-check_done :
    (o : Option Check) (k : Check) (c : Text) (p : Page)
    → o ≡ some k
    → k.saves ≡ some c
    → (check_done o none p).sent ≡ record { policy = p.doc; comment = comment_of c } ∷ p.sent
unfolding check_done
sent-check_done none k c p h s = absurd (ground arith)
sent-check_done (some j) k c p h s = let same : j.saves ≡ some c = ground arith in rw same refl

-- An older version that comes into the editor while a save waits for its check is sent as it is,
-- once the check has accepted the text that was there before.
pub sent-version_came :
    (p : Page) (k : Check) (c t : Text)
    → p.checking ≡ some k
    → k.saves ≡ some c
    → (q : SaveRequest) × ((run p (Event.version_came (some t) ∷ Event.check_came none ∷ [])).sent
        ≡ q ∷ p.sent)
      × (q.policy ≡ t)
unfolding run step handle
sent-version_came p k c t h s =
    let p' : Page = record (change t p) { toasts = version_loaded ∷ p.toasts } in
    (
      record { policy = t; comment = comment_of c },
      rw (effect_dirty p' refl)
          (sent-effect (check_done p.checking none p') ∙ sent-check_done p.checking k c p' h s),
      refl,
    )
