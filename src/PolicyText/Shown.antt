-- ===== src/PolicyText/Shown.antt =====
-- What the editor shows where there are no edits, and what becomes of edits during a save.
use head_control.PolicyText.Gate.{effect_dirty}
use head_control.Common.{
  Bool-cases, Bool, true, false, not, ◌&&◌, Option, none, some, List, [], ◌∷◌, ◌≡◌, ◌≢◌, ◌⊎◌, inl,
  inr, refl, arith, ap, if◌then◌else◌,
}
use head_control.Text.{Text, text_eq}
use head_control.Text.Equal.{Text-cases, text_eq_iff}
use head_control.PolicyText.{
  Page, PolicyState, Event, SaveAnswer, handle, step, run, start, run_effect, effect_with,
  save_done, change, load_into,
}

-- Without edits the editor has the policy of the query, or this policy is the one that was put into
-- it last.
abbrev pub IsShown : Page → Type 0
IsShown p =
    (s : PolicyState)
    → p.dirty ≡ false
    → p.state ≡ some s
    → (p.doc ≡ s.policy) ⊎ (p.loaded_hash ≡ s.policy)

abbrev loads : PolicyState → Page → Bool
loads s p = not (text_eq s.policy p.doc) && not (text_eq p.loaded_hash s.policy)

loads-IsShown :
    (s : PolicyState) (p : Page) (b : Bool)
    → p.state ≡ some s
    → loads s p ≡ b
    → IsShown (if b then load_into s p else p)
loads-IsShown s p true e l = λ t n h. inl (ground arith)
loads-IsShown s p false e l = λ t n h.
    let same : s ≡ t = ground arith in
    let both : (p.doc ≡ s.policy) ⊎ (p.loaded_hash ≡ s.policy) =
      ground (arith, text_eq_iff s.policy p.doc, text_eq_iff p.loaded_hash s.policy) in
    rw (← same) both

effect_with-IsShown :
    (o : Option PolicyState) (b : Bool) (p : Page)
    → p.state ≡ o
    → p.dirty ≡ b
    → IsShown (effect_with o b p)
effect_with-IsShown none b p e d = λ s n h. absurd (ground arith)
effect_with-IsShown (some s) true p e d = λ t n h. absurd (ground arith)
effect_with-IsShown (some s) false p e d = loads-IsShown s p (loads s p) e refl

pub effect-IsShown : (p : Page) → IsShown (run_effect p)
unfolding run_effect
effect-IsShown p = effect_with-IsShown p.state p.dirty p refl refl

run-IsShown_from : (p : Page) (es : List Event) → IsShown p → IsShown (run p es)
unfolding run step
run-IsShown_from p [] h = h
run-IsShown_from p (e ∷ es) h = run-IsShown_from (step p e) es (effect-IsShown (handle p e))

-- After any events, an editor without edits has the newest policy of the query, or this policy is
-- the one that was put into the editor last.
pub run-IsShown : (es : List Event) → IsShown (run start es)
run-IsShown es = run-IsShown_from start es (λ s n h. absurd (ground arith))

-- A policy that the query brings does not come into an editor without edits where it is the one
-- that was put there last, whatever the editor has by now.
pub doc-fetched :
    (p : Page) (s : PolicyState) → p.loaded_hash ≡ s.policy → (step p (Event.fetched s)).doc ≡ p.doc
unfolding step handle run_effect
doc-fetched p s h = kept p.dirty
  where
    kept : (b : Bool) → (effect_with (some s) b (record p { state = some s })).doc ≡ p.doc
    kept true = refl
    kept false = ground (arith, text_eq_iff p.loaded_hash s.policy)

-- The policy of the query is not the one that was put into the editor last, or it is there.
abbrev Comes : PolicyState → Page → Type 0
Comes s p = (p.loaded_hash ≢ s.policy) ⊎ (p.doc ≡ s.policy)

fetched-Comes :
    (s : PolicyState) (p : Page)
    → p.dirty ≡ false
    → Comes s p
    → (step p (Event.fetched s)).doc ≡ s.policy
unfolding step handle run_effect
fetched-Comes s p d c = came p.dirty d
  where
    came :
        (b : Bool)
        → b ≡ false
        → (effect_with (some s) b (record p { state = some s })).doc ≡ s.policy
    came false e = ground (arith, text_eq_iff s.policy p.doc, text_eq_iff p.loaded_hash s.policy)
    came true e = absurd (ground arith)

effect-Comes :
    (s : PolicyState) (p : Page)
    → p.dirty ≡ false
    → p.loaded_hash ≢ s.policy
    → ((run_effect p).dirty ≡ false) × Comes s (run_effect p)
unfolding run_effect
effect-Comes s p d n = comes p.state p.dirty d
  where
    comes :
        (o : Option PolicyState) (b : Bool)
        → b ≡ false
        → ((effect_with o b p).dirty ≡ false) × Comes s (effect_with o b p)
    comes none b e = (d, inl n)
    comes (some t) true e = absurd (ground arith)
    comes (some t) false e = elim (Bool-cases (loads t p)) [
      | inl l ↦ rw l (refl, elim (Text-cases t.policy s.policy) [ inl m ↦ inr m | inr m ↦ inl m ])
      | inr l ↦ rw l (d, inl n)
    ]

typed_lem : (p : Page) (t : Text) → step p (Event.typed t) ≡ change t p
unfolding step handle
typed_lem p t = effect_dirty (change t p) refl

save_came_lem :
    (p : Page) (warning reload : Bool)
    → p.pending ≡ true
    → step p (Event.save_came (SaveAnswer.saved warning reload))
      ≡ run_effect (save_done (SaveAnswer.saved warning reload) p)
unfolding step handle
save_came_lem p warning reload u =
    let q : Page = save_done (SaveAnswer.saved warning reload) p in
    ap run_effect {x = if p.pending then q else p} {y = q} (rw u)

-- Once a save has succeeded, the newest policy of the query replaces the text of the editor, a
-- change included that was made while the save was under way, where this policy is not the one that
-- was put into the editor last.
pub doc-save_came :
    (p : Page) (t : Text) (warning reload : Bool) (s : PolicyState)
    → p.pending ≡ true
    → p.loaded_hash ≢ s.policy
    → (run p (
        Event.typed t
        ∷ Event.save_came (SaveAnswer.saved warning reload)
        ∷ Event.fetched s
        ∷ [])).doc
      ≡ s.policy
unfolding run save_done
doc-save_came p t warning reload s u n =
    let q : Page = save_done (SaveAnswer.saved warning reload) (change t p) in
    let ends = effect-Comes s q refl n in
    rw (typed_lem p t) (
      rw (save_came_lem (change t p) warning reload u)
        (fetched-Comes s (run_effect q) ends.0 ends.1))
