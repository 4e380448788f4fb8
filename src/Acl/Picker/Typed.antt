-- ===== src/Acl/Picker/Typed.antt =====
-- The key Enter in the picker of frontend/src/pages/acls/inputs.tsx.
use mathlib.Core.Path.{subst}
use head_control.Common.{
  Bool, ◌∙◌, ap, List, true, inr, inl, false, ◌&&◌, [], ◌∷◌, ◌++◌, ◌≡◌, refl, length, if◌then◌else◌,
  none, some, Option, Bool-cases, ◌==◌,
}
use head_control.Text.{Text, text_eq, includes}
use head_control.Acl.Picker.{
  highlighted, enter, key, typed, handle, step, run, add, or_else, on_enter, is_error, is_blank,
  shown, read_selector, SelectorOption, Picker, run_effect, Props,
}

module _ (lower_case : Text → Text) (p : Props) where
  -- What was typed wins over an option that the list highlights by itself.
  on_enter-typed :
      (st : Picker) (o : Option SelectorOption)
      → st.navigated ≡ false
      → is_blank st.query ≡ false
      → on_enter lower_case p st o ≡ add lower_case p st.query st
  on_enter-typed st none n b = rw b refl
  on_enter-typed st (some o) n b = rw (n, b) refl

  -- What is left of the state after the text was read, where its check finds an error, and where it
  -- does not.
  abbrev Outcome : Bool → Text → List Text → Picker → Type 0
  Outcome true s old after =
      (after.value ≡ old)
      × (after.query ≡ s)
      × (after.note ≡ p.validate (read_selector lower_case p s).0)
  Outcome false s old after =
      let (t, hint) = read_selector lower_case p s in
      (after.value ≡ (if includes t old then old else old ++ t ∷ []))
      × (after.query ≡ [])
      × (after.note ≡ or_else hint (p.validate t))

  abbrev pub Read : Text → List Text → Picker → Type 0
  Read s old after = Outcome (is_error (p.validate (read_selector lower_case p s).0)) s old after

  run_effect-fields :
      (before st : Picker)
      → ((run_effect lower_case p before st).value ≡ st.value)
        × ((run_effect lower_case p before st).query ≡ st.query)
        × ((run_effect lower_case p before st).note ≡ st.note)
  unfolding run_effect
  run_effect-fields before st =
      elim (Bool-cases (
        length (shown lower_case p st) == length (shown lower_case p before)
        && text_eq st.query before.query)) [
          | inl e ↦ rw e (refl, refl, refl)
          | inr e ↦ rw e (refl, refl, refl)
        ]

  Outcome-fields :
      (bad : Bool) (s : Text) (old : List Text) (a b : Picker)
      → (b.value ≡ a.value) × (b.query ≡ a.query) × (b.note ≡ a.note)
      → Outcome bad s old a
      → Outcome bad s old b
  Outcome-fields true s old a b f h = (f.0 ∙ h.0, f.1 ∙ h.1, f.2 ∙ h.2)
  Outcome-fields false s old a b f h = (f.0 ∙ h.0, f.1 ∙ h.1, f.2 ∙ h.2)

  add-Read :
      (s : Text) (st : Picker)
      → is_blank s ≡ false
      → st.query ≡ s
      → Read s st.value (add lower_case p s st)
  unfolding add
  add-Read s st b q = elim (Bool-cases (is_error (p.validate (read_selector lower_case p s).0))) [
    | inl bad ↦ rw (b, bad) (refl, q, refl)
    | inr fine ↦ rw (b, fine) (refl, refl, refl)
  ]

  step-typed :
      (s : Text) (st : Picker)
      → text_eq s st.query ≡ false
      → ((step lower_case p st (typed s)).navigated ≡ false)
        × ((step lower_case p st (typed s)).query ≡ s)
        × ((step lower_case p st (typed s)).value ≡ st.value)
  unfolding step handle run_effect
  step-typed s st h =
      elim (Bool-cases (
        length (shown lower_case p (record st { query = s; is_open = true; note = none }))
        == length (shown lower_case p st))) [
          | inl e ↦ rw (e, h) (refl, refl, refl)
          | inr e ↦ rw e (refl, refl, refl)
        ]

  -- A text that is typed and then entered is what is read, not an option of the list: without an
  -- error it joins the values and the input is empty, and with one nothing but the note changes.
  pub run-typed_enter :
      (s : Text) (st : Picker)
      → text_eq s st.query ≡ false
      → is_blank s ≡ false
      → Read s st.value (run lower_case p st (typed s ∷ key enter ∷ []))
  unfolding run
  run-typed_enter s st h b =
      let st₁ = step lower_case p st (typed s) in
      let (still, query, value) = step-typed s st h in
      let entered : on_enter lower_case p st₁ (highlighted lower_case p st₁)
          ≡ add lower_case p s st₁ =
        on_enter-typed st₁ (highlighted lower_case p st₁) still (ap is_blank query ∙ b)
        ∙ ap (λ q. add lower_case p q st₁) query in
      let done = add-Read s st₁ b query in
      Outcome-fields (is_error (p.validate (read_selector lower_case p s).0)) s st.value
        (add lower_case p s st₁) (run lower_case p st (typed s ∷ key enter ∷ []))
        (let (v, q, n) =
            run_effect-fields st₁ (on_enter lower_case p st₁ (highlighted lower_case p st₁)) in
          (
            v ∙ ap (λ x. x.value) entered,
            q ∙ ap (λ x. x.query) entered,
            n ∙ ap (λ x. x.note) entered,
          ))
        (subst (λ old. Read s old (add lower_case p s st₁)) value done)
