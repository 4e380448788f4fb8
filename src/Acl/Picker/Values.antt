-- ===== src/Acl/Picker/Values.antt =====
-- What the picker of frontend/src/pages/acls/inputs.tsx gives to its parent.
use mathlib.Core.Path.{subst}
use head_control.Acl.Picker.{
  chip_removed, option_pressed, option_entered, typed, is_blank, key, highlighted, shown,
  press_option, Key, Event, on_enter, step, on_tab, read_selector, add, but_last, SelectorOption,
  run, run_effect, on_key, is_error, Picker, handle, Props,
}
use head_control.Common.{
  get_elem?, sym, length, Bool, true, false, not, ◌||◌, List, [], ◌∷◌, ◌++◌, ◌≡◌, ◌⊎◌, inl, inr,
  refl, arith, All, keep, if◌then◌else◌, none, some, Option, Bool-cases, All-append,
}
use head_control.Acl.Picker.{
  escape, arrow_down, arrow_up, enter, backspace, tab, focused, clicked_outside, add_pressed,
}
use head_control.Common.{◌==◌, ◌&&◌}
use head_control.Text.{Text, text_eq, includes}
use head_control.Acl.Ports.Spec.{Distinct, Distinct-concat}

-- A value that was there, or passes the check without an error.
abbrev pub IsFine : Props → List Text → Text → Type 0
IsFine p old v = (includes v old ≡ true) ⊎ (is_error (p.validate v) ≡ false)

-- The values are distinct, and each was there or passes the check.
abbrev pub ArePicked : Props → List Text → List Text → Type 0
ArePicked p old value = Distinct value × All (IsFine p old) value

includes-keep :
    (f : Text → Bool) (s : Text) (xs : List Text)
    → includes s xs ≡ false
    → includes s (keep f xs) ≡ false
unfolding includes keep
includes-keep f s [] h = refl
includes-keep f s (x ∷ xs) h = ground (arith, includes-keep f s xs)

Distinct-keep : (f : Text → Bool) (xs : List Text) → Distinct xs → Distinct (keep f xs)
unfolding keep includes
Distinct-keep f [] d = tt
Distinct-keep f (x ∷ xs) d = ground (arith, Distinct-keep f xs d.1, includes-keep f x xs d.0)

All-keep {ℓ κ} :
    {A : Type ℓ} (P : A → Type κ) (f : A → Bool) (xs : List A) → All P xs → All P (keep f xs)
unfolding keep
All-keep P f [] h = tt
All-keep P f (x ∷ xs) h = elim (Bool-cases (f x)) [
  | inl e ↦ rw e (h.0, All-keep P f xs h.1)
  | inr e ↦ rw e (All-keep P f xs h.1)
]

includes-but_last :
    (s : Text) (xs : List Text) → includes s xs ≡ false → includes s (but_last xs) ≡ false
unfolding includes
includes-but_last s [] h = refl
includes-but_last s (x ∷ []) h = refl
includes-but_last s (x ∷ y ∷ xs) h = ground (arith, includes-but_last s (y ∷ xs))

Distinct-but_last : (xs : List Text) → Distinct xs → Distinct (but_last xs)
Distinct-but_last [] d = tt
Distinct-but_last (x ∷ []) d = tt
Distinct-but_last (x ∷ y ∷ xs) d =
    (includes-but_last x (y ∷ xs) d.0, Distinct-but_last (y ∷ xs) d.1)

All-but_last {ℓ κ} : {A : Type ℓ} (P : A → Type κ) (xs : List A) → All P xs → All P (but_last xs)
All-but_last P [] h = tt
All-but_last P (x ∷ []) h = tt
All-but_last P (x ∷ y ∷ xs) h = (h.0, All-but_last P (y ∷ xs) h.1)

module _ (lower_case : Text → Text) (p : Props) (old : List Text) where
  ArePicked-keep :
      (f : Text → Bool) (xs : List Text) → ArePicked p old xs → ArePicked p old (keep f xs)
  ArePicked-keep f xs h = (Distinct-keep f xs h.0, All-keep (IsFine p old) f xs h.1)

  ArePicked-but_last : (xs : List Text) → ArePicked p old xs → ArePicked p old (but_last xs)
  ArePicked-but_last xs h = (Distinct-but_last xs h.0, All-but_last (IsFine p old) xs h.1)

  ArePicked-put_value :
      (s : Text) (xs : List Text)
      → is_error (p.validate s) ≡ false
      → ArePicked p old xs
      → ArePicked p old (if includes s xs then xs else xs ++ s ∷ [])
  ArePicked-put_value s xs fine h = elim (Bool-cases (includes s xs)) [
    | inl e ↦ rw e h
    | inr e ↦
        rw e (Distinct-concat xs s h.0 e, All-append (IsFine p old) xs (s ∷ []) h.1 (inr fine, tt))
  ]

  add-ArePicked :
      (raw : Text) (st : Picker)
      → ArePicked p old st.value
      → ArePicked p old (add lower_case p raw st).value
  unfolding add
  add-ArePicked raw st h =
      let s = (read_selector lower_case p raw).0 in
      elim (Bool-cases (is_blank raw)) [
        | inl e ↦ rw e h
        | inr e ↦ elim (Bool-cases (is_error (p.validate s))) [
          | inl bad ↦ rw (e, bad) h
          | inr fine ↦ rw (e, fine) (ArePicked-put_value s st.value fine h)
        ]
      ]

  on_enter-ArePicked :
      (st : Picker) (o : Option SelectorOption)
      → ArePicked p old st.value
      → ArePicked p old (on_enter lower_case p st o).value
  on_enter-ArePicked st none h = elim (Bool-cases (is_blank st.query)) [
    | inl e ↦ rw e h
    | inr e ↦ rw e (add-ArePicked st.query st h)
  ]
  on_enter-ArePicked st (some o) h = elim (Bool-cases (st.navigated || is_blank st.query)) [
    | inl e ↦ rw e (add-ArePicked o.value st h)
    | inr e ↦ rw e (add-ArePicked st.query st h)
  ]

  on_tab-value :
      (st : Picker) (o : Option SelectorOption) → (on_tab lower_case st o).value ≡ st.value
  on_tab-value st none = refl
  on_tab-value st (some o) = elim (Bool-cases (is_blank st.query)) [
    | inl e ↦ rw e refl
    | inr e ↦ rw e refl
  ]

  on_key-ArePicked :
      (k : Key) (st : Picker)
      → ArePicked p old st.value
      → ArePicked p old (on_key lower_case p k st).value
  unfolding on_key
  on_key-ArePicked escape st h = h
  on_key-ArePicked arrow_down st h = h
  on_key-ArePicked arrow_up st h = h
  on_key-ArePicked enter st h = on_enter-ArePicked st (highlighted lower_case p st) h
  on_key-ArePicked backspace st h = elim (Bool-cases (text_eq st.query [])) [
    | inl e ↦ rw e (ArePicked-but_last st.value h)
    | inr e ↦ rw e h
  ]
  on_key-ArePicked tab st h =
      subst (ArePicked p old) (sym (on_tab-value st (highlighted lower_case p st))) h

  press_option-ArePicked :
      (o : Option SelectorOption) (st : Picker)
      → ArePicked p old st.value
      → ArePicked p old (press_option lower_case p o st).value
  press_option-ArePicked none st h = h
  press_option-ArePicked (some o) st h = add-ArePicked o.value st h

  handle-ArePicked :
      (e : Event) (st : Picker)
      → ArePicked p old st.value
      → ArePicked p old (handle lower_case p e st).value
  unfolding handle
  handle-ArePicked (key k) st h = on_key-ArePicked k st h
  handle-ArePicked (typed s) st h = h
  handle-ArePicked focused st h = h
  handle-ArePicked clicked_outside st h = h
  handle-ArePicked add_pressed st h = add-ArePicked st.query st h
  handle-ArePicked (option_entered i) st h = h
  handle-ArePicked (option_pressed i) st h =
      press_option-ArePicked (get_elem? (shown lower_case p st) i) st h
  handle-ArePicked (chip_removed v) st h = ArePicked-keep (λ x. not (text_eq x v)) st.value h

  run_effect-value : (before st : Picker) → (run_effect lower_case p before st).value ≡ st.value
  unfolding run_effect
  run_effect-value before st =
      elim (Bool-cases (
        length (shown lower_case p st) == length (shown lower_case p before)
        && text_eq st.query before.query)) [ inl e ↦ rw e refl | inr e ↦ rw e refl ]

  -- Whatever the user does, the values stay distinct, and each is one that was there or passes the
  -- check without an error.
  pub run-ArePicked :
      (st : Picker) (es : List Event)
      → ArePicked p old st.value
      → ArePicked p old (run lower_case p st es).value
  unfolding run step
  run-ArePicked st [] h = h
  run-ArePicked st (e ∷ es) h = run-ArePicked (step lower_case p st e) es (
      subst (ArePicked p old) (sym (run_effect-value st (handle lower_case p e st)))
        (handle-ArePicked e st h))
