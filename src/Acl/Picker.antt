-- ===== src/Acl/Picker.antt =====
-- `SelectorPicker` of frontend/src/pages/acls/inputs.tsx: its state with the value that its parent
-- keeps, and a step for each thing that the user does. The input is not disabled, its options, its
-- check and the hosts stay as they are, and `lower_case` is `toLowerCase`.
mod Values
mod Typed
mod Tests
use head_control.Common.{
  ℕ, suc, zero, ◌-◌, ◌==◌, Bool, true, false, not, ◌&&◌, ◌||◌, List, [], ◌∷◌, ◌++◌, ltb, keep,
  length, get_elem?, if◌then◌else◌, Option, none, some,
}
use head_control.Text.{Text, codes, text_eq, includes, trim, starts_with, has_unit, take, contains}
use head_control.Dict.{Dict}
use head_control.Acl.Ports.{split_dst, Destination}
use head_control.Acl.Selector.{Issue, Level, SelectorKind, a_warning, classify}
use head_control.Acl.Selector.Options.{kind_eq, SelectorOption}

pub data Tone : Type 0 where
  gray green yellow red blue purple : Tone

unfoldable pub kind_tone : SelectorKind → Tone
kind_tone SelectorKind.user = green
kind_tone SelectorKind.group = blue
kind_tone SelectorKind.tag = purple
kind_tone SelectorKind.host = yellow
kind_tone SelectorKind.unknown = red
kind_tone _ = gray

pub record Props : Type 0 where
  pub options : List SelectorOption
  pub validate : Text → Option Issue
  pub hosts : Dict Text
  pub free_text : Bool

-- `highlight` is `none` where the source has -1.
pub record Picker : Type 0 where
  pub value : List Text
  pub query : Text
  pub is_open : Bool
  pub highlight : Option ℕ
  pub navigated : Bool
  pub note : Option Issue

pub data Key : Type 0 where
  escape arrow_down arrow_up enter backspace tab : Key

pub data Event : Type 0 where
  key : Key → Event
  typed : Text → Event
  focused clicked_outside add_pressed : Event
  option_entered option_pressed : ℕ → Event
  chip_removed : Text → Event

unfoldable pub is_blank : Text → Bool
unfolding trim text_eq
is_blank s = text_eq (trim s) []

-- `s.slice(0, -1)`
abbrev but_last {ℓ} : {A : Type ℓ} → List A → List A
but_last [] = []
but_last (x ∷ []) = []
but_last (x ∷ y ∷ xs) = x ∷ but_last (y ∷ xs)

-- `Math.min(h + 1, n - 1)` and `Math.max(h - 1, 0)`, where -1 is `none`
abbrev next_of : Option ℕ → ℕ → Option ℕ
next_of h zero = none
next_of none (suc n) = some 0
next_of (some h) (suc n) = if ltb h n then some (suc h) else some n

abbrev previous_of : Option ℕ → ℕ
previous_of none = 0
previous_of (some h) = h - 1

abbrev is_unknown : SelectorKind → Bool
is_unknown SelectorKind.unknown = true
is_unknown _ = false

abbrev is_error : Option Issue → Bool
is_error none = false
is_error (some i) = elim (i.level) [ Level.error ↦ true | Level.warn ↦ false ]

abbrev or_else : Option Issue → Option Issue → Option Issue
or_else none b = b
or_else (some a) b = some a

-- The kinds of the options in the order of their first appearance, each with its options and their
-- places among those that are shown.
pub record Group : Type 0 where
  pub kind : SelectorKind
  pub items : List (SelectorOption × ℕ)

unfoldable put_option : SelectorOption → ℕ → List Group → List Group
put_option o i [] = record { kind = o.kind; items = (o, i) ∷ [] } ∷ []
put_option o i (g ∷ out) =
    let rest = put_option o i out in
    if kind_eq g.kind o.kind then record g { items = g.items ++ (o, i) ∷ [] } ∷ out else g ∷ rest

unfoldable pub group_options : List SelectorOption → ℕ → List Group → List Group
unfolding put_option
group_options [] i out = out
group_options (o ∷ os) i out = group_options os (suc i) (put_option o i out)

module _ (lower_case : Text → Text) where
  -- `q` is in the value or in the hint, which may be absent.
  matches : Text → SelectorOption → Bool
  unfolding contains
  matches q o =
      text_eq q []
      || contains (lower_case o.value) q
      || (elim (o.hint) [ none ↦ false | some h ↦ contains (lower_case h) q ])

  unfoldable pub filtered : Props → List Text → Text → List SelectorOption
  unfolding matches keep includes take
  filtered p value query = take 60 (
      keep (matches (lower_case (trim query))) (keep (λ o. not (includes o.value value)) p.options))

  -- `/^(tag|group|autogroup):/i.test(s)`
  has_prefix : Text → Bool
  unfolding starts_with
  has_prefix s =
      starts_with (lower_case s) (codes "tag:")
      || starts_with (lower_case s) (codes "group:")
      || starts_with (lower_case s) (codes "autogroup:")

  prefixed : Text → Text
  unfolding has_prefix
  prefixed s = if has_prefix s then lower_case s else s

  -- A text that is a destination loses its ports, with a hint.
  abbrev without_ports : Props → Text → Destination → Text × Option Issue
  without_ports p s d = elim (d.error) [
    | some e ↦ (s, none)
    | none ↦
        if not (text_eq d.ports []) && not (is_unknown (classify d.selector p.hosts))
        then (
          d.selector,
          a_warning (codes "Dropped \":" ++ (d.ports ++ codes "\" — ports go in the Ports field.")),
        )
        else (s, none)
  ]

  unfoldable pub read_selector : Props → Text → Text × Option Issue
  unfolding prefixed split_dst
  read_selector p raw =
      let s = prefixed (trim raw) in
      if not p.free_text && has_unit b':' s then without_ports p s (split_dst s) else (s, none)

  abbrev put_value : Text → List Text → List Text
  put_value s value = if includes s value then value else value ++ s ∷ []

  unfoldable pub add : Props → Text → Picker → Picker
  unfolding is_blank read_selector includes
  add p raw st =
      let (s, hint) = read_selector p raw in
      let issue = p.validate s in
      if is_blank raw
      then st
      else if is_error issue
      then record st { note = issue }
      else record st {
        value = put_value s st.value;
        note = or_else hint issue;
        query = [];
        is_open = false;
      }

  pub shown : Props → Picker → List SelectorOption
  unfolding filtered
  shown p st = filtered p st.value st.query

  -- The option that is highlighted, if the list is open.
  highlighted : Props → Picker → Option SelectorOption
  unfolding shown
  highlighted p st =
      if st.is_open
      then elim (st.highlight) [ none ↦ none | some h ↦ get_elem? (shown p st) h ]
      else none

  abbrev on_enter : Props → Picker → Option SelectorOption → Picker
  on_enter p st none = if is_blank st.query then st else add p st.query st
  on_enter p st (some o) =
      if st.navigated || is_blank st.query then add p o.value st else add p st.query st

  abbrev on_tab : Picker → Option SelectorOption → Picker
  on_tab st none = st
  on_tab st (some o) = if is_blank st.query then st else record st { query = o.value }

  unfoldable pub on_key : Props → Key → Picker → Picker
  unfolding add highlighted
  on_key p escape st = record st { is_open = false }
  on_key p arrow_down st = record st {
    is_open = true;
    navigated = true;
    highlight = next_of st.highlight (length (shown p st));
  }
  on_key p arrow_up st = record st { navigated = true; highlight = some (previous_of st.highlight) }
  on_key p enter st = on_enter p st (highlighted p st)
  on_key p backspace st =
      if text_eq st.query [] then record st { value = but_last st.value } else st
  on_key p tab st = on_tab st (highlighted p st)

  abbrev press_option : Props → Option SelectorOption → Picker → Picker
  press_option p none st = st
  press_option p (some o) st = add p o.value st

  unfoldable pub handle : Props → Event → Picker → Picker
  unfolding on_key add
  handle p (key k) st = on_key p k st
  handle p (typed s) st = record st { query = s; is_open = true; note = none }
  handle p focused st = record st { is_open = true }
  handle p clicked_outside st = record st { is_open = false }
  handle p add_pressed st = add p st.query st
  handle p (option_entered i) st = record st { highlight = some i }
  handle p (option_pressed i) st = press_option p (get_elem? (shown p st) i) st
  handle p (chip_removed v) st = record st { value = keep (λ x. not (text_eq x v)) st.value }

  -- The effect that runs where the number of options or the query is another than before.
  unfoldable pub run_effect : Props → Picker → Picker → Picker
  run_effect p before st =
      let n = length (shown p st) in
      if n == length (shown p before) && text_eq st.query before.query
      then st
      else record st { highlight = if n == 0 then none else some 0; navigated = false }

  unfoldable pub step : Props → Picker → Event → Picker
  unfolding handle run_effect
  step p st e = run_effect p st (handle p e st)

  -- The picker with a value, before the user does anything.
  unfoldable pub start : Props → List Text → Picker
  unfolding filtered
  start p value = record {
    value = value;
    query = [];
    is_open = false;
    highlight = if length (filtered p value []) == 0 then none else some 0;
    navigated = false;
    note = none;
  }

  unfoldable pub run : Props → Picker → List Event → Picker
  unfolding step
  run p st [] = st
  run p st (e ∷ es) = run p (step p st e) es
