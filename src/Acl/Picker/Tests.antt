-- ===== src/Acl/Picker/Tests.antt =====
-- The picker at concrete events.
use head_control.Acl.Selector.Fields.{validate_plain}
use head_control.Acl.Picker.Values.{run-ArePicked, ArePicked}
use head_control.Acl.Selector.Options.{option}
use head_control.Common.{inl, List, false, [], ◌∷◌, ◌≡◌, refl, none, some, map}
use head_control.Acl.Selector.{has_space, classify}
use head_control.Common.{any}
use head_control.Text.Decimal.{number}
use head_control.Text.{has_unit, text_eq, includes, Text, codes, lower}
use head_control.Acl.Picker.{
  typed, SelectorKind, Event, key, start, Picker, Props, run, enter, backspace, focused,
}

abbrev lower_case : Text → Text
lower_case = map lower

abbrev props : Props
props = record {
  options =
      option (codes "tag:web") SelectorKind.tag none
      ∷ option (codes "group:eng") SelectorKind.group (some (codes "1 members"))
      ∷ [];
  validate = validate_plain (codes "values");
  hosts = [];
  free_text = false;
}

abbrev first : Picker
first = start lower_case props (codes "ann@" ∷ [])

abbrev events : List Event
events = focused ∷ key enter ∷ typed (codes "Tag:db:443") ∷ key enter ∷ key backspace ∷ []

run-ArePicked_example :
    ArePicked props (codes "ann@" ∷ []) (run lower_case props first events).value
unfolding start includes text_eq
run-ArePicked_example =
    run-ArePicked lower_case props (codes "ann@" ∷ []) first events ((refl, tt), (inl refl, tt))

-- With nothing typed the first option is added; a destination loses its ports.
values_example :
    (run lower_case props first
      (focused ∷ key enter ∷ typed (codes "Tag:db:443") ∷ key enter ∷ [])).value
    ≡ codes "ann@" ∷ codes "tag:web" ∷ codes "tag:db" ∷ []
unfolding run start validate_plain has_space any has_unit lower number classify
values_example = refl
