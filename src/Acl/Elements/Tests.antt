-- ===== src/Acl/Elements/Tests.antt =====
-- The editors of elements at a concrete element.
use head_control.Acl.Elements.Saved.{get_field-save_element, form_fields, shown_at, field_after}
use head_control.Common.{[], ◌∷◌, ◌≡◌, refl, none, Option}
use head_control.Text.{Text, codes, text_eq, lower, includes}
use head_control.Json.{Json, Members, str, arr, nil, cons, end, member}
use head_control.Acl.Elements.{save_element, get_field, NodeAttrForm, save_node_attr, node_attr_of}

-- A node attribute whose keys are spelled in another way, with a pool that the form does not show.
abbrev base : Members
base = member (codes "Target") (str (codes "tag:web")) (
    member (codes "ATTR") (arr (cons (str (codes "a")) nil))
      (member (codes "ipPool") (arr (cons (str (codes "100.64.0.0/24")) nil)) end))

abbrev parse : Text → Option Json
parse s = none

abbrev print : Json → Text
print v = []

abbrev form : NodeAttrForm
form = record { target = codes "tag:db" ∷ []; attr = [] }

saved :
    save_node_attr base form
    ≡ member
        (codes "Target")
        (arr (cons (str (codes "tag:db")) nil))
        (member (codes "ipPool") (arr (cons (str (codes "100.64.0.0/24")) nil)) end)
unfolding save_node_attr
saved = refl

get_field-save_element_example :
    get_field (save_element parse print base (node_attr_of form)) (codes "attr")
    ≡ field_after
        (shown_at (codes "attr") (form_fields parse print (node_attr_of form)))
        (get_field base (codes "attr"))
unfolding includes lower text_eq
get_field-save_element_example =
    get_field-save_element parse print (node_attr_of form) base (codes "attr")
      (refl, (refl, (refl, tt)))
