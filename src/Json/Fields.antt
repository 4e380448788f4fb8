-- ===== src/Json/Fields.antt =====
-- The fields of an element: `fieldName`, `getField`, `getString`, `getList` and `setField` of
-- frontend/src/pages/acls/model.ts. No key stands twice in an object.
mod First
pub mod Laws
use head_control.Common.{
  Bool, true, false, List, [], ◌∷◌, ◌≡◌, map, if◌then◌else◌, Option, none, some, find,
}
use head_control.Text.{Text, text_eq, lower}
use head_control.Json.{Json, Items, Members, null, str, arr, obj, nil, cons, end, member}

-- `Object.keys(o)`
abbrev pub member_keys : Members → List Text
member_keys end = []
member_keys (member k v m) = k ∷ member_keys m

-- `o[k]`, for an own member
unfoldable pub get_member : Text → Members → Option Json
get_member k end = none
get_member k (member j v m) = let rest = get_member k m in if text_eq j k then some v else rest

-- `out[k] = v` and `delete out[k]`
unfoldable pub put_member : Text → Json → Members → Members
put_member k v end = member k v end
put_member k v (member j w m) =
    let rest = put_member k v m in if text_eq j k then member j v m else member j w rest

unfoldable pub drop_member : Text → Members → Members
drop_member k end = end
drop_member k (member j w m) =
    let rest = drop_member k m in if text_eq j k then m else member j w rest

-- `k.toLowerCase() === name.toLowerCase()`
unfoldable pub same_name : Text → Text → Bool
unfolding text_eq lower
same_name k name = text_eq (map lower k) (map lower name)

unfoldable pub field_name : Members → Text → Option Text
unfolding find same_name
field_name o name = find (λ k. same_name k name) (member_keys o)

-- `k === undefined ? undefined : o[k]`
abbrev pub member_at : Members → Option Text → Option Json
member_at o none = none
member_at o (some k) = get_member k o

unfoldable pub get_field : Members → Text → Option Json
unfolding field_name get_member
get_field o name = member_at o (field_name o name)

abbrev string_of : Option Json → Text
string_of (some (str s)) = s
string_of _ = []

unfoldable pub get_string : Members → Text → Text
unfolding get_field
get_string o name = string_of (get_field o name)

-- The texts among the items.
abbrev strings : Items → List Text
strings nil = []
strings (cons (str s) is) = s ∷ strings is
strings (cons v is) = strings is

abbrev pub list_of : Option Json → List Text
list_of (some (str s)) = s ∷ []
list_of (some (arr is)) = strings is
list_of _ = []

unfoldable pub get_list : Members → Text → List Text
unfolding get_field
get_list o name = list_of (get_field o name)

-- `undefined`, "" and [] remove a field.
abbrev pub stored : Option Json → Option Json
stored none = none
stored (some (str [])) = none
stored (some (arr nil)) = none
stored (some v) = some v

abbrev pub key_or : Text → Option Text → Text
key_or name none = name
key_or name (some k) = k

abbrev pub write_member : Text → Option Json → Members → Members
write_member k none o = drop_member k o
write_member k (some v) o = put_member k v o

unfoldable pub set_field : Members → Text → Option Json → Members
unfolding field_name put_member drop_member
set_field o name value = write_member (key_or name (field_name o name)) (stored value) o
