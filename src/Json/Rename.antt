-- ===== src/Json/Rename.antt =====
-- `renameInValue` and `mentions` of frontend/src/pages/acls/model.ts.
use head_control.Common.{
  Bool, true, false, not, [], ◌∷◌, map, if◌then◌else◌, Option, none, some, ◌&&◌,
}
use head_control.Text.{Text, codes, text_eq, lower}
use head_control.Json.{
  Json, null, bool, num, str, arr, obj, Items, nil, cons, Members, end, member, canonical,
}
use head_control.Acl.Ports.{Destination, split_dst, join_dst}

abbrev is_none : Option Text → Bool
is_none none = true
is_none (some e) = false

-- A destination whose selector is `from`, with its ports.
unfoldable pub rename_dst : Destination → Text → Text → Text → Text
unfolding join_dst
rename_dst d v from to =
    if is_none d.error && text_eq d.selector from then join_dst to d.ports else v

unfoldable pub rename_text : Text → Text → Text → Text
unfolding rename_dst
rename_text v from to = if text_eq v from then to else rename_dst (split_dst v) v from to

-- A member named "app" is left as it is.
unfoldable mutual
  unfolding rename_text

  pub rename_in_value : Json → Text → Text → Json
  rename_in_value null from to = null
  rename_in_value (bool b) from to = bool b
  rename_in_value (num n) from to = num n
  rename_in_value (str v) from to = str (rename_text v from to)
  rename_in_value (arr xs) from to = arr (rename_in_items xs from to)
  rename_in_value (obj ms) from to = obj (rename_in_members ms from to)

  pub rename_in_items : Items → Text → Text → Items
  rename_in_items nil from to = nil
  rename_in_items (cons v vs) from to =
      cons (rename_in_value v from to) (rename_in_items vs from to)

  pub rename_in_members : Members → Text → Text → Members
  rename_in_members end from to = end
  rename_in_members (member k v ms) from to =
      member k (if text_eq (map lower k) (codes "app") then v else rename_in_value v from to)
        (rename_in_members ms from to)

-- The placeholder holds the code unit 0, which no selector has.
unfoldable pub mentions : Json → Text → Bool
mentions v sel = not (text_eq (canonical (rename_in_value v sel (0 ∷ []))) (canonical v))
