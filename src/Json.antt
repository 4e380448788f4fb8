-- ===== src/Json.antt =====
-- JSON values, the elements of a policy (`PolicyElement` of frontend/src/api/types.ts), and
-- `canonical` of frontend/src/pages/acls/model.ts. A number is kept as the text that
-- `JSON.stringify` prints for it.
pub mod Rename
pub mod Fields
use head_control.Common.{
  ℕ, suc, ◌-◌, ◌+◌, ◌/◌, ◌%◌, Bool, true, false, ◌&&◌, ◌||◌, List, [], ◌∷◌, ◌++◌, map, ltb, leb,
  ◌==◌, if◌then◌else◌,
}
use head_control.Text.{Text, codes, join}
use head_control.Text.Sort.{text_lt}

mutual
  pub data Json : Type 0 where
    null : Json
    bool : Bool → Json
    num : Text → Json
    str : Text → Json
    arr : Items → Json
    obj : Members → Json

  pub data Items : Type 0 where
    nil : Items
    cons : Json → Items → Items

  pub data Members : Type 0 where
    end : Members
    member : Text → Json → Members → Members

hex_digit : ℕ → ℕ
hex_digit d = if ltb d 10 then b'0' + d else b'a' + (d - 10)

unicode_escape : ℕ → Text
unfolding hex_digit
unicode_escape c =
    codes "\\u"
    ++ hex_digit (c / 4096 % 16)
      ∷ hex_digit (c / 256 % 16)
      ∷ hex_digit (c / 16 % 16)
      ∷ hex_digit (c % 16)
      ∷ []

abbrev is_high : ℕ → Bool
is_high c = leb 0xd800 c && leb c 0xdbff

abbrev is_low : ℕ → Bool
is_low c = leb 0xdc00 c && leb c 0xdfff

-- One code unit inside quotes, where it is not half of a pair of surrogates.
quote_unit : ℕ → Text
unfolding unicode_escape
quote_unit c =
    if c == 0x22
    then codes "\\\""
    else if c == 0x5c
    then codes "\\\\"
    else if c == 8
    then codes "\\b"
    else if c == 9
    then codes "\\t"
    else if c == 10
    then codes "\\n"
    else if c == 12
    then codes "\\f"
    else if c == 13
    then codes "\\r"
    else if ltb c 32 || is_high c || is_low c
    then unicode_escape c
    else c ∷ []

quote_units : Text → Text
unfolding quote_unit
quote_units [] = []
quote_units (c ∷ []) = quote_unit c
quote_units (c ∷ d ∷ s) = elim (is_high c && is_low d) [
  | true ↦ c ∷ d ∷ quote_units s
  | false ↦ quote_unit c ++ quote_units (d ∷ s)
]

-- `JSON.stringify(s)` of a text
unfoldable pub quote : Text → Text
unfolding quote_units
quote s = b'"' ∷ (quote_units s ++ b'"' ∷ [])

insert_member : Text × Text → List (Text × Text) → List (Text × Text)
insert_member e [] = e ∷ []
insert_member (k, v) ((j, w) ∷ es) =
    let rest = insert_member (k, v) es in
    if text_lt j k then (j, w) ∷ rest else (k, v) ∷ (j, w) ∷ es

sort_members : List (Text × Text) → List (Text × Text)
unfolding insert_member
sort_members [] = []
sort_members (e ∷ es) = insert_member e (sort_members es)

print_member : Text × Text → Text
unfolding quote
print_member (k, v) = quote k ++ b':' ∷ v

unfoldable mutual
  unfolding print_member sort_members quote join

  pub canonical : Json → Text
  canonical null = codes "null"
  canonical (bool true) = codes "true"
  canonical (bool false) = codes "false"
  canonical (num n) = n
  canonical (str s) = quote s
  canonical (arr xs) = b'[' ∷ (join (codes ",") (canonical_items xs) ++ codes "]")
  canonical (obj ms) =
      b'{'
      ∷ (join (codes ",") (map print_member (sort_members (canonical_members ms))) ++ codes "}")

  pub canonical_items : Items → List Text
  canonical_items nil = []
  canonical_items (cons v vs) = canonical v ∷ canonical_items vs

  pub canonical_members : Members → List (Text × Text)
  canonical_members end = []
  canonical_members (member k v ms) = (k, canonical v) ∷ canonical_members ms
