-- ===== src/Acl/Selector/Cidr.antt =====
-- `isIpOrCidr` of frontend/src/pages/acls/model.ts.
use head_control.Common.{
  ℕ, Bool, true, false, not, ◌&&◌, ◌||◌, List, [], ◌∷◌, ltb, leb, ◌==◌, if◌then◌else◌, Option, none,
  some, length, keep, any, all, suc,
}
use head_control.Text.{
  Text, text_eq, attach, split, is_number, is_digit, index_of, take, drop, has_unit,
}
use head_control.Text.Decimal.{number}

-- `s.split("::")`
split_pair : ℕ → Text → List Text
unfolding attach
split_pair sep [] = [] ∷ []
split_pair sep (c ∷ []) = (c ∷ []) ∷ []
split_pair sep (c ∷ d ∷ s) = elim (c == sep && d == sep) [
  | true ↦ [] ∷ split_pair sep s
  | false ↦ attach c (split_pair sep (d ∷ s))
]

is_hex_or_colon : ℕ → Bool
unfolding is_digit
is_hex_or_colon c =
    is_digit c || (leb b'a' c && leb c b'f') || (leb b'A' c && leb c b'F') || c == b':'

abbrev prefix_at_most : ℕ → Option Text → Bool
prefix_at_most n none = true
prefix_at_most n (some p) = leb (number p) n

-- The four numbers of `/^(\d{1,3})\.(\d{1,3})\.(\d{1,3})\.(\d{1,3})$/`
octets : List Text → Option (List ℕ)
unfolding is_number number
octets (a ∷ b ∷ c ∷ d ∷ []) =
    if is_number 3 a && is_number 3 b && is_number 3 c && is_number 3 d
    then some (number a ∷ number b ∷ number c ∷ number d ∷ [])
    else none
octets _ = none

is_v6 : Text → Option Text → Bool
unfolding all is_hex_or_colon has_unit split_pair split keep any number text_eq
is_v6 addr prefix =
    let dbl = length (split_pair b':' addr) in
    let groups = keep (λ g. not (text_eq g [])) (split b':' addr) in
    if not (all is_hex_or_colon addr && ltb 0 (length addr)) || not (has_unit b':' addr)
    then false
    else if ltb 2 dbl
    then false
    else if any (λ g. ltb 4 (length g)) groups
    then false
    else if (if dbl == 2 then ltb 7 (length groups) else not (length groups == 8))
    then false
    else prefix_at_most 128 prefix

abbrev bad_prefix : Option Text → Bool
bad_prefix none = false
bad_prefix (some p) = not (is_number 3 p)

check_ip : Text → Option Text → Bool
unfolding is_number octets is_v6 split number any
check_ip addr prefix = if bad_prefix prefix then false else elim (octets (split b'.' addr)) [
  | some os ↦ if any (λ o. ltb 255 o) os then false else prefix_at_most 32 prefix
  | none ↦ is_v6 addr prefix
]

unfoldable pub is_ip_or_cidr : Text → Bool
unfolding index_of take drop check_ip
is_ip_or_cidr s = elim (index_of b'/' s) [
  | some slash ↦ check_ip (take slash s) (some (drop (suc slash) s))
  | none ↦ check_ip s none
]
