-- ===== src/Dns/Records.antt =====
-- The extra records, their check and their duplicates, frontend/src/pages/DnsPage.tsx.
use head_control.Common.{
  ℕ, Bool, false, ◌&&◌, ◌||◌, Option, none, some, List, [], ◌∷◌, ◌++◌, leb, ◌==◌, if◌then◌else◌,
  length, all,
}
use head_control.Text.{Text, codes, includes, split, has_unit, is_digit, is_number}

pub data RecordType : Type 0 where
  a aaaa : RecordType

pub record DnsRecord : Type 0 where
  pub name : Text
  pub type : RecordType
  pub value : Text

abbrev pub type_text : RecordType → Text
type_text a = codes "A"
type_text aaaa = codes "AAAA"

-- `/^(\d{1,3}\.){3}\d{1,3}$/.test(s)`, by the parts between the full stops
abbrev four_numbers : List Text → Bool
four_numbers (p ∷ q ∷ r ∷ s ∷ []) =
    is_number 3 p && (is_number 3 q && (is_number 3 r && is_number 3 s))
four_numbers _ = false

unfoldable pub ipv4 : Text → Bool
unfolding is_number split
ipv4 s = four_numbers (split b'.' s)

unfoldable pub is_alnum : ℕ → Bool
unfolding is_digit
is_alnum c = (leb b'a' c && leb c b'z') || (leb b'A' c && leb c b'Z') || is_digit c

unfoldable pub is_name_unit : ℕ → Bool
unfolding is_alnum
is_name_unit c = is_alnum c || c == b'-'

-- `[a-zA-Z0-9-]*[a-zA-Z0-9]`, of the units after the first
unfoldable pub ends_alnum : Text → Bool
unfolding is_alnum is_name_unit
ends_alnum [] = false
ends_alnum (c ∷ []) = is_alnum c
ends_alnum (c ∷ d ∷ s) = is_name_unit c && ends_alnum (d ∷ s)

-- `[a-zA-Z0-9]([a-zA-Z0-9-]{0,61}[a-zA-Z0-9])?`
unfoldable pub is_label : Text → Bool
unfolding is_alnum ends_alnum
is_label [] = false
is_label (c ∷ []) = is_alnum c
is_label (c ∷ d ∷ s) = is_alnum c && (leb (length (d ∷ s)) 62 && ends_alnum (d ∷ s))

-- `NAME_RE.test(s)`
unfoldable pub is_name : Text → Bool
unfolding is_label split all
is_name s = all is_label (split b'.' s)

abbrev shown_name : Text → Text
shown_name [] = codes "(empty)"
shown_name (c ∷ s) = c ∷ s

abbrev quoted : Text → Text → Text
quoted s t = b'"' ∷ (s ++ codes "\"" ++ t)

abbrev value_error : RecordType → Text → Option Text
value_error a v = if ipv4 v then none else some (quoted v (codes " is not a valid IPv4 address"))
value_error aaaa v =
    if has_unit b':' v then none else some (quoted v (codes " is not a valid IPv6 address"))

-- The empty name fails the test of the name as well.
unfoldable pub validate_record : DnsRecord → Option Text
unfolding is_name ipv4 has_unit
validate_record r =
    if is_name r.name
    then value_error r.type r.value
    else some (quoted (shown_name r.name) (codes " is not a valid DNS name"))

-- `${r.name}/${r.type}`
unfoldable pub record_key : DnsRecord → Text
record_key r = r.name ++ (b'/' ∷ type_text r.type)

-- `Set.add`, on the members in the order in which they came
abbrev pub add_member : Text → List Text → List Text
add_member s xs = if includes s xs then xs else xs ++ s ∷ []

-- The loop over the draft: what is seen, and the duplicates.
unfoldable pub dupes_from : List DnsRecord → List Text → List Text → List Text
unfolding record_key includes
dupes_from [] seen dupes = dupes
dupes_from (r ∷ rs) seen dupes =
    dupes_from rs (add_member (record_key r) seen)
      (if includes (record_key r) seen then add_member (record_key r) dupes else dupes)

unfoldable pub dupes : List DnsRecord → List Text
unfolding dupes_from
dupes draft = dupes_from draft [] []

-- `errors.find((e) => e !== null) ?? null`
unfoldable pub first_error : List DnsRecord → Option Text
unfolding validate_record
first_error [] = none
first_error (r ∷ rs) = elim (validate_record r) [ some e ↦ some e | none ↦ first_error rs ]
