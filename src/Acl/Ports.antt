-- ===== src/Acl/Ports.antt =====
-- Port specifications and destinations: `parsePorts`, `splitDst`, `joinDst`, `mergePorts` and
-- `protoAllowsPorts` of frontend/src/pages/acls/model.ts.
pub mod Printed
pub mod Spec
pub mod Canonical
pub mod Dst
pub mod Merge
mod Tests
use mathlib.Core.List.{foldl}
use head_control.Common.{
  ℕ, zero, suc, ◌-◌, Bool, true, false, not, ◌&&◌, ◌||◌, List, [], ◌∷◌, ◌++◌, map, ltb, leb, ◌==◌,
  if◌then◌else◌, Option, none, some, length, keep, find, all,
}
use head_control.Text.{
  Text, codes, text_eq, includes, trim, split, join, is_number, last_index_of, take, drop, is_digit,
}
use head_control.Text.Decimal.{show, number}

-- `{ ok: true; value }` and `{ ok: false; error }`
pub data Parsed : Type 0 where
  ok : Text → Parsed
  fail : Text → Parsed

abbrev pub quoted : Text → Text
quoted s = codes "\"" ++ (s ++ codes "\"")

range_of_parts : List Text → Option (ℕ × ℕ)
unfolding is_number
range_of_parts [] = none
range_of_parts (a ∷ []) = if is_number 5 a then some (number a, number a) else none
range_of_parts (a ∷ b ∷ []) =
    if is_number 5 a && is_number 5 b then some (number a, number b) else none
range_of_parts (a ∷ b ∷ c ∷ r) = none

-- `/^(\d{1,5})(?:-(\d{1,5}))?$/`, with the second bound the first one where it is left out
match_range : Text → Option (ℕ × ℕ)
unfolding range_of_parts split
match_range part = range_of_parts (split b'-' part)

unfoldable pub show_range : ℕ × ℕ → Text
unfolding show
show_range (lo, hi) = if hi == lo then show lo else show lo ++ b'-' ∷ show hi

abbrev off_limits : ℕ → Bool
off_limits n = ltb n 1 || ltb 65535 n

check_range : Text → Option (ℕ × ℕ) → Parsed
unfolding show_range
check_range part none = fail (quoted part ++ codes " is not a port or port range")
check_range part (some (lo, hi)) =
    if off_limits lo || off_limits hi
    then fail (quoted part ++ codes " is outside 1-65535")
    else if ltb hi lo
    then fail (quoted part ++ codes " has its bounds reversed")
    else ok (show_range (lo, hi))

-- One round of the loop of `parsePorts`, up to the test for a repeated entry.
check_part : Text → Parsed
unfolding text_eq check_range match_range
check_part part =
    if text_eq part []
    then fail (codes "empty entry in port list")
    else if text_eq part (codes "*")
    then fail (codes "\"*\" cannot be combined with port numbers")
    else check_range part (match_range part)

-- The loop of `parsePorts`. `seen` and `out` hold the same entries.
pub check_parts : List Text → List Text → Parsed
unfolding check_part includes join
check_parts [] out = ok (join (codes ",") out)
check_parts (part ∷ parts) out = elim (check_part part) [
  | fail e ↦ fail e
  | ok norm ↦
      let rest = check_parts parts (out ++ norm ∷ []) in
      if includes norm out then fail (quoted part ++ codes " is listed twice") else rest
]

unfoldable pub parse_ports : Text → Parsed
unfolding check_parts trim split text_eq
parse_ports spec =
    let s = trim spec in
    if text_eq s []
    then fail (codes "ports are required (use * for all)")
    else if text_eq s (codes "*")
    then ok (codes "*")
    else check_parts (map trim (split b',' s)) []

-- The result of `splitDst`.
pub record Destination : Type 0 where
  pub selector : Text
  pub ports : Text
  pub error : Option Text

abbrev dst_error : Text
dst_error = codes "destination needs \":<ports>\", e.g. tag:web:443 or 10.0.0.0/24:*"

abbrev dst_of : Text → Text → Parsed → Destination
dst_of selector ports (ok value) = record { selector = selector; ports = value; error = none }
dst_of selector ports (fail e) = record { selector = selector; ports = ports; error = some e }

split_at : Text → Option ℕ → Destination
unfolding take drop parse_ports
split_at dst none = record { selector = dst; ports = []; error = some dst_error }
split_at dst (some i) =
    if i == 0 || i == length dst - 1
    then record { selector = dst; ports = []; error = some dst_error }
    else dst_of (take i dst) (drop (suc i) dst) (parse_ports (drop (suc i) dst))

unfoldable pub split_dst : Text → Destination
unfolding split_at last_index_of
split_dst dst = split_at dst (last_index_of b':' dst)

unfoldable pub join_dst : Text → Text → Text
join_dst selector ports = selector ++ b':' ∷ ports

-- `[...new Set(xs)]`
unfoldable pub dedup : List Text → List Text → List Text
unfolding includes
dedup [] out = out
dedup (x ∷ xs) out = dedup xs (if includes x out then out else out ++ x ∷ [])

unfoldable pub merge_ports : Text → Text → Text
unfolding text_eq split join dedup trim keep
merge_ports a b =
    if text_eq a (codes "*") || text_eq b (codes "*")
    then codes "*"
    else join (codes ",")
        (dedup (keep (λ x. not (text_eq x [])) (map trim (split b',' a ++ split b',' b))) [])

-- The entries of `PROTOCOLS`.
pub record Protocol : Type 0 where
  pub value : Text
  pub label : Text
  pub ports : Bool

abbrev proto : Text → Text → Bool → Protocol
proto v l p = record { value = v; label = l; ports = p }

abbrev pub protocols : List Protocol
protocols =
    proto [] (codes "Any") true
    ∷ proto (codes "tcp") (codes "TCP") true
    ∷ proto (codes "udp") (codes "UDP") true
    ∷ proto (codes "sctp") (codes "SCTP") true
    ∷ proto (codes "icmp") (codes "ICMP (IPv4)") false
    ∷ proto (codes "ipv6-icmp") (codes "ICMPv6") false
    ∷ proto (codes "gre") (codes "GRE") false
    ∷ proto (codes "esp") (codes "ESP") false
    ∷ proto (codes "ah") (codes "AH") false
    ∷ proto (codes "igmp") (codes "IGMP") false
    ∷ []

-- `/^\d+$/`
abbrev all_digits : Text → Bool
all_digits s = all is_digit s && ltb 0 (length s)

unfoldable pub proto_allows_ports : Text → Bool
unfolding text_eq find all is_digit
proto_allows_ports p = elim (find (λ x. text_eq x.value p) protocols) [
  | some x ↦ x.ports
  | none ↦ if all_digits p then false else true
]
