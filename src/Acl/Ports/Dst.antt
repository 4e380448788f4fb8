-- ===== src/Acl/Ports/Dst.antt =====
-- `splitDst` and `joinDst` are inverse to one another.
use head_control.Common.{
  ne_of_length-ne, suc, Option-cases, ◌≤◌, [], ◌∷◌, ◌≡◌, ◌≢◌, inl, inr, refl, arith, length, none,
  length-append,
}
use head_control.Text.{take, drop, last_index_of, Text, is_digit}
use head_control.Text.Split.{
  last_index_of-split, last_index_of_of_Lacks, Lacks, last_index_of-append, take-length-append,
  drop-length-append,
}
use head_control.Acl.Ports.{ok, parse_ports, split_at, split_dst, join_dst}
use head_control.Acl.Ports.Spec.{IsSpec}
use head_control.Acl.Ports.Canonical.{Parsed-cases, parse_ports_of_IsSpec}
use head_control.Acl.Ports.Printed.{show_ranges-ne, All-show_ranges}

IsSpec-Lacks_colon : (v : Text) → IsSpec v → Lacks b':' v
IsSpec-Lacks_colon v (inl e) = rw e (omega arith)
IsSpec-Lacks_colon v (inr (rs, h, e)) =
    rw e (All-show_ranges (λ c. c ≢ b':') rs (omega arith) λ c k. unfold is_digit in ground arith)

length-pos : (s : Text) → s ≢ [] → 1 ≤ length s
length-pos [] h = absurd (h refl)
length-pos (c ∷ s) h = omega arith

-- Ports with no colon that `parsePorts` accepts are split off again, in normal form.
pub split_dst-join_dst_of_ok :
    (selector ports v : Text)
    → selector ≢ []
    → ports ≢ []
    → Lacks b':' ports
    → parse_ports ports ≡ ok v
    → split_dst (join_dst selector ports) ≡ record { selector = selector; ports = v; error = none }
unfolding split_dst join_dst split_at
split_dst-join_dst_of_ok selector ports v some_selector some_ports lacks h = ground (
  arith,
  last_index_of-append b':' selector ports lacks,
  length-append selector (b':' ∷ ports),
  length-pos selector some_selector,
  length-pos ports some_ports,
  take-length-append selector (b':' ∷ ports),
  drop-length-append selector b':' ports,
)

IsSpec-ne-nil : (v : Text) → IsSpec v → v ≢ []
IsSpec-ne-nil v (inl e) = rw e (cc)
IsSpec-ne-nil v (inr (rs, h, e)) = rw e ((show_ranges-ne rs h.0).0)

-- A destination that is joined from a selector and ports in normal form is split into the two.
pub split_dst-join_dst :
    (selector v : Text)
    → selector ≢ []
    → IsSpec v
    → split_dst (join_dst selector v) ≡ record { selector = selector; ports = v; error = none }
split_dst-join_dst selector v h spec =
    split_dst-join_dst_of_ok selector v v h (IsSpec-ne-nil v spec) (IsSpec-Lacks_colon v spec)
      (parse_ports_of_IsSpec v spec)

-- Where `splitDst` reports no error, the destination is the selector, a colon and ports that
-- `parsePorts` turns into the ports of the result.
pub split_dst_sound :
    (d : Text)
    → (split_dst d).error ≡ none
    → (ports : Text) × (d ≡ join_dst (split_dst d).selector ports)
      × ((split_dst d).selector ≢ [])
      × (parse_ports ports ≡ ok (split_dst d).ports)
unfolding split_dst join_dst split_at
split_dst_sound d h = elim (Option-cases (last_index_of b':' d)) [
  | inl e ↦ ground arith
  | inr (i, e) ↦
      let (whole, size, inside) = last_index_of-split b':' d i e in
      let ports = drop (suc i) d in
      elim (Parsed-cases (parse_ports ports)) [
        | inl (v, p) ↦
            (ports, ground arith, ground (arith, ne_of_length-ne (take i d) []), ground arith)
        | inr (why, p) ↦ ground arith
      ]
]

-- Where the destination lacks its ports, the whole text is the selector.
pub split_dst_of_Lacks :
    (d : Text)
    → Lacks b':' d
    → ((split_dst d).selector ≡ d) × ((split_dst d).ports ≡ []) × ((split_dst d).error ≢ none)
unfolding split_dst split_at
split_dst_of_Lacks d h = ground (arith, last_index_of_of_Lacks b':' d h)
