-- ===== src/Acl/Ports/Merge.antt =====
-- `mergePorts` on specifications in normal form.
use mathlib.Core.Path.{subst}
use mathlib.Core.List.{map-append}
use head_control.Common.{
  ap₂, All-append, ℕ, true, not, List, [], ◌∷◌, ◌++◌, map, ◌≡◌, ◌≢◌, ◌||◌, inl, inr, refl, sym, ap,
  ◌∙◌, arith, All, keep, Bool-cases,
}
use head_control.Text.{Text, codes, includes, text_eq, join, split, trim}
use head_control.Text.Equal.{text_eq_refl, includes-append, text_eq_iff}
use head_control.Acl.Ports.{merge_ports, dedup, show_range}
use head_control.Acl.Ports.Spec.{IsSpec, IsRange, Distinct, IsRanges, show_ranges, Distinct-concat}
use head_control.Acl.Ports.Printed.{show_range-ne, split-show_ranges, trim_parts, show_ranges-ne}

-- What is kept by `new Set`.
pub includes-dedup :
    (s : Text) (xs out : List Text) → includes s (dedup xs out) ≡ (includes s out || includes s xs)
unfolding dedup includes
includes-dedup s [] out = ground arith
includes-dedup s (x ∷ xs) out = ground (
  arith,
  includes-dedup s xs out,
  includes-dedup s xs (out ++ x ∷ []),
  includes-append s out (x ∷ []),
  text_eq_iff x s,
)

pub dedup-Distinct : (xs out : List Text) → Distinct out → Distinct (dedup xs out)
unfolding dedup
dedup-Distinct [] out d = d
dedup-Distinct (x ∷ xs) out d = elim (Bool-cases (includes x out)) [
  | inl old ↦ rw old (dedup-Distinct xs out d)
  | inr new ↦ rw new (dedup-Distinct xs (out ++ x ∷ []) (Distinct-concat out x d new))
]

-- Removing duplicates from printed ranges leaves printed ranges.
dedup-show_range :
    (rs out : List (ℕ × ℕ))
    → All IsRange rs
    → All IsRange out
    → (qs : List (ℕ × ℕ)) × All IsRange qs
      × (dedup (map show_range rs) (map show_range out) ≡ map show_range qs)
unfolding dedup
dedup-show_range [] out h k = (out, k, refl)
dedup-show_range (r ∷ rs) out (p, h) k =
    elim (Bool-cases (includes (show_range r) (map show_range out))) [
      | inl old ↦ let (qs, ranges, e) = dedup-show_range rs out h k in (qs, ranges, ground arith)
      | inr new ↦
          let (qs, ranges, e) =
            dedup-show_range rs (out ++ r ∷ []) h (All-append IsRange out (r ∷ []) k (p, tt)) in
          (qs, ranges, ground (arith, map-append show_range out (r ∷ []), e))
    ]

keep-show_range :
    (rs : List (ℕ × ℕ)) → keep (λ x. not (text_eq x [])) (map show_range rs) ≡ map show_range rs
unfolding keep
keep-show_range [] = refl
keep-show_range (r ∷ rs) =
    ground (arith, text_eq_iff (show_range r) [], (show_range-ne r).0, keep-show_range rs)

-- The ranges of both lists, the first time that they occur.
abbrev union : List (ℕ × ℕ) → List (ℕ × ℕ) → List Text
union rs qs = dedup (map show_range (rs ++ qs)) []

merge_ports-show_ranges :
    (rs qs : List (ℕ × ℕ))
    → rs ≢ []
    → qs ≢ []
    → merge_ports (show_ranges rs) (show_ranges qs) ≡ join (codes ",") (union rs qs)
unfolding merge_ports
merge_ports-show_ranges rs qs h k =
    let parts : map trim (split b',' (show_ranges rs) ++ split b',' (show_ranges qs))
        ≡ map show_range (rs ++ qs) =
      ap₂ (λ s t. map trim (s ++ t)) (split-show_ranges rs h) (split-show_ranges qs k)
      ∙ ap (map trim) (sym (map-append show_range rs qs))
      ∙ trim_parts (rs ++ qs) in
    ground (
      arith,
      text_eq_iff (show_ranges rs) (codes "*"),
      text_eq_iff (show_ranges qs) (codes "*"),
      show_ranges-ne rs h,
      show_ranges-ne qs k,
      parts,
      keep-show_range (rs ++ qs),
    )

union-IsRanges :
    (rs qs : List (ℕ × ℕ))
    → IsRanges rs
    → IsRanges qs
    → (cs : List (ℕ × ℕ)) × IsRanges cs × (union rs qs ≡ map show_range cs)
union-IsRanges [] qs h _ = absurd (h.0 refl)
union-IsRanges (r ∷ rs) qs h k =
    let both = (r ∷ rs) ++ qs in
    let (cs, ranges, e) = dedup-show_range both [] (All-append IsRange (r ∷ rs) qs h.1 k.1) tt in
    let x = show_range r in
    let first : includes x (map show_range cs) ≡ true =
      ap (includes x) (sym e)
      ∙ includes-dedup x (map show_range both) []
      ∙ unfold includes in ground (arith, text_eq_refl x) in
    (
      cs,
      (
        λ z. unfold includes in cc first,
        ranges,
        subst Distinct e (dedup-Distinct (map show_range both) [] tt),
      ),
      e,
    )

-- Merging two specifications in normal form gives one.
pub merge_ports-IsSpec : (a b : Text) → IsSpec a → IsSpec b → IsSpec (merge_ports a b)
merge_ports-IsSpec a b (inl e) _ =
    inl (unfold merge_ports in ground (arith, text_eq_refl (codes "*"), e))
merge_ports-IsSpec a b _ (inl e) =
    inl (unfold merge_ports in ground (arith, text_eq_refl (codes "*"), e))
merge_ports-IsSpec a b (inr (rs, h, p)) (inr (qs, k, q)) =
    let (cs, ranges, e) = union-IsRanges rs qs h k in
    inr (
      cs,
      ranges,
      ap₂ merge_ports p q ∙ merge_ports-show_ranges rs qs h.0 k.0 ∙ ap (join (codes ",")) e,
    )

-- The entries of a specification, split at the commas.
abbrev pub entries : Text → List Text
entries v = split b',' v

-- An entry is in the merged specification exactly when it is in one of the two, and no entry is
-- in it twice.
pub merge_ports-entries :
    (a b : Text)
    → IsSpec a
    → IsSpec b
    → a ≢ codes "*"
    → b ≢ codes "*"
    → ((s : Text)
        → includes s (entries (merge_ports a b))
          ≡ (includes s (entries a) || includes s (entries b)))
      × Distinct (entries (merge_ports a b))
unfolding includes
merge_ports-entries a b (inl e) _ no_star _ = absurd (no_star e)
merge_ports-entries a b _ (inl e) _ no_star = absurd (no_star e)
merge_ports-entries a b (inr (rs, h, p)) (inr (qs, k, q)) _ _ =
    let (cs, ranges, e) = union-IsRanges rs qs h k in
    let whole : merge_ports a b ≡ show_ranges cs =
      ap₂ merge_ports p q ∙ merge_ports-show_ranges rs qs h.0 k.0 ∙ ap (join (codes ",")) e in
    let parts : entries (merge_ports a b) ≡ union rs qs =
      ap entries whole ∙ split-show_ranges cs ranges.0 ∙ sym e in
    let left : entries a ≡ map show_range rs = ap entries p ∙ split-show_ranges rs h.0 in
    let right : entries b ≡ map show_range qs = ap entries q ∙ split-show_ranges qs k.0 in
    (
      λ s.
          ap (includes s) parts
          ∙ includes-dedup s (map show_range (rs ++ qs)) []
          ∙ ap (includes s) (map-append show_range rs qs)
          ∙ includes-append s (map show_range rs) (map show_range qs)
          ∙ ap₂ (λ x y. includes s x || includes s y) (sym left) (sym right),
      subst Distinct (sym parts) (dedup-Distinct (map show_range (rs ++ qs)) [] tt),
    )
