-- ===== src/Acl/Diff/Sections.antt =====
-- Which keys the summary of a section names, and that a summary without keys means that the
-- sections are the same.
use head_control.Common.{
  Bool, true, false, not, ◌&&◌, List, [], ◌∷◌, ◌≡◌, refl, arith, keep, none, some,
}
use head_control.Text.{Text, includes}
use head_control.Text.Equal.{text_eq_iff}
use head_control.Dict.{Dict, keys, get, own, has, inherited}
use head_control.Dict.Laws.{own-get}
use head_control.Acl.Ports.Spec.{Distinct}
use head_control.Acl.Diff.{diff_keys, diff_server, eq_at}

pub includes-keep-not :
    (s : Text) (p : Text → Bool) (xs : List Text)
    → includes s (keep (λ k. not (p k)) xs) ≡ (includes s xs && not (p s))
unfolding includes keep
includes-keep-not s p [] = refl
includes-keep-not s p (x ∷ xs) = ground (arith, includes-keep-not s p xs, text_eq_iff x s)

module _ {ℓ} {V : Type ℓ} (eq : V → V → Bool) where
  includes-removed :
      (k : Text) (server draft : Dict V)
      → includes k (diff_server eq server draft).removed ≡ (own k server && not (has k draft))
  unfolding diff_server includes own
  includes-removed k [] draft = refl
  includes-removed k ((j, v) ∷ server) draft =
      ground (arith, includes-removed k server draft, text_eq_iff j k)

  -- Both sides have the key, with values that differ.
  abbrev pub differs : Text → Dict V → Dict V → Bool
  differs k server draft = elim (get k server) [
    | none ↦ false
    | some v ↦ has k draft && not (eq_at eq v (get k draft))
  ]

  includes-changed :
      (k : Text) (server draft : Dict V)
      → Distinct (keys server)
      → includes k (diff_server eq server draft).changed ≡ differs k server draft
  unfolding diff_server includes get own
  includes-changed k [] draft d = refl
  includes-changed k ((j, v) ∷ server) draft d =
      ground (arith, includes-changed k server draft d.1, text_eq_iff j k, own-get k server)

  -- Of a key that no object inherits, the summary says that it was added, removed or changed
  -- exactly where the draft alone has it, the server alone has it, or both have it with values
  -- that differ.
  pub diff_keys_exact :
      (k : Text) (server draft : Dict V)
      → inherited k ≡ false
      → Distinct (keys server)
      → (includes k (diff_keys eq server draft).added ≡ (own k draft && not (own k server)))
        × (includes k (diff_keys eq server draft).removed ≡ (own k server && not (own k draft)))
        × (includes k (diff_keys eq server draft).changed ≡ (elim (get k server) [
          | none ↦ false
          | some v ↦ elim (get k draft) [ none ↦ false | some w ↦ not (eq v w) ]
        ]))
  unfolding diff_keys has
  diff_keys_exact k server draft i d = (
    unfold own in ground (arith, includes-keep-not k (λ k. has k server) (keys draft)),
    ground (arith, includes-removed k server draft),
    unfold eq_at in ground (arith, includes-changed k server draft d, own-get k draft),
  )

  -- Whether a key has the same value on both sides, or is on neither.
  abbrev pub same_at : Text → Dict V → Dict V → Bool
  same_at k server draft = elim (get k server) [
    | none ↦ elim (get k draft) [ none ↦ true | some w ↦ false ]
    | some v ↦ elim (get k draft) [ none ↦ false | some w ↦ eq v w ]
  ]
