-- ===== src/Acl/Rebase/Merge.antt =====
-- The merge of one section: what the user touched is the user's, all else is the server's.
use head_control.Common.{
  inr, inl, Bool, false, ◌||◌, ◌&&◌, List, [], ◌∷◌, ◌++◌, ◌≡◌, refl, arith, if◌then◌else◌, none,
  Option-cases,
}
use head_control.Text.{Text, text_eq, includes}
use head_control.Text.Equal.{text_eq_iff, includes-append}
use head_control.Dict.{Dict, keys, get, remove, own, inherited}
use head_control.Dict.Laws.{own-get, get-set, get-remove}
use head_control.Acl.Ports.Spec.{Distinct}
use head_control.Acl.Diff.{KeyChanges, diff_keys}
use head_control.Acl.Diff.Sections.{diff_keys_exact, same_at}
use head_control.Acl.Rebase.{adopt, adopt_value, remove_all, merge_keys}

module _ {ℓ} {V : Type ℓ} where
  get-adopt_value :
      (k j : Text) (dv out : Dict V)
      → get j (adopt_value k (get k dv) out)
        ≡ (if text_eq k j && own k dv then get k dv else get j out)
  unfolding adopt_value
  get-adopt_value k j dv out = elim (Option-cases (get k dv)) [
    | inl e ↦ rw e (ground (arith, own-get k dv))
    | inr (v, e) ↦ rw e (ground (arith, own-get k dv, get-set k j v out))
  ]

  get-adopt :
      (j : Text) (ks : List Text) (dv out : Dict V)
      → get j (adopt ks dv out) ≡ (if includes j ks && own j dv then get j dv else get j out)
  unfolding adopt includes
  get-adopt j [] dv out = refl
  get-adopt j (k ∷ ks) dv out = ground (
    arith,
    get-adopt j ks dv (adopt_value k (get k dv) out),
    get-adopt_value k j dv out,
    text_eq_iff k j,
  )

  get-remove_all :
      (j : Text) (ks : List Text) (out : Dict V)
      → get j (remove_all ks out) ≡ (if includes j ks then none else get j out)
  unfolding remove_all includes
  get-remove_all j [] out = refl
  get-remove_all j (k ∷ ks) out =
      ground (arith, get-remove_all j ks (remove k out), get-remove k j out)

  get-merge_keys :
      (j : Text) (sv dv : Dict V) (ch : KeyChanges)
      → get j (merge_keys sv dv ch) ≡ (
          if includes j ch.removed
          then none
          else if (includes j ch.added || includes j ch.changed) && own j dv
          then get j dv
          else get j sv)
  unfolding merge_keys
  get-merge_keys j sv dv ch = ground (
    arith,
    get-remove_all j ch.removed (adopt (ch.added ++ ch.changed) dv sv),
    get-adopt j (ch.added ++ ch.changed) dv sv,
    includes-append j ch.added ch.changed,
  )

  -- The merge of a section with the changes between its base and the draft: at each key that no
  -- object inherits, the draft's value, or its absence, where the user changed, added or removed
  -- the key, and the server's value where the draft has what the base has.
  pub merge_keys-diff_keys :
      (eq : V → V → Bool) (j : Text) (base sv dv : Dict V)
      → inherited j ≡ false
      → Distinct (keys base)
      → get j (merge_keys sv dv (diff_keys eq base dv))
        ≡ (if same_at eq j base dv then get j sv else get j dv)
  merge_keys-diff_keys eq j base sv dv i d =
      let (added, removed, changed) = diff_keys_exact eq j base dv i d in
      ground (
        arith,
        get-merge_keys j sv dv (diff_keys eq base dv),
        added,
        removed,
        changed,
        own-get j base,
        own-get j dv,
      )
