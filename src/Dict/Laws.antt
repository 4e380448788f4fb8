-- ===== src/Dict/Laws.antt =====
-- What `get` finds after each operation.
use head_control.Common.{
  true, false, not, ◌||◌, ◌&&◌, [], ◌∷◌, ◌≡◌, refl, arith, if◌then◌else◌, none, some,
}
use head_control.Text.{Text, text_eq, includes}
use head_control.Text.Equal.{text_eq_iff}
use head_control.Dict.{Dict, get, own, set, remove}

module _ {ℓ} {V : Type ℓ} where
  pub get-set :
      (k j : Text) (v : V) (m : Dict V)
      → get j (set k v m) ≡ (if text_eq k j then some v else get j m)
  unfolding get set
  get-set k j v [] = refl
  get-set k j v ((i, w) ∷ m) =
      ground (arith, text_eq_iff k j, text_eq_iff i k, text_eq_iff i j, get-set k j v m)

  pub get-remove :
      (k j : Text) (m : Dict V) → get j (remove k m) ≡ (if text_eq k j then none else get j m)
  unfolding get remove
  get-remove k j [] = ground arith
  get-remove k j ((i, w) ∷ m) =
      ground (arith, text_eq_iff k j, text_eq_iff i k, text_eq_iff i j, get-remove k j m)

  -- A key is an own member exactly when `get` finds a value.
  pub own-get :
      (k : Text) (m : Dict V) → own k m ≡ (elim (get k m) [ none ↦ false | some v ↦ true ])
  unfolding own get includes
  own-get k [] = refl
  own-get k ((i, w) ∷ m) = ground (arith, own-get k m)

  pub own-set : (k j : Text) (v : V) (m : Dict V) → own j (set k v m) ≡ (text_eq k j || own j m)
  own-set k j v m = ground (arith, own-get j (set k v m), own-get j m, get-set k j v m)

  pub own-remove : (k j : Text) (m : Dict V) → own j (remove k m) ≡ (not (text_eq k j) && own j m)
  own-remove k j m = ground (arith, own-get j (remove k m), own-get j m, get-remove k j m)
