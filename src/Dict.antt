-- ===== src/Dict.antt =====
-- JavaScript objects that serve as dictionaries, `Record<string, V>`: the own members in the order
-- of their insertion. `in` also finds the members that every object inherits.
pub mod Laws
use head_control.Common.{Bool, false, ◌||◌, List, [], ◌∷◌, map, if◌then◌else◌, Option, none, some}
use head_control.Text.{Text, codes, text_eq, includes}

abbrev pub Dict {ℓ} : Type ℓ → Type ℓ
Dict V = List (Text × V)

-- The members of `Object.prototype`.
abbrev pub inherited_members : List Text
inherited_members =
    codes "constructor"
    ∷ codes "__defineGetter__"
    ∷ codes "__defineSetter__"
    ∷ codes "hasOwnProperty"
    ∷ codes "__lookupGetter__"
    ∷ codes "__lookupSetter__"
    ∷ codes "isPrototypeOf"
    ∷ codes "propertyIsEnumerable"
    ∷ codes "toString"
    ∷ codes "valueOf"
    ∷ codes "__proto__"
    ∷ codes "toLocaleString"
    ∷ []

unfoldable pub inherited : Text → Bool
unfolding includes
inherited k = includes k inherited_members

module _ {ℓ} {V : Type ℓ} where
  -- `Object.keys(m)`
  abbrev pub keys : Dict V → List Text
  keys = map (λ e. e.0)

  -- `m[k]`, for an own member; `none` is `undefined`.
  unfoldable pub get : Text → Dict V → Option V
  get k [] = none
  get k ((j, v) ∷ m) = let rest = get k m in if text_eq j k then some v else rest

  unfoldable pub own : Text → Dict V → Bool
  unfolding includes
  own k m = includes k (keys m)

  -- `k in m`
  unfoldable pub has : Text → Dict V → Bool
  unfolding own inherited
  has k m = own k m || inherited k

  -- `m[k] = v`
  unfoldable pub set : Text → V → Dict V → Dict V
  set k v [] = (k, v) ∷ []
  set k v ((j, w) ∷ m) = let rest = set k v m in if text_eq j k then (k, v) ∷ m else (j, w) ∷ rest

  -- `delete m[k]`
  unfoldable pub remove : Text → Dict V → Dict V
  remove k [] = []
  remove k ((j, w) ∷ m) = let rest = remove k m in if text_eq j k then rest else (j, w) ∷ rest

  -- `Object.fromEntries(es)`: a later entry replaces an earlier one.
  unfoldable pub fold_entries : List (Text × V) → Dict V → Dict V
  unfolding set
  fold_entries [] m = m
  fold_entries ((k, v) ∷ es) m = fold_entries es (set k v m)

unfoldable pub from_entries {ℓ} : {V : Type ℓ} → List (Text × V) → Dict V
unfolding fold_entries
from_entries es = fold_entries es []
