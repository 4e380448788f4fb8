-- ===== src/Acl/Selector/Clean.antt =====
-- What it means that `validateSelector` finds nothing wrong with a selector.
use mathlib.Core.Path.{subst}
use head_control.Common.{
  ◌||◌, not, ◌&&◌, all, ◌↔◌, Bool, true, false, List, [], ◌∷◌, ◌≡◌, inl, inr, refl, arith,
  Bool-cases, some, none, any, ◌++◌,
}
use head_control.Text.{has_unit, starts_with, is_space, Text, codes, text_eq, includes, trim}
use head_control.Text.Trim.{NoSpace}
use head_control.Text.Equal.{text_eq_iff}
use head_control.Dict.{inherited_members, get, own, has, inherited}
use head_control.Acl.Selector.{
  Side, Autogroup, has_side, SelectorContext, SelectorUser, classify, user_selectors, has_space,
  find_autogroup, validate_selector, validate_kind,
}
use head_control.Acl.Selector.Cidr.{is_ip_or_cidr}

-- The selector names something that its side allows and, except for an address, that is declared.
pub data Known (s : Text) (side : Side) (ctx : SelectorContext) : Type 0 where
  star : s ≡ codes "*" → side ≡ Side.dst → Known s side ctx
  autogroup :
      (a : Autogroup)
      → find_autogroup s ≡ some a
      → a.value ≡ s
      → has_side side a.sides ≡ true
      → Known s side ctx
  group : (m : Text) (ms : List Text) → get s ctx.groups ≡ some (m ∷ ms) → Known s side ctx
  tag : own s ctx.tag_owners ≡ true → Known s side ctx
  user :
      (before after : List SelectorUser) (u : SelectorUser)
      → ctx.users ≡ before ++ u ∷ after
      → includes s (user_selectors u) ≡ true
      → Known s side ctx
  address : is_ip_or_cidr s ≡ true → Known s side ctx
  host : own s ctx.hosts ≡ true → Known s side ctx

pub has_space-NoSpace : (s : Text) → has_space s ≡ false → NoSpace s
unfolding has_space any
has_space-NoSpace [] h = tt
has_space-NoSpace (c ∷ s) h = ground (arith, has_space-NoSpace s)

-- A word that no test of `classify` before the one for hosts recognises.
pub is_plain_name : Text → Bool
is_plain_name k =
    text_eq (trim k) k
    && not (text_eq k [] || has_space k)
    && not (text_eq k (codes "*"))
    && not (starts_with k (codes "autogroup:"))
    && not (starts_with k (codes "group:"))
    && not (starts_with k (codes "tag:"))
    && not (has_unit b'@' k)
    && not (is_ip_or_cidr k)

-- A word of no other kind passes exactly when `in` finds it among the hosts.
pub validate_selector-is_plain_name :
    (k : Text) (side : Side) (ctx : SelectorContext)
    → is_plain_name k ≡ true
    → (validate_selector k side ctx ≡ none) ↔ (has k ctx.hosts ≡ true)
unfolding is_plain_name validate_selector classify validate_kind
validate_selector-is_plain_name k side ctx h =
    let same : trim k ≡ k = (text_eq_iff (trim k) k).0 (ground arith) in
    (λ e. ground (arith, same, e), λ e. ground (arith, same, e))

inherited_plain : all is_plain_name inherited_members ≡ true
unfolding all is_plain_name text_eq trim has_space any is_space starts_with has_unit is_ip_or_cidr
inherited_plain = refl

all-includes :
    (p : Text → Bool) (xs : List Text) (s : Text)
    → all p xs ≡ true
    → includes s xs ≡ true
    → p s ≡ true
unfolding all includes
all-includes p [] s h k = cc
all-includes p (x ∷ xs) s h k = elim (Bool-cases (text_eq x s)) [
  | inl e ↦ subst (λ t. p t ≡ true) ((text_eq_iff x s).0 e) (ground arith)
  | inr e ↦ all-includes p xs s (ground arith) (ground arith)
]

-- A name that every object inherits, such as "constructor", passes on both sides, whatever hosts
-- are declared.
pub validate_selector-inherited :
    (k : Text) (side : Side) (ctx : SelectorContext)
    → inherited k ≡ true
    → validate_selector k side ctx ≡ none
unfolding inherited
validate_selector-inherited k side ctx h =
    (validate_selector-is_plain_name k side ctx
        (all-includes is_plain_name inherited_members k inherited_plain h)).1
      (unfold has in ground arith)
