-- ===== src/Acl/Selector/Options.antt =====
-- `buildOptions` and `restrictOptions` of frontend/src/pages/acls/model.ts, and which selectors
-- they offer.
pub mod Offered
use head_control.Common.{
  ℕ, zero, suc, Bool, true, false, ◌||◌, ◌&&◌, List, [], ◌∷◌, ◌++◌, map, ◌==◌, length,
  if◌then◌else◌, Option, none, some, keep,
}
use head_control.Text.{Text, codes, text_eq, includes}
use head_control.Text.Decimal.{show}
use head_control.Text.Sort.{sort}
use head_control.Dict.{Dict, keys, get, has}
use head_control.Acl.Ports.{dedup}
use head_control.Acl.Selector.{
  Side, SelectorKind, Autogroup, autogroups, has_side, side_eq, SelectorContext, SelectorUser,
  user_selectors, truthy,
}

pub record SelectorOption : Type 0 where
  pub value : Text
  pub kind : SelectorKind
  pub hint : Option Text
  pub warn : Option Text

abbrev pub option : Text → SelectorKind → Option Text → SelectorOption
option v k h = record { value = v; kind = k; hint = h; warn = none }

-- `a || b` on texts that may be absent
abbrev or_else : Option Text → Option Text → Option Text
or_else none b = b
or_else (some a) b = some a

-- The options of one user: the first has the display name or the address as its hint.
user_options : SelectorUser → List Text → List SelectorOption
user_options u [] = []
user_options u (s ∷ more) =
    option s SelectorKind.user (or_else (truthy u.display_name) (truthy u.email))
    ∷ map (λ t. option t SelectorKind.user (some (codes "email"))) more

unfoldable pub users_options : List SelectorUser → List SelectorOption
unfolding user_options user_selectors
users_options [] = []
users_options (u ∷ us) = user_options u (user_selectors u) ++ users_options us

plural : ℕ → Text → Text
plural n noun = show n ++ (codes " " ++ (noun ++ (if n == 1 then [] else codes "s")))

-- The value of a key that is known to be there.
abbrev get_or_nil {ℓ} : {A : Type ℓ} → Text → Dict (List A) → List A
get_or_nil k m = elim (get k m) [ none ↦ [] | some v ↦ v ]

unfoldable pub group_options : Dict (List Text) → List SelectorOption
unfolding plural
group_options groups =
    map
      (λ g.
        option g SelectorKind.group (some (plural (length (get_or_nil g groups)) (codes "member"))))
      (sort (keys groups))

abbrev node_count : Text → Dict ℕ → ℕ
node_count t m = elim (get t m) [ none ↦ 0 | some n ↦ n ]

tag_option : SelectorContext → Text → SelectorOption
unfolding plural
tag_option ctx t =
    let declared = has t ctx.tag_owners in
    let nodes = plural (node_count t ctx.node_tags) (codes "node") in
    record {
      value = t;
      kind = SelectorKind.tag;
      hint = if declared then some nodes else none;
      warn =
          if declared
          then none
          else some (codes "assigned on " ++ (nodes ++ codes " but not declared in Tag owners"));
    }

unfoldable pub tag_options : SelectorContext → List SelectorOption
unfolding tag_option
tag_options ctx = map (tag_option ctx) (sort (dedup (keys ctx.tag_owners ++ keys ctx.node_tags) []))

unfoldable pub host_options : Dict Text → List SelectorOption
host_options hosts = map (λ h. option h SelectorKind.host (get h hosts)) (sort (keys hosts))

unfoldable pub autogroup_options : Side → List Autogroup → List SelectorOption
autogroup_options side [] = []
autogroup_options side (a ∷ more) =
    let rest = autogroup_options side more in
    if has_side side a.sides
    then option a.value SelectorKind.autogroup (some a.hint) ∷ rest
    else rest

wildcard_option : Side → SelectorOption
wildcard_option side =
    let is_src = side_eq side Side.src in
    record {
      value = codes "*";
      kind = SelectorKind.wildcard;
      hint = some (if is_src then codes "every tailnet address" else codes "every destination");
      warn =
          if is_src
          then some (
              codes
                "Since 0.29 \"*\" matches only tailnet addresses; use autogroup:danger-all for all IPs")
          else none;
    }

unfoldable pub build_options : SelectorContext → Side → List SelectorOption
unfolding wildcard_option
build_options ctx side =
    users_options ctx.users
    ++ (group_options ctx.groups
        ++ (tag_options ctx
            ++ (host_options ctx.hosts
                ++ (autogroup_options side autogroups ++ wildcard_option side ∷ []))))

-- `xs.includes(kind)`
unfoldable pub kind_eq : SelectorKind → SelectorKind → Bool
kind_eq SelectorKind.user SelectorKind.user = true
kind_eq SelectorKind.group SelectorKind.group = true
kind_eq SelectorKind.tag SelectorKind.tag = true
kind_eq SelectorKind.host SelectorKind.host = true
kind_eq SelectorKind.autogroup SelectorKind.autogroup = true
kind_eq SelectorKind.wildcard SelectorKind.wildcard = true
kind_eq SelectorKind.cidr SelectorKind.cidr = true
kind_eq SelectorKind.unknown SelectorKind.unknown = true
kind_eq _ _ = false

unfoldable pub has_kind : SelectorKind → List SelectorKind → Bool
unfolding kind_eq
has_kind k [] = false
has_kind k (x ∷ xs) = kind_eq x k || has_kind k xs

unfoldable pub restrict_options :
    List SelectorOption → List SelectorKind → List Text → List SelectorOption
unfolding keep has_kind
restrict_options opts kinds groups =
    keep
      (λ o.
        if kind_eq o.kind SelectorKind.autogroup
        then includes o.value groups
        else has_kind o.kind kinds)
      opts
