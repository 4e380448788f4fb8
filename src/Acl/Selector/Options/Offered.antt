-- ===== src/Acl/Selector/Options/Offered.antt =====
-- Which selectors `buildOptions` offers.
use head_control.Common.{
  some, Bool, ◌||◌, ◌&&◌, List, [], ◌∷◌, ◌++◌, map, ◌≡◌, refl, ◌∙◌, arith, any,
}
use head_control.Text.{Text, codes, text_eq, includes}
use head_control.Text.Equal.{includes-append}
use head_control.Text.Sort.{sort, includes-sort}
use head_control.Dict.{Dict, keys, own}
use head_control.Acl.Ports.{dedup}
use head_control.Acl.Ports.Merge.{includes-dedup}
use head_control.Acl.Selector.{
  SelectorKind, Side, Autogroup, autogroups, has_side, SelectorContext, SelectorUser,
  user_selectors, is_known_user,
}
use head_control.Acl.Selector.Options.{
  option, SelectorOption, user_options, users_options, group_options, tag_option, tag_options,
  host_options, autogroup_options, wildcard_option, build_options,
}

abbrev pub values : List SelectorOption → List Text
values = map (λ o. o.value)

module _ (s : Text) where
  includes-values-map :
      (f : Text → SelectorOption) (xs : List Text)
      → ((x : Text) → (f x).value ≡ x)
      → includes s (values (map f xs)) ≡ includes s xs
  unfolding includes
  includes-values-map f [] h = refl
  includes-values-map f (x ∷ xs) h = ground (arith, h x, includes-values-map f xs h)

  includes-user_options :
      (u : SelectorUser) (xs : List Text) → includes s (values (user_options u xs)) ≡ includes s xs
  unfolding user_options includes
  includes-user_options u [] = refl
  includes-user_options u (x ∷ xs) = ground (
    arith,
    includes-values-map (λ t. option t SelectorKind.user (some (codes "email"))) xs (λ x. refl),
  )

  includes-values_append :
      (xs ys : List SelectorOption)
      → includes s (values (xs ++ ys)) ≡ (includes s (values xs) || includes s (values ys))
  unfolding includes
  includes-values_append [] ys = refl
  includes-values_append (x ∷ xs) ys = ground (arith, includes-values_append xs ys)

  includes-users_options :
      (us : List SelectorUser) → includes s (values (users_options us)) ≡ is_known_user s us
  unfolding users_options is_known_user includes any
  includes-users_options [] = refl
  includes-users_options (u ∷ us) = ground (
    arith,
    includes-values_append (user_options u (user_selectors u)) (users_options us),
    includes-user_options u (user_selectors u),
    includes-users_options us,
  )

  includes-group_options : (m : Dict (List Text)) → includes s (values (group_options m)) ≡ own s m
  unfolding group_options own
  includes-group_options m =
      includes-values-map _ (sort (keys m)) (λ x. refl) ∙ includes-sort s (keys m)

  includes-host_options : (m : Dict Text) → includes s (values (host_options m)) ≡ own s m
  unfolding host_options own
  includes-host_options m =
      includes-values-map _ (sort (keys m)) (λ x. refl) ∙ includes-sort s (keys m)

  includes-tag_options :
      (ctx : SelectorContext)
      → includes s (values (tag_options ctx)) ≡ (own s ctx.tag_owners || own s ctx.node_tags)
  unfolding tag_options own tag_option includes
  includes-tag_options ctx =
      let tags = keys ctx.tag_owners ++ keys ctx.node_tags in
      includes-values-map (tag_option ctx) (sort (dedup tags [])) (λ x. refl)
      ∙ includes-sort s (dedup tags [])
      ∙ includes-dedup s tags []
      ∙ includes-append s (keys ctx.tag_owners) (keys ctx.node_tags)

  -- An autogroup of that value is allowed on the side.
  abbrev pub is_side_autogroup : Side → List Autogroup → Bool
  is_side_autogroup side gs = any (λ a. has_side side a.sides && text_eq a.value s) gs

  includes-autogroup_options :
      (side : Side) (gs : List Autogroup)
      → includes s (values (autogroup_options side gs)) ≡ is_side_autogroup side gs
  unfolding autogroup_options includes any
  includes-autogroup_options side [] = refl
  includes-autogroup_options side (a ∷ gs) = ground (arith, includes-autogroup_options side gs)

  includes-last :
      (side : Side) → includes s (values (wildcard_option side ∷ [])) ≡ text_eq (codes "*") s
  unfolding includes wildcard_option
  includes-last side = ground arith

  -- The picker offers exactly the users' selectors, the declared groups, the tags that are declared
  -- or carried by a node, the hosts, the autogroups of the side, and "*".
  pub includes-build_options :
      (ctx : SelectorContext) (side : Side)
      → includes s (values (build_options ctx side)) ≡ (
          is_known_user s ctx.users
          || (own s ctx.groups
              || ((own s ctx.tag_owners || own s ctx.node_tags)
                  || (own s ctx.hosts
                      || (is_side_autogroup side autogroups || text_eq (codes "*") s)))))
  includes-build_options ctx side =
      let tags = tag_options ctx in
      let hosts = host_options ctx.hosts in
      let named = autogroup_options side autogroups in
      let last = wildcard_option side ∷ [] in
      unfold build_options in
      ground (
        arith,
        includes-values_append (users_options ctx.users)
            (group_options ctx.groups ++ (tags ++ (hosts ++ (named ++ last)))),
        includes-values_append (group_options ctx.groups) (tags ++ (hosts ++ (named ++ last))),
        includes-values_append tags (hosts ++ (named ++ last)),
        includes-values_append hosts (named ++ last),
        includes-values_append named last,
        includes-users_options ctx.users,
        includes-group_options ctx.groups,
        includes-tag_options ctx,
        includes-host_options ctx.hosts,
        includes-autogroup_options side autogroups,
        includes-last side,
      )
