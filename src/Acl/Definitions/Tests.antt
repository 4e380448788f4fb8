-- ===== src/Acl/Definitions/Tests.antt =====
-- The editors of groups, tag owners and hosts at concrete drafts.
use head_control.Acl.References.{references_of}
use head_control.Acl.Definitions.Hosts.{host_pressed-Saves}
use head_control.Acl.Ports.Spec.{Distinct}
use head_control.Acl.Samples.{key_at, loaded}
use head_control.Acl.Definitions.Pressed.{group_pressed-Saved}
use head_control.Acl.Definitions.Saved.{Saved, Saves}
use head_control.Acl.Draft.{draft_from_model}
use head_control.Acl.Selector.{is_known_user, classify, validate_kind, SelectorContext}
use head_control.Acl.Definitions.{
  user_selectors, used_by, Side, validate_selector, is_ip_or_cidr, validate_member, keys, groups,
  name_error, sort, section_prefix, normalize_name, save_list_entry, ListEntry,
}
use head_control.Acl.Definitions.Tabs.{
  undeclared, group_pressed, group_initial, entry_name, host_pressed, host_entry_name,
  save_host_entry, Host, host_initial,
}
use head_control.Common.{map, true, [], ◌∷◌, ◌≡◌, refl, none, some}
use head_control.Text.Sort.{sort}
use head_control.Acl.Selector.{user_selectors}
use head_control.Json.Rename.{mentions, rename_in_value}
use head_control.Json.{canonical}
use head_control.Acl.Ports.{split_dst}
use head_control.Text.{lower, text_eq, includes, codes}

abbrev ctx : SelectorContext
ctx = record {
  users = record { name = some (codes "ann"); email = none; display_name = none } ∷ [];
  node_tags = [];
  groups = loaded.groups;
  tag_owners = loaded.tag_owners;
  hosts = loaded.hosts;
}

loaded-distinct : Distinct (keys loaded.groups)
unfolding draft_from_model includes
loaded-distinct = (refl, tt)

loaded-distinct_hosts : Distinct (keys loaded.hosts)
unfolding draft_from_model includes
loaded-distinct_hosts = (refl, tt)

-- A group is saved under another name, for which the editor adds the prefix.
abbrev dev : ListEntry
dev = record { name = codes "group:dev"; members = codes "ann@" ∷ [] }

dev-saved :
    save_list_entry
      (map lower)
      (section_prefix groups)
      (entry_name (group_initial loaded (codes "group:eng")))
      (sort (keys loaded.groups))
      (validate_member ctx)
      (codes " Dev ")
      (codes "ann@" ∷ [])
    ≡ some dev
unfolding save_list_entry normalize_name name_error validate_member draft_from_model group_initial
    lower sort validate_kind classify is_known_user user_selectors
dev-saved = refl

group_pressed-Saved_example :
    Saved
      (section_prefix groups)
      (entry_name (group_initial loaded (codes "group:eng")))
      dev
      loaded.groups
      (group_pressed
        (map lower)
        key_at
        ctx
        (codes "group:eng")
        (codes " Dev ")
        (codes "ann@" ∷ [])
        loaded
        5).0.groups
group_pressed-Saved_example =
    group_pressed-Saved (map lower) key_at ctx (codes "group:eng") (codes " Dev ")
      (codes "ann@" ∷ []) loaded 5 dev loaded-distinct dev-saved

abbrev web2 : Host
web2 = record { name = codes "db-2"; cidr = codes "10.0.0.0/24" }

web2-saved :
    save_host_entry
      (host_entry_name (host_initial loaded (codes "db1")))
      (sort (keys loaded.hosts))
      (codes " db-2")
      (codes "10.0.0.0/24 ")
    ≡ some web2
unfolding save_host_entry draft_from_model host_initial sort
web2-saved = refl

host_pressed-Saves_example :
    Saves
      (host_entry_name (host_initial loaded (codes "db1")))
      web2.name
      web2.cidr
      loaded.hosts
      (host_pressed key_at (codes "db1") (codes " db-2") (codes "10.0.0.0/24 ") loaded 5).0.hosts
    × (is_ip_or_cidr web2.cidr ≡ true)
    × (validate_selector web2.name Side.src (record ctx {
      hosts =
          (host_pressed key_at
            (codes "db1")
            (codes " db-2")
            (codes "10.0.0.0/24 ")
            loaded
            5).0.hosts;
    })
        ≡ none)
host_pressed-Saves_example =
    host_pressed-Saves key_at (codes "db1") (codes " db-2") (codes "10.0.0.0/24 ") loaded 5 web2 ctx
      Side.src loaded-distinct_hosts web2-saved

-- The editor of a host that is called "new" is the one for a new host.
new_host : host_initial loaded (codes "new") ≡ none
unfolding host_initial text_eq
new_host = refl

-- A row says how often its name is used, and devices may have tags that are not declared.
used_example : used_by (references_of loaded (codes "group:eng")) ≡ codes "1 rule, 1 tag owner"
unfolding used_by references_of draft_from_model text_eq mentions canonical rename_in_value
    split_dst
used_example = refl

undeclared_example :
    undeclared (record ctx { node_tags = (codes "tag:web", 2) ∷ (codes "tag:db", 1) ∷ [] }) loaded
    ≡ codes "tag:db" ∷ []
unfolding undeclared draft_from_model text_eq
undeclared_example = refl
