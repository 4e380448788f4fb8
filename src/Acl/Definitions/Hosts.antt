-- ===== src/Acl/Definitions/Hosts.antt =====
-- What the editor of hosts of frontend/src/pages/acls/DefinitionsTabs.tsx saves, for the rules of
-- the draft.
use head_control.Acl.Definitions.HostNames.{validate_selector_of_host}
use head_control.Acl.Definitions.Renamed.{rename_if}
use head_control.Dict.Laws.{own-get, get-set}
use head_control.Text.Trim.{trim_idempotent}
use head_control.Text.Sort.{includes-sort}
use head_control.Acl.Definitions.Saved.{get-saved, initial_sound, Saves, some_if}
use head_control.Acl.Ports.Spec.{Distinct}
use mathlib.Core.Path.{subst}
use head_control.Acl.Definitions.Renamed.{dispatched-renaming_host}
use head_control.Text.Equal.{text_eq_refl}
use head_control.Dict.{set, own}
use head_control.Acl.Definitions.{
  get, is_initial, keys, sort, Draft, is_none, is_ip_or_cidr, Dict, SelectorContext,
}
use head_control.Text.{includes, codes, text_eq, trim, Text}
use head_control.Acl.Selector.{Side, validate_selector}
use head_control.Acl.Definitions.Tabs.{
  is_reserved, save_host, pressed, is_new, host_initial, cidr_error, host_entry_name,
  save_host_entry, host_name_error, Host, host_pressed, is_host_name,
}
use head_control.Common.{
  ◌++◌, ℕ, Bool, true, false, not, ◌&&◌, [], ◌≡◌, ◌⊎◌, inl, inr, refl, ap, ◌∙◌, arith,
  if◌then◌else◌, none, some, Option, Bool-cases, List, and-eq-true,
}

-- A chain of checks finds nothing exactly where none of them does.
none_of_if :
    (b : Bool) (t : Text) (rest : Option Text)
    → is_none (if b then some t else rest) ≡ true
    → (b ≡ false) × (is_none rest ≡ true)
none_of_if true t rest h = absurd (ground arith)
none_of_if false t rest h = (refl, h)

cidr_error_lem : (cidr : Text) → is_none (cidr_error cidr) ≡ true → is_ip_or_cidr (trim cidr) ≡ true
cidr_error_lem cidr h =
    let (some_cidr, rest) =
      none_of_if (text_eq (trim cidr) []) (codes "address is required")
        (if not (is_ip_or_cidr (trim cidr))
          then some (codes "enter an IP (10.0.0.5) or CIDR (10.0.0.0/24)")
          else none)
        (unfold cidr_error in h) in
    ground arith

-- What the button of the editor saves: a name of a host that has no error, and an address.
save_host_entry_lem :
    (initial : Option Text) (existing : List Text) (name cidr : Text) (h : Host)
    → save_host_entry initial existing name cidr ≡ some h
    → (is_none (host_name_error initial existing h.name) ≡ true)
      × (trim h.name ≡ h.name)
      × (is_ip_or_cidr h.cidr ≡ true)
save_host_entry_lem initial existing name cidr h e =
    let (pressed, same) =
      some_if (is_none (host_name_error initial existing (trim name)) && is_none (cidr_error cidr))
        (record { name = trim name; cidr = trim cidr }) h (unfold save_host_entry in e) in
    let both =
      (and-eq-true (is_none (host_name_error initial existing (trim name)))
          (is_none (cidr_error cidr))).0
        pressed in
    let named : trim name ≡ h.name = ap (λ x. x.name) same in
    let addressed : trim cidr ≡ h.cidr = ap (λ x. x.cidr) same in
    (
      subst (λ t. is_none (host_name_error initial existing t) ≡ true) named both.0,
      subst (λ t. trim t ≡ t) named (trim_idempotent name),
      subst (λ t. is_ip_or_cidr t ≡ true) addressed (cidr_error_lem cidr both.1),
    )

fresh_of_check :
    (same : Bool) (n : Text) (ks : List Text)
    → is_none
        (if not same && includes n (sort ks) then some (n ++ codes " already exists") else none)
      ≡ true
    → (same ≡ true) ⊎ (includes n ks ≡ false)
fresh_of_check same n ks h =
    let (fresh, done) =
      none_of_if (not same && includes n (sort ks)) (n ++ codes " already exists") none h in
    ground (arith, includes-sort n ks, fresh)

host_name_error_lem :
    (initial : Option Text) (m : Dict Text) (n : Text)
    → is_none (host_name_error initial (sort (keys m)) n) ≡ true
    → ((own n m ≡ false) ⊎ (initial ≡ some n)) × (text_eq n [] ≡ false) × (is_host_name n ≡ true)
host_name_error_lem initial m n h =
    let again =
      if not (is_initial initial n) && includes n (sort (keys m))
      then some (n ++ codes " already exists")
      else none in
    let reserved =
      if is_reserved n then some (codes "host names cannot use a reserved prefix") else again in
    let (some_name, h₁) =
      none_of_if (text_eq n []) (codes "name is required")
        (if not (is_host_name n)
          then some (codes "letters, digits, dot, dash and underscore only")
          else reserved)
        (unfold host_name_error in h) in
    let (named, h₂) =
      none_of_if (not (is_host_name n)) (codes "letters, digits, dot, dash and underscore only")
        reserved h₁ in
    let (plain, h₃) =
      none_of_if (is_reserved n) (codes "host names cannot use a reserved prefix") again h₂ in
    let fresh : (is_initial initial n ≡ true) ⊎ (own n m ≡ false) =
      unfold own in fresh_of_check (is_initial initial n) n (keys m) h₃ in
    let place : (own n m ≡ false) ⊎ (initial ≡ some n) = elim fresh [
      | inl e ↦ inr (initial_sound initial n e)
      | inr e ↦ inl e
    ] in
    (place, some_name, ground (arith, named))

module _ (key_at : ℕ → Text) where
  hosts_of_press :
      (editing name cidr : Text) (d : Draft) (n : ℕ) (h : Host)
      → save_host_entry (host_entry_name (host_initial d editing)) (sort (keys d.hosts)) name cidr
        ≡ some h
      → (host_pressed key_at editing name cidr d n).0.hosts
        ≡ set h.name h.cidr (
            if not (is_new editing) && not (text_eq h.name editing)
            then rename_if editing h.name d.hosts
            else d.hosts)
  unfolding host_pressed
  hosts_of_press editing name cidr d n h e =
      ap (λ o. (pressed key_at (save_host editing) o d n).0.hosts) e
      ∙ (unfold pressed save_host in
          dispatched-renaming_host key_at (not (is_new editing) && not (text_eq h.name editing))
            editing h.name h.cidr d n)

  -- The button of the editor of a host, where it is enabled, saves the host with an address, and
  -- the host is then a selector without a finding on both sides.
  pub host_pressed-Saves :
      (editing name cidr : Text) (d : Draft) (n : ℕ) (h : Host) (ctx : SelectorContext)
      (side : Side)
      → Distinct (keys d.hosts)
      → save_host_entry (host_entry_name (host_initial d editing)) (sort (keys d.hosts)) name cidr
        ≡ some h
      → Saves
          (host_entry_name (host_initial d editing))
          h.name
          h.cidr
          d.hosts
          (host_pressed key_at editing name cidr d n).0.hosts
        × (is_ip_or_cidr h.cidr ≡ true)
        × (validate_selector h.name side
              (record ctx { hosts = (host_pressed key_at editing name cidr d n).0.hosts })
            ≡ none)
  host_pressed-Saves editing name cidr d n h ctx side distinct e =
      let after = (host_pressed key_at editing name cidr d n).0.hosts in
      let initial = host_entry_name (host_initial d editing) in
      let (fine, trimmed, address) =
        save_host_entry_lem initial (sort (keys d.hosts)) name cidr h e in
      let (place, some_name, named) = host_name_error_lem initial d.hosts h.name fine in
      let found : (k : Text)
          → get k after ≡ (
              if text_eq h.name k
              then some h.cidr
              else if is_initial initial k
              then none
              else get k d.hosts) =
        λ k.
          ap (get k) (hosts_of_press editing name cidr d n h e)
          ∙ (unfold host_initial in
              elim (Bool-cases (is_new editing)) [
                | inl new ↦ rw new (get-set h.name k h.cidr d.hosts)
                | inr old ↦ rw old (get-saved editing h.name k h.cidr d.hosts distinct)
              ]) in
      let declared : own h.name after ≡ true =
        ground (arith, own-get h.name after, found h.name, text_eq_refl h.name) in
      (
        (found, place),
        address,
        validate_selector_of_host h.name side (record ctx { hosts = after }) trimmed some_name named
            declared,
      )
