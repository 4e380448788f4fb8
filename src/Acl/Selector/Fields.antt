-- ===== src/Acl/Selector/Fields.antt =====
-- The checks of single fields: `validateGrantIp`, `validatePlain`, `validateSshUser`,
-- `validateTestTarget` and `validateRoutePrefix` of frontend/src/pages/acls/model.ts.
use head_control.Common.{
  ℕ, suc, Bool, not, ◌&&◌, ◌||◌, [], ◌++◌, map, if◌then◌else◌, Option, none, some, any,
}
use head_control.Text.{Text, codes, text_eq, trim, has_unit, index_of, take, drop, lower, is_number}
use head_control.Acl.Ports.{Parsed, ok, fail, parse_ports, protocols, split_dst}
use head_control.Acl.Selector.{Issue, an_error, has_space}
use head_control.Acl.Selector.Cidr.{is_ip_or_cidr}

abbrev ports_issue : Parsed → Option Issue
ports_issue (ok v) = none
ports_issue (fail e) = an_error e

-- A protocol of the table, but not the first one, which has no name.
is_protocol : Text → Bool
is_protocol proto = any (λ x. text_eq x.value proto && not (text_eq x.value [])) protocols

grant_ip_at : Text → Option ℕ → Option Issue
grant_ip_at s none = ports_issue (parse_ports s)
grant_ip_at s (some i) =
    let proto = map lower (take i s) in
    if not (is_protocol proto) && not (is_number 3 proto)
    then an_error (codes "unknown protocol \"" ++ (proto ++ codes "\""))
    else ports_issue (parse_ports (drop (suc i) s))

unfoldable pub validate_grant_ip : Text → Option Issue
unfolding grant_ip_at is_protocol
validate_grant_ip raw =
    let s = trim raw in if text_eq s (codes "*") then none else grant_ip_at s (index_of b':' s)

unfoldable pub validate_plain : Text → Text → Option Issue
validate_plain raw what =
    let s = trim raw in
    if text_eq s [] || has_space s
    then an_error (what ++ codes " cannot be empty or contain spaces")
    else none

unfoldable pub validate_ssh_user : Text → Option Issue
unfolding validate_plain
validate_ssh_user raw =
    if text_eq (trim raw) (codes "*")
    then an_error (codes "headscale rejects \"*\" as an SSH user; use autogroup:nonroot")
    else validate_plain raw (codes "users")

abbrev error_issue : Option Text → Option Issue
error_issue none = none
error_issue (some e) = an_error e

unfoldable pub validate_test_target : Text → Option Issue
validate_test_target raw = error_issue (split_dst (trim raw)).error

unfoldable pub validate_route_prefix : Text → Option Text
validate_route_prefix raw =
    let s = trim raw in
    if not (has_unit b'/' s) || not (is_ip_or_cidr s)
    then some (codes "enter a CIDR prefix such as 10.0.0.0/24")
    else none
