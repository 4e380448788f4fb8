-- ===== src/Queries.antt =====
-- The hooks that change something, frontend/src/api/queries.ts: the request that each one makes and
-- the queries that are fetched again once it has settled. `encodeURIComponent` belongs to the
-- browser and is a parameter.
mod Fetched
mod Tests
use head_control.Common.{
  Bool, true, false, Option, none, some, List, [], ◌∷◌, ◌++◌, map, if◌then◌else◌,
}
use head_control.Text.{Text, codes}
use head_control.Client.{delete_method, post_method, put_method}
use head_control.Acl.Draft.{PolicyModelSave}
use head_control.Dns
use head_control.Dns.{DnsRecord}

-- The queries that the hooks make, and the query of a single node.
pub data Query : Type 0 where
  meta overview nodes users preauthkeys apikeys policy policy_versions policy_model dns audit :
      Query
  handoffs : Query
  node : Text → Query

-- The first part of the key of a query: a mutation gives keys of one part, which stand for every
-- query whose key begins with that part.
abbrev pub first_key : Query → Text
first_key meta = codes "meta"
first_key overview = codes "overview"
first_key nodes = codes "nodes"
first_key users = codes "users"
first_key preauthkeys = codes "preauthkeys"
first_key apikeys = codes "apikeys"
first_key policy = codes "policy"
first_key policy_versions = codes "policy-versions"
first_key policy_model = codes "policy-model"
first_key dns = codes "dns"
first_key audit = codes "audit"
first_key handoffs = codes "handoffs"
first_key (node id) = codes "node"

-- The endpoint of a query without its parameters.
abbrev pub endpoint : Query → Text
endpoint meta = codes "/api/meta"
endpoint overview = codes "/api/overview"
endpoint nodes = codes "/api/hs/nodes"
endpoint users = codes "/api/hs/users"
endpoint preauthkeys = codes "/api/hs/preauthkeys"
endpoint apikeys = codes "/api/hs/apikeys"
endpoint policy = codes "/api/policy"
endpoint policy_versions = codes "/api/policy/versions"
endpoint policy_model = codes "/api/policy/model"
endpoint dns = codes "/api/dns"
endpoint audit = codes "/api/audit"
endpoint handoffs = codes "/api/handoffs"
endpoint (node id) = codes "/api/hs/nodes/" ++ id

pub data ExpireMode : Type 0 where
  now at never : ExpireMode

abbrev mode_text : ExpireMode → Text
mode_text now = codes "now"
mode_text at = codes "at"
mode_text never = codes "never"

pub data Decision : Type 0 where
  approve reject : Decision

abbrev kind_text : Decision → Text
kind_text approve = codes "approve"
kind_text reject = codes "reject"

-- A value of a body; `undefined` is a member that the printer leaves out.
pub data Value : Type 0 where
  text : Text → Value
  flag : Bool → Value
  texts : List Text → Value
  records : List DnsRecord → Value
  undefined : Value

abbrev optional : Option Text → Value
optional none = undefined
optional (some t) = text t

abbrev optional_flag : Option Bool → Value
optional_flag none = undefined
optional_flag (some b) = flag b

abbrev optional_texts : Option (List Text) → Value
optional_texts none = undefined
optional_texts (some ts) = texts ts

-- The body of a request: nothing, an object of members, or the model of a policy.
pub data Body : Type 0 where
  empty : Body
  object : List (Text × Value) → Body
  model : PolicyModelSave → Body

pub data Mutation : Type 0 where
  create_user : Text → Option Text → Option Text → Mutation
  rename_user rename_node : Text → Text → Mutation
  delete_user delete_node expire_pre_auth_key delete_pre_auth_key : Text → Mutation
  set_tags : Text → List Text → Mutation
  expire_node : Text → ExpireMode → Option Text → Mutation
  set_routes : Text → List Text → List Text → List Text → Mutation
  backfill_ips : Bool → Mutation
  debug_create_node : Text → Text → Text → Option (List Text) → Mutation
  register_device : Text → Text → Option Bool → Mutation
  auth_decision : Text → Decision → Mutation
  create_pre_auth_key :
      Text → Bool → Bool → Option Text → Option (List Text) → Option Text → Mutation
  set_key_label : Text → Text → Mutation
  create_api_key : Option Text → Mutation
  expire_api_key : Option Text → Option Text → Option Bool → Mutation
  delete_api_key : Text → Option Bool → Mutation
  save_policy : Text → Option Text → Mutation
  save_policy_model : PolicyModelSave → Mutation
  save_dns_records : List DnsRecord → Text → Option Bool → Mutation
  purge_audit : Mutation

-- What the hook asks `api` for.
pub record Call : Type 0 where
  pub method : Text
  pub path : Text
  pub body : Body

abbrev get_call : Text → Body → Text → Call
get_call method body path = record { method = method; path = path; body = body }

abbrev post : Text → List (Text × Value) → Call
post path members = get_call post_method (object members) path

abbrev put : Text → List (Text × Value) → Call
put path members = get_call put_method (object members) path

abbrev del : Text → Call
del path = get_call delete_method empty path

abbrev flag_text : Bool → Text
flag_text b = if b then codes "true" else codes "false"

abbrev lockout_query : Option Bool → Text
lockout_query none = []
lockout_query (some b) = if b then codes "?confirmSelfLockout=true" else []

module _ (encode : Text → Text) where
  unfoldable pub call_of : Mutation → Call
  call_of (create_user name display email) = post (codes "/api/hs/users") (
      (codes "name", text name)
      ∷ (codes "displayName", optional display)
      ∷ (codes "email", optional email)
      ∷ [])
  call_of (rename_user id name) =
      post (codes "/api/hs/users/" ++ (id ++ codes "/rename")) ((codes "newName", text name) ∷ [])
  call_of (delete_user id) = del (codes "/api/hs/users/" ++ id)
  call_of (rename_node id name) =
      post (codes "/api/hs/nodes/" ++ (id ++ codes "/rename")) ((codes "newName", text name) ∷ [])
  call_of (set_tags id tags) =
      post (codes "/api/hs/nodes/" ++ (id ++ codes "/tags")) ((codes "tags", texts tags) ∷ [])
  call_of (expire_node id mode expiry) =
      post (codes "/api/hs/nodes/" ++ (id ++ codes "/expire"))
        ((codes "mode", text (mode_text mode)) ∷ (codes "expiry", optional expiry) ∷ [])
  call_of (delete_node id) = del (codes "/api/hs/nodes/" ++ id)
  call_of (set_routes id approved revoked expected) =
      post (codes "/api/hs/nodes/" ++ (id ++ codes "/routes")) (
        (codes "approve", texts approved)
        ∷ (codes "revoke", texts revoked)
        ∷ (codes "expectedApproved", texts expected)
        ∷ [])
  call_of (backfill_ips confirmed) =
      get_call post_method empty
        (codes "/api/hs/nodes/backfillips?confirmed=" ++ flag_text confirmed)
  call_of (debug_create_node user key name routes) = post (codes "/api/hs/debug/node") (
      (codes "user", text user)
      ∷ (codes "key", text key)
      ∷ (codes "name", text name)
      ∷ (codes "routes", optional_texts routes)
      ∷ [])
  call_of (register_device user auth_id legacy) = post (codes "/api/hs/register") (
      (codes "user", text user)
      ∷ (codes "authId", text auth_id)
      ∷ (codes "legacy", optional_flag legacy)
      ∷ [])
  call_of (auth_decision auth_id kind) =
      post (codes "/api/hs/auth/" ++ kind_text kind) ((codes "authId", text auth_id) ∷ [])
  call_of (create_pre_auth_key user reusable ephemeral expiration tags label) =
      post (codes "/api/hs/preauthkeys") (
        (codes "user", text user)
        ∷ (codes "reusable", flag reusable)
        ∷ (codes "ephemeral", flag ephemeral)
        ∷ (codes "expiration", optional expiration)
        ∷ (codes "aclTags", optional_texts tags)
        ∷ (codes "label", optional label)
        ∷ [])
  call_of (expire_pre_auth_key id) =
      post (codes "/api/hs/preauthkeys/expire") ((codes "id", text id) ∷ [])
  call_of (delete_pre_auth_key id) = del (codes "/api/hs/preauthkeys/" ++ id)
  call_of (set_key_label id label) =
      put (codes "/api/keylabels/" ++ id) ((codes "label", text label) ∷ [])
  call_of (create_api_key expiration) =
      post (codes "/api/hs/apikeys") ((codes "expiration", optional expiration) ∷ [])
  call_of (expire_api_key prefix id confirm) = post (codes "/api/hs/apikeys/expire") (
      (codes "prefix", optional prefix)
      ∷ (codes "id", optional id)
      ∷ (codes "confirmSelfLockout", optional_flag confirm)
      ∷ [])
  call_of (delete_api_key prefix confirm) =
      del (codes "/api/hs/apikeys/" ++ (encode prefix ++ lockout_query confirm))
  call_of (save_policy content comment) =
      put (codes "/api/policy")
        ((codes "policy", text content) ∷ (codes "comment", optional comment) ∷ [])
  call_of (save_policy_model body) = get_call put_method (model body) (codes "/api/policy/model")
  call_of (save_dns_records rs expected force) = put (codes "/api/dns/records") (
      (codes "records", records rs)
      ∷ (codes "expectedHash", text expected)
      ∷ (codes "force", optional_flag force)
      ∷ [])
  call_of purge_audit = get_call post_method empty (codes "/api/audit/purge")

abbrev policy_queries : List Query
policy_queries = policy ∷ policy_model ∷ policy_versions ∷ []

-- The queries that `useInvalidating` gets.
unfoldable pub invalidated : Mutation → List Query
invalidated (create_user name display email) = users ∷ overview ∷ []
invalidated (rename_user id name) = users ∷ nodes ∷ []
invalidated (delete_user id) = users ∷ nodes ∷ preauthkeys ∷ overview ∷ []
invalidated (rename_node id name) = nodes ∷ []
invalidated (set_tags id tags) = nodes ∷ []
invalidated (expire_node id mode expiry) = nodes ∷ overview ∷ []
invalidated (delete_node id) = nodes ∷ overview ∷ []
invalidated (set_routes id approved revoked expected) = nodes ∷ overview ∷ []
invalidated (backfill_ips confirmed) = nodes ∷ []
invalidated (debug_create_node user key name routes) = nodes ∷ overview ∷ []
invalidated (register_device user auth_id legacy) = nodes ∷ handoffs ∷ overview ∷ []
invalidated (auth_decision auth_id kind) = handoffs ∷ []
invalidated (create_pre_auth_key user reusable ephemeral expiration tags label) =
    preauthkeys ∷ overview ∷ []
invalidated (expire_pre_auth_key id) = preauthkeys ∷ overview ∷ []
invalidated (delete_pre_auth_key id) = preauthkeys ∷ overview ∷ []
invalidated (set_key_label id label) = preauthkeys ∷ []
invalidated (create_api_key expiration) = apikeys ∷ overview ∷ []
invalidated (expire_api_key prefix id confirm) = apikeys ∷ overview ∷ []
invalidated (delete_api_key prefix confirm) = apikeys ∷ overview ∷ []
invalidated (save_policy content comment) = policy_queries
invalidated (save_policy_model body) = policy_queries
invalidated (save_dns_records rs expected force) = dns ∷ []
invalidated purge_audit = audit ∷ overview ∷ []
