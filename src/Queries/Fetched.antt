-- ===== src/Queries/Fetched.antt =====
-- What follows every hook that changes something.
use head_control.Dict.{get}
use head_control.Client.{api_request}
use head_control.Common.{
  sym, ap, ◌∙◌, inl, inr, Bool-cases, some, Option, Bool, true, false, not, ◌||◌, ◌&&◌, List, [],
  ◌∷◌, ◌≡◌, refl, arith, any, all,
}
use head_control.Text.{codes, Text, starts_with, text_eq}
use head_control.Session.Reached.{get-request_headers, is_safe_method}
use head_control.Queries.{Mutation, Query, call_of, endpoint, first_key, invalidated}

abbrev pub same_query : Query → Query → Bool
same_query p q = text_eq (first_key p) (first_key q)

-- The query of one node.
abbrev pub is_single : Query → Bool
is_single (Query.node id) = true
is_single _ = false

abbrev all_queries : List Query
all_queries =
    Query.meta ∷ Query.overview ∷ Query.nodes ∷ Query.users ∷ Query.preauthkeys ∷ Query.apikeys
    ∷ Query.policy ∷ Query.policy_versions ∷ Query.policy_model ∷ Query.dns ∷ Query.audit
    ∷ Query.handoffs ∷ []

-- A query whose endpoint the path of the call begins with is fetched again.
abbrev covers : Text → List Query → Query → Bool
covers path qs q = not (starts_with path (endpoint q)) || any (λ p. same_query p q) qs

and_parts : (a b : Bool) → (a && not b) ≡ true → (a ≡ true) × (b ≡ false)
and_parts a b h = (ground arith, ground arith)

or_true : {a b : Bool} → a ≡ true → (not a || b) ≡ true → b ≡ true
or_true {a = a} {b = b} s h = ground arith

-- Each of the queries is covered but that of a single node, which is not fetched again.
abbrev covers_lists : Text → List Query → Bool
covers_lists path qs =
    all (covers path qs) all_queries && not (any (λ p. same_query p (Query.node [])) qs)

all_lists :
    (f : Query → Bool) (q : Query) → all f all_queries ≡ true → is_single q ≡ false → f q ≡ true
unfolding all
all_lists f Query.meta h s = ground arith
all_lists f Query.overview h s = ground arith
all_lists f Query.nodes h s = ground arith
all_lists f Query.users h s = ground arith
all_lists f Query.preauthkeys h s = ground arith
all_lists f Query.apikeys h s = ground arith
all_lists f Query.policy h s = ground arith
all_lists f Query.policy_versions h s = ground arith
all_lists f Query.policy_model h s = ground arith
all_lists f Query.dns h s = ground arith
all_lists f Query.audit h s = ground arith
all_lists f Query.handoffs h s = ground arith
all_lists f (Query.node id) h s = cc

first_key-single : (q : Query) → is_single q ≡ true → first_key q ≡ codes "node"
first_key-single Query.meta h = cc
first_key-single Query.overview h = cc
first_key-single Query.nodes h = cc
first_key-single Query.users h = cc
first_key-single Query.preauthkeys h = cc
first_key-single Query.apikeys h = cc
first_key-single Query.policy h = cc
first_key-single Query.policy_versions h = cc
first_key-single Query.policy_model h = cc
first_key-single Query.dns h = cc
first_key-single Query.audit h = cc
first_key-single Query.handoffs h = cc
first_key-single (Query.node id) h = refl

fetched_again :
    (path : Text) (qs : List Query) (q : Query)
    → covers_lists path qs ≡ true
    → starts_with path (endpoint q) ≡ true
    → any (λ p. same_query p q) qs ≡ not (is_single q)
fetched_again path qs q h s =
    let parts = and_parts (all (covers path qs) all_queries) _ h in
    elim (Bool-cases (is_single q)) [
      | inl e ↦
          let kept : any (λ p. text_eq (first_key p) (codes "node")) qs ≡ false = parts.1 in
          ap (λ k. any (λ p. text_eq (first_key p) k) qs) (first_key-single q e)
          ∙ kept
          ∙ sym (ap not e)
      | inr e ↦
          let covered = all_lists (covers path qs) q parts.0 e in or_true s covered ∙ sym (ap not e)
    ]

module _ (encode : Text → Text) where
  covers_lists-invalidated :
      (m : Mutation) → covers_lists (call_of encode m).path (invalidated m) ≡ true
  unfolding call_of invalidated starts_with any all text_eq
  covers_lists-invalidated (Mutation.create_user n d e) = refl
  covers_lists-invalidated (Mutation.rename_user i n) = refl
  covers_lists-invalidated (Mutation.rename_node i n) = refl
  covers_lists-invalidated (Mutation.delete_user i) = refl
  covers_lists-invalidated (Mutation.delete_node i) = refl
  covers_lists-invalidated (Mutation.expire_pre_auth_key i) = refl
  covers_lists-invalidated (Mutation.delete_pre_auth_key i) = refl
  covers_lists-invalidated (Mutation.set_tags i t) = refl
  covers_lists-invalidated (Mutation.expire_node i m e) = refl
  covers_lists-invalidated (Mutation.set_routes i a r e) = refl
  covers_lists-invalidated (Mutation.backfill_ips b) = refl
  covers_lists-invalidated (Mutation.debug_create_node u k n r) = refl
  covers_lists-invalidated (Mutation.register_device u a l) = refl
  covers_lists-invalidated (Mutation.auth_decision a k) = refl
  covers_lists-invalidated (Mutation.create_pre_auth_key u r e x t l) = refl
  covers_lists-invalidated (Mutation.set_key_label i l) = refl
  covers_lists-invalidated (Mutation.create_api_key e) = refl
  covers_lists-invalidated (Mutation.expire_api_key p i c) = refl
  covers_lists-invalidated (Mutation.delete_api_key p c) = refl
  covers_lists-invalidated (Mutation.save_policy p c) = refl
  covers_lists-invalidated (Mutation.save_policy_model b) = refl
  covers_lists-invalidated (Mutation.save_dns_records r e f) = refl
  covers_lists-invalidated Mutation.purge_audit = refl

  is_safe_method-call_of : (m : Mutation) → is_safe_method (call_of encode m).method ≡ false
  unfolding call_of text_eq
  is_safe_method-call_of (Mutation.create_user n d e) = refl
  is_safe_method-call_of (Mutation.rename_user i n) = refl
  is_safe_method-call_of (Mutation.rename_node i n) = refl
  is_safe_method-call_of (Mutation.delete_user i) = refl
  is_safe_method-call_of (Mutation.delete_node i) = refl
  is_safe_method-call_of (Mutation.expire_pre_auth_key i) = refl
  is_safe_method-call_of (Mutation.delete_pre_auth_key i) = refl
  is_safe_method-call_of (Mutation.set_tags i t) = refl
  is_safe_method-call_of (Mutation.expire_node i m e) = refl
  is_safe_method-call_of (Mutation.set_routes i a r e) = refl
  is_safe_method-call_of (Mutation.backfill_ips b) = refl
  is_safe_method-call_of (Mutation.debug_create_node u k n r) = refl
  is_safe_method-call_of (Mutation.register_device u a l) = refl
  is_safe_method-call_of (Mutation.auth_decision a k) = refl
  is_safe_method-call_of (Mutation.create_pre_auth_key u r e x t l) = refl
  is_safe_method-call_of (Mutation.set_key_label i l) = refl
  is_safe_method-call_of (Mutation.create_api_key e) = refl
  is_safe_method-call_of (Mutation.expire_api_key p i c) = refl
  is_safe_method-call_of (Mutation.delete_api_key p c) = refl
  is_safe_method-call_of (Mutation.save_policy p c) = refl
  is_safe_method-call_of (Mutation.save_policy_model b) = refl
  is_safe_method-call_of (Mutation.save_dns_records r e f) = refl
  is_safe_method-call_of Mutation.purge_audit = refl

token_header :
    (base token method path : Text) (body : Option Text)
    → is_safe_method method ≡ false
    → get (codes "X-CSRF-Token") (api_request base token method path body).headers ≡ some token
unfolding api_request
token_header base token method path body h = get-request_headers token method body h

-- Every hook that changes something sends the token of the session with its request, and once it
-- has settled, a query whose endpoint begins the path of the request is fetched again exactly where
-- it is not that of a single node.
pub invalidated-call_of :
    (encode : Text → Text) (base token : Text) (m : Mutation) (body : Option Text) (q : Query)
    → let call = call_of encode m in
      (get (codes "X-CSRF-Token") (api_request base token call.method call.path body).headers
        ≡ some token)
      × (starts_with call.path (endpoint q) ≡ true
          → any (λ p. same_query p q) (invalidated m) ≡ not (is_single q))
invalidated-call_of encode base token m body q = (
  token_header base token (call_of encode m).method (call_of encode m).path body
      (is_safe_method-call_of encode m),
  fetched_again (call_of encode m).path (invalidated m) q (covers_lists-invalidated encode m),
)
