-- ===== src/Queries/Tests.antt =====
-- The hooks at concrete variables.
use head_control.Common.{some, none, [], ◌≡◌, true, false, not, refl, any}
use head_control.Text.{codes, starts_with, text_eq}
use head_control.Dict.{get}
use head_control.Client.{api_request}
use head_control.Queries.{Mutation, Query, call_of, endpoint, invalidated}
use head_control.Queries.Fetched.{invalidated-call_of, same_query, is_single}

abbrev rename : Mutation
rename = Mutation.rename_node (codes "7") (codes "web")

path_test : (call_of (λ s. s) rename).path ≡ codes "/api/hs/nodes/7/rename"
unfolding call_of
path_test = refl

invalidated-call_of_example :
    let call = call_of (λ s. s) rename in
    (get (codes "X-CSRF-Token") (api_request [] (codes "t0") call.method call.path none).headers
      ≡ some (codes "t0"))
    × (starts_with call.path (endpoint Query.nodes) ≡ true
        → any (λ p. same_query p Query.nodes) (invalidated rename) ≡ not (is_single Query.nodes))
invalidated-call_of_example = invalidated-call_of (λ s. s) [] (codes "t0") rename none Query.nodes

-- The query of the node that is renamed is not fetched again.
renamed_node :
    (starts_with (call_of (λ s. s) rename).path (endpoint (Query.node (codes "7"))) ≡ true)
    × (any (λ p. same_query p (Query.node (codes "7"))) (invalidated rename) ≡ false)
unfolding call_of starts_with any invalidated text_eq
renamed_node = (refl, refl)
