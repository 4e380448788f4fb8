-- ===== src/Routes/Rows.antt =====
-- The rows of a prefix are the nodes that advertise it or have it approved.
use head_control.Common.{All, refl, Bool, ◌||◌, List, [], ◌∷◌, ◌++◌, ◌≡◌, ap, ◌∙◌, arith, map, keep}
use head_control.Text.{Text, includes}
use head_control.Text.Equal.{includes-append}
use head_control.Dict.{Dict, get, set}
use head_control.Acl.Ports.Spec.{Distinct}
use head_control.Acl.Ports.Merge.{includes-dedup, dedup-Distinct}
use head_control.Api.{Node}
use head_control.Format.{subnet_routes_of, or_nil}
use head_control.Routes.Gather.{gather, gather_all, get-gather_all}
use head_control.Routes.{Advertiser, advertiser, add_prefixes, prefixes_of, prefix_rows}

add_prefixes_lem :
    (n : Node) (ps : List Text) (rows : Dict (List Advertiser))
    → add_prefixes n ps rows ≡ gather (advertiser n) ps rows
unfolding add_prefixes gather
add_prefixes_lem n [] rows = refl
add_prefixes_lem n (p ∷ ps) rows =
    add_prefixes_lem n ps (set p (or_nil (get p rows) ++ advertiser n p ∷ []) rows)

-- The node advertises the prefix or has it approved.
abbrev pub is_listed : Text → Node → Bool
is_listed p n =
    includes p (subnet_routes_of n).advertised || includes p (subnet_routes_of n).approved

includes-prefixes_of : (p : Text) (n : Node) → includes p (prefixes_of n) ≡ is_listed p n
unfolding includes
includes-prefixes_of p n =
    let routes = subnet_routes_of n in
    ground (
      arith,
      includes-dedup p (routes.advertised ++ routes.approved) [],
      includes-append p routes.advertised routes.approved,
    )

prefix_rows_lem :
    (ns : List Node) (rows : Dict (List Advertiser))
    → prefix_rows ns rows ≡ gather_all prefixes_of advertiser ns rows
unfolding prefix_rows gather_all
prefix_rows_lem [] rows = refl
prefix_rows_lem (n ∷ ns) rows =
    prefix_rows_lem ns (add_prefixes n (prefixes_of n) rows)
    ∙ ap (gather_all prefixes_of advertiser ns) (add_prefixes_lem n (prefixes_of n) rows)

keep-is_listed :
    (p : Text) (ns : List Node) → keep (λ n. includes p (prefixes_of n)) ns ≡ keep (is_listed p) ns
unfolding keep
keep-is_listed p [] = refl
keep-is_listed p (n ∷ ns) = ground (arith, includes-prefixes_of p n, keep-is_listed p ns)

prefixes_of-Distinct : (ns : List Node) → All (λ n. Distinct (prefixes_of n)) ns
prefixes_of-Distinct [] = tt
prefixes_of-Distinct (n ∷ ns) = (
  dedup-Distinct ((subnet_routes_of n).advertised ++ (subnet_routes_of n).approved) [] tt,
  prefixes_of-Distinct ns,
)

-- The page shows under a prefix, in their order, exactly the nodes that advertise it or have it
-- approved, each once.
pub get-prefix_rows :
    (p : Text) (ns : List Node)
    → or_nil (get p (prefix_rows ns [])) ≡ map (λ n. advertiser n p) (keep (is_listed p) ns)
unfolding get
get-prefix_rows p ns =
    ap (λ rows. or_nil (get p rows)) (prefix_rows_lem ns [])
    ∙ get-gather_all prefixes_of advertiser p ns [] (prefixes_of-Distinct ns)
    ∙ ap (map (λ n. advertiser n p)) (keep-is_listed p ns)
