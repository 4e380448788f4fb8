-- ===== src/Routes/Attention.antt =====
-- What needs attention on the routes page.
use head_control.Common.{
  All, ◌↔◌, Bool, true, false, not, ◌&&◌, List, [], ◌∷◌, ◌++◌, ◌≡◌, inl, inr, refl, ap, arith,
  Bool-cases,
}
use head_control.Text.{Text, includes}
use head_control.Text.Equal.{text_eq_refl}
use head_control.Acl.Diff.Sections.{includes-keep-not}
use head_control.Api.{Node}
use head_control.Format.{
  is_exit_route, node_is_exit_node, node_advertises_exit, subnet_routes_of, or_nil,
}
use head_control.Machines.{is_empty_list}
use head_control.Machines.RouteLists.{includes-approved, includes-advertised}
use head_control.Routes.{
  attention, AttentionItem, item_if, with_exit, pending_routes, stale_routes, is_lost, attention_of,
}

is_empty_list-append {ℓ} :
    {A : Type ℓ} (xs ys : List A)
    → is_empty_list (xs ++ ys) ≡ (is_empty_list xs && is_empty_list ys)
is_empty_list-append [] ys = refl
is_empty_list-append (x ∷ xs) ys = refl

is_empty_list-item_if : (b : Bool) (i : AttentionItem) → is_empty_list (item_if b i) ≡ not b
is_empty_list-item_if true i = refl
is_empty_list-item_if false i = refl

is_empty_list-with_exit :
    (xs : List Text) (b : Bool) → is_empty_list (with_exit xs b) ≡ (is_empty_list xs && not b)
is_empty_list-with_exit [] true = refl
is_empty_list-with_exit [] false = refl
is_empty_list-with_exit (x ∷ xs) b = refl

empty-nil {ℓ} : {A : Type ℓ} (xs : List A) → is_empty_list xs ≡ true → xs ≡ []
empty-nil [] h = refl
empty-nil (x ∷ xs) h = absurd (ground arith)

empty-includes : (xs : List Text) (r : Text) → is_empty_list xs ≡ true → includes r xs ≡ false
unfolding includes
empty-includes [] r h = refl
empty-includes (x ∷ xs) r h = absurd (ground arith)

includes-empty : (xs : List Text) → ((r : Text) → includes r xs ≡ false) → is_empty_list xs ≡ true
unfolding includes
includes-empty [] h = refl
includes-empty (x ∷ xs) h = ground (arith, h x, text_eq_refl x)

includes-pending :
    (n : Node) (r : Text)
    → includes r (subnet_routes_of n).pending ≡ (
        includes r (subnet_routes_of n).advertised
        && not (includes r (subnet_routes_of n).approved))
unfolding subnet_routes_of
includes-pending n r =
    includes-keep-not r (λ s. includes s (subnet_routes_of n).approved)
      (subnet_routes_of n).advertised

includes-stale :
    (n : Node) (r : Text)
    → includes r (subnet_routes_of n).stale ≡ (
        includes r (subnet_routes_of n).approved
        && not (includes r (subnet_routes_of n).advertised))
unfolding subnet_routes_of
includes-stale n r =
    includes-keep-not r (λ s. includes s (subnet_routes_of n).advertised)
      (subnet_routes_of n).approved

-- The routes that a node advertises are those it has approved, the exit node counting as one, and
-- it serves routes only while it is online.
pub record IsQuiet (n : Node) : Type 0 where
  pub routes :
      (r : Text)
      → is_exit_route r ≡ false
      → includes r (or_nil n.available_routes) ≡ includes r (or_nil n.approved_routes)
  pub exit : node_advertises_exit n ≡ node_is_exit_node n
  pub serving : n.online ≡ false → or_nil n.subnet_routes ≡ []

is_empty_list-attention_of :
    (n : Node)
    → is_empty_list (attention_of n)
      ≡ (is_empty_list (pending_routes n) && (is_empty_list (stale_routes n) && not (is_lost n)))
unfolding attention_of
is_empty_list-attention_of n = elim (Bool-cases (is_empty_list (pending_routes n))) [
  | inl a ↦ elim (Bool-cases (is_empty_list (stale_routes n))) [
    | inl b ↦ rw (a, b) (is_empty_list-item_if (is_lost n) _)
    | inr b ↦ rw (a, b) refl
  ]
  | inr a ↦ rw a refl
]

attention_of-IsQuiet : (n : Node) → is_empty_list (attention_of n) ≡ true → IsQuiet n
attention_of-IsQuiet n h =
    let all_empty = is_empty_list-attention_of n in
    let routes = subnet_routes_of n in
    let pending =
      is_empty_list-with_exit routes.pending
        (node_advertises_exit n && not (node_is_exit_node n)) in
    let stale =
      is_empty_list-with_exit routes.stale (node_is_exit_node n && not (node_advertises_exit n)) in
    record {
      routes = λ r e. ground (
        arith,
        includes-pending n r,
        includes-stale n r,
        includes-approved n r,
        includes-advertised n r,
        empty-includes routes.pending r,
        empty-includes routes.stale r,
      );
      exit = ground arith;
      serving = λ e. empty-nil (or_nil n.subnet_routes) (ground arith);
    }

IsQuiet-attention_of : (n : Node) → IsQuiet n → is_empty_list (attention_of n) ≡ true
IsQuiet-attention_of n q =
    let routes = subnet_routes_of n in
    let no_pending = includes-empty routes.pending λ r.
      ground
        (arith, includes-pending n r, includes-approved n r, includes-advertised n r, q.routes r) in
    let no_stale = includes-empty routes.stale λ r.
      ground
        (arith, includes-stale n r, includes-approved n r, includes-advertised n r, q.routes r) in
    let pending =
      is_empty_list-with_exit routes.pending
        (node_advertises_exit n && not (node_is_exit_node n)) in
    let stale =
      is_empty_list-with_exit routes.stale (node_is_exit_node n && not (node_advertises_exit n)) in
    ground (
      arith,
      is_empty_list-attention_of n,
      q.exit,
      ap is_empty_list {x = or_nil n.subnet_routes} {y = []},
    )

is_empty_list-attention : (ns : List Node) → (is_empty_list (attention ns) ≡ true) ↔ All IsQuiet ns
unfolding attention
is_empty_list-attention [] = (λ h. tt, λ h. refl)
is_empty_list-attention (n ∷ ns) =
    let split = is_empty_list-append (attention_of n) (attention ns) in
    let more = is_empty_list-attention ns in
    (
      λ h. (attention_of-IsQuiet n (ground arith), more.0 (ground arith)),
      λ q. ground (arith, IsQuiet-attention_of n q.0, more.1 q.1),
    )

-- Nothing needs attention exactly where each node advertises the routes that it has approved, the
-- exit routes counting as one, and serves routes only while it is online.
pub attention-nil : (ns : List Node) → (attention ns ≡ []) ↔ All IsQuiet ns
attention-nil ns = (
  λ h. (is_empty_list-attention ns).0 (ap is_empty_list h),
  λ q. empty-nil (attention ns) ((is_empty_list-attention ns).1 q),
)
