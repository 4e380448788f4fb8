-- ===== src/Format.antt =====
-- The helpers of the pages, frontend/src/lib/format.ts. The clock, the parser of dates and their
-- printing belong to the browser and are parameters; a time is a number of milliseconds since the
-- earliest date that JavaScript represents, so that it is never negative.
mod Relative
mod Tests
use head_control.Common.{
  ℕ, ◌+◌, ◌-◌, ◌*◌, ◌/◌, Bool, true, false, not, ◌&&◌, List, [], ◌∷◌, ◌++◌, Option, none, some,
  keep, any, ltb, leb, if◌then◌else◌,
}
use head_control.Text.{Text, codes, includes}
use head_control.Text.Decimal.{show}
use head_control.Api.{User, Node}
use head_control.Acl.Selector.{truthy}

-- What the browser answers: the time now, what `new Date(iso).getTime()` is (`none` is NaN), and
-- how a date is printed.
pub record Browser : Type 0 where
  pub now : ℕ
  pub time_of : Text → Option ℕ
  pub date_text : Text → Text
  pub date_time_text : Text → Text
  pub lower_case : Text → Text

-- `Math.round(n / d)` for numbers that are not negative: halves go up.
abbrev pub rounded : ℕ → ℕ → ℕ
rounded n d = (2 * n + d) / (2 * d)

abbrev pub suffix : Bool → Text
suffix past = if past then codes "ago" else codes "from now"

-- A number, a unit and the direction.
abbrev pub ago : ℕ → Text → Bool → Text
ago n unit past = show n ++ (codes " " ++ (unit ++ (codes " " ++ suffix past)))

-- The text for a difference that is at least 0 where `past` holds, with the date for a long one.
unfoldable pub relative : Bool → ℕ → Text → Text
relative past diff date =
    let mins = rounded diff 60000 in
    let hours = rounded mins 60 in
    let days = rounded hours 24 in
    if ltb mins 1
    then if past then codes "just now" else codes "in <1 min"
    else if ltb mins 60
    then ago mins (codes "min") past
    else if ltb hours 48
    then ago hours (codes "h") past
    else if ltb days 60
    then ago days (codes "d") past
    else date

unfoldable pub relative_time : Browser → Option Text → Text
unfolding relative
relative_time b iso = elim (truthy iso) [
  | none ↦ codes "never"
  | some i ↦ elim (b.time_of i) [
    | none ↦ i
    | some then_ ↦
        if leb then_ b.now
        then relative true (b.now - then_) (b.date_text i)
        else relative false (then_ - b.now) (b.date_text i)
  ]
]

unfoldable pub absolute_time : Browser → Option Text → Text
absolute_time b iso = elim (truthy iso) [
  | none ↦ codes "—"
  | some i ↦ elim (b.time_of i) [ none ↦ i | some t ↦ b.date_time_text i ]
]

-- A comparison with NaN is false.
unfoldable pub is_expired : Browser → Option Text → Bool
is_expired b iso = elim (truthy iso) [
  | none ↦ false
  | some i ↦ elim (b.time_of i) [ none ↦ false | some t ↦ ltb t b.now ]
]

unfoldable pub expires_within : Browser → Option Text → ℕ → Bool
expires_within b iso ms = elim (truthy iso) [
  | none ↦ false
  | some i ↦ elim (b.time_of i) [ none ↦ false | some t ↦ ltb b.now t && ltb t (b.now + ms) ]
]

abbrev pub day : ℕ
day = 24 * 60 * 60 * 1000

abbrev pub first_of : List (Option Text) → Text → Text
first_of [] s = s
first_of (o ∷ os) s = elim (truthy o) [ some t ↦ t | none ↦ first_of os s ]

unfoldable pub user_label : Option User → Text
user_label none = codes "—"
user_label (some u) =
    first_of (some u.name ∷ u.display_name ∷ u.email ∷ u.provider_id ∷ []) (codes "unnamed")

abbrev pub exit_routes : List Text
exit_routes = codes "0.0.0.0/0" ∷ codes "::/0" ∷ []

unfoldable pub is_exit_route : Text → Bool
unfolding includes
is_exit_route r = includes r exit_routes

-- `xs ?? []`
abbrev pub or_nil {ℓ} : {A : Type ℓ} → Option (List A) → List A
or_nil none = []
or_nil (some xs) = xs

unfoldable pub node_is_exit_node : Node → Bool
unfolding any is_exit_route
node_is_exit_node n = any is_exit_route (or_nil n.approved_routes)

unfoldable pub node_advertises_exit : Node → Bool
unfolding any is_exit_route
node_advertises_exit n = any is_exit_route (or_nil n.available_routes)

pub record SubnetRoutes : Type 0 where
  pub advertised : List Text
  pub approved : List Text
  pub pending : List Text
  pub stale : List Text

unfoldable pub subnet_routes_of : Node → SubnetRoutes
unfolding keep includes is_exit_route
subnet_routes_of n =
    let advertised = keep (λ r. not (is_exit_route r)) (or_nil n.available_routes) in
    let approved = keep (λ r. not (is_exit_route r)) (or_nil n.approved_routes) in
    record {
      advertised = advertised;
      approved = approved;
      pending = keep (λ r. not (includes r approved)) advertised;
      stale = keep (λ r. not (includes r advertised)) approved;
    }
