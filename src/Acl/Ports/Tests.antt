-- ===== src/Acl/Ports/Tests.antt =====
-- Ports and destinations at concrete inputs.
use head_control.Common.{[], ◌∷◌, ◌≡◌, inr, refl, arith, none}
use head_control.Text.{codes, includes, text_eq, join}
use head_control.Text.Decimal.{number, show}
use head_control.Acl.Ports.{ok, parse_ports, split_dst, join_dst, show_range}
use head_control.Acl.Ports.Spec.{IsSpec}
use head_control.Acl.Ports.Canonical.{parse_ports-IsSpec}
use head_control.Acl.Ports.Dst.{split_dst-join_dst}

split_v6 :
    split_dst (codes "fd7a::1:22")
    ≡ record { selector = codes "fd7a::1"; ports = codes "22"; error = none }
unfolding split_dst number show
split_v6 = refl

web : IsSpec (codes "443,8000-8080")
unfolding show_range show join includes text_eq
web = inr ((443, 443) ∷ (8000, 8080) ∷ [], (cc, omega arith, (refl, (refl, tt))), refl)

ssh : IsSpec (codes "22,443")
unfolding show_range show join includes text_eq
ssh = inr ((22, 22) ∷ (443, 443) ∷ [], (cc, omega arith, (refl, (refl, tt))), refl)

normalized : parse_ports (codes " 443, 8443 ,80-80,1-65535") ≡ ok (codes "443,8443,80,1-65535")
unfolding parse_ports number show
normalized = refl

parse_ports-IsSpec_example : IsSpec (codes "443,8443,80,1-65535")
parse_ports-IsSpec_example = parse_ports-IsSpec (codes " 443, 8443 ,80-80,1-65535") _ normalized

split_dst-join_dst_example :
    split_dst (join_dst (codes "fd7a::1") (codes "443,8000-8080"))
    ≡ record { selector = codes "fd7a::1"; ports = codes "443,8000-8080"; error = none }
split_dst-join_dst_example = split_dst-join_dst (codes "fd7a::1") (codes "443,8000-8080") (cc) web

no_error : (split_dst (codes "tag:web: 443,22")).error ≡ none
unfolding split_dst number show
no_error = refl
