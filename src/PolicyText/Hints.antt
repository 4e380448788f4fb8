-- ===== src/PolicyText/Hints.antt =====
-- The hints on the text of a policy: `contentHints` of frontend/src/pages/AclPage.tsx, whose
-- regular expressions are searches for a literal and what follows it.
use head_control.Common.{
  not, List, true, ℕ, length, Bool, false, ◌&&◌, ◌||◌, [], ◌∷◌, ◌++◌, ◌==◌, if◌then◌else◌,
}
use Prim.Native.String.{String}
use head_control.Text.{Text, codes, starts_with, contains, trim_start, drop}

pub data Level : Type 0 where
  warn info : Level

pub record Hint : Type 0 where
  pub level : Level
  pub text : Text

-- `p` after the literal `s`, at any place of the text
unfoldable pub follows : (Text → Bool) → Text → Text → Bool
unfolding starts_with drop
follows p s [] = starts_with [] s && p []
follows p s (c ∷ t) = (starts_with (c ∷ t) s && p (drop (length s) (c ∷ t))) || follows p s t

abbrev first_unit : ℕ → (Text → Bool) → Text → Bool
first_unit c p [] = false
first_unit c p (d ∷ t) = d == c && p t

-- `\s*`, the unit `c`, and what follows
unfoldable pub after_unit : ℕ → (Text → Bool) → Text → Bool
unfolding trim_start
after_unit c p s = first_unit c p (trim_start s)

-- The units before the first `]`.
unfoldable pub to_bracket : Text → Text
to_bracket [] = []
to_bracket (c ∷ t) = let rest = to_bracket t in if c == b']' then [] else c ∷ rest

-- `"key"\s*:\s*\[[^\]]*"\*"`
unfoldable pub lists_wildcard : Text → Text → Bool
unfolding follows after_unit to_bracket contains
lists_wildcard key =
    follows (after_unit b':' (after_unit b'[' (λ t. contains (to_bracket t) (codes "\"*\""))))
      (b'"' ∷ (key ++ codes "\""))

-- `"key"\s*:`
unfoldable pub has_section : Text → Text → Bool
unfolding follows after_unit
has_section key = follows (after_unit b':' (λ t. true)) (b'"' ∷ (key ++ codes "\""))

abbrev hint_if : Bool → Level → String → List Hint
hint_if b level s = if b then record { level = level; text = codes s } ∷ [] else []

abbrev section_hint : Text → Text → List Hint
section_hint key doc =
    if has_section key doc
    then record {
      level = warn;
      text =
          b'"' ∷ (key ++ codes "\" is a Tailscale-only feature — headscale does not support it.");
    }
      ∷ []
    else []

-- `"proto"\s*:\s*"icmp"`
unfoldable pub has_icmp : Text → Bool
unfolding follows after_unit trim_start starts_with
has_icmp =
    follows (after_unit b':' (λ t. starts_with (trim_start t) (codes "\"icmp\"")))
      (codes "\"proto\"")

unfoldable pub content_hints : Text → List Hint
unfolding lists_wildcard has_section has_icmp
content_hints doc =
    hint_if (lists_wildcard (codes "src") doc) warn
      "Since headscale 0.29, \"*\" matches only tailnet addresses (CGNAT + ULA). Use \"autogroup:danger-all\" (source-only) to match ALL IPs."
    ++ (hint_if (has_icmp doc) warn
          "\"proto\": \"icmp\" matches ICMPv4 only since 0.29 — add a second rule with \"proto\": \"ipv6-icmp\" for IPv6."
        ++ (hint_if (has_section (codes "ssh") doc && lists_wildcard (codes "dst") doc) warn
              "SSH rules reject the wildcard destination since 0.28 — use autogroup:member / autogroup:tagged."
            ++ (section_hint (codes "postures") doc
                ++ (section_hint (codes "srcPosture") doc
                    ++ (section_hint (codes "ipsets") doc
                        ++ hint_if
                            (has_section (codes "acls") doc
                              && not (has_section (codes "grants") doc))
                            info
                            "headscale marks \"acls\" as legacy — \"grants\" (with ip/app/via, added in 0.29) is recommended for new policies.")))))
