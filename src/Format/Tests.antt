-- ===== src/Format/Tests.antt =====
-- Relative times at concrete inputs.
use head_control.Common.{true, ◌<◌, ◌≤◌, ◌≡◌, ◌⊎◌}
use head_control.Text.{codes}
use head_control.Format.{relative}
use head_control.Format.Relative.{IsUnits, relative-IsUnits}

relative-IsUnits_example :
    ((5400000 < 30000) × (relative true 5400000 (codes "today") ≡ codes "just now"))
    ⊎ (IsUnits true 5400000 (relative true 5400000 (codes "today")) (codes "min") 60000 1 60 30000
        ⊎ (IsUnits true 5400000
              (relative true 5400000 (codes "today"))
              (codes "h")
              3600000
              1
              48
              1830000
            ⊎ (IsUnits true 5400000
                  (relative true 5400000 (codes "today"))
                  (codes "d")
                  86400000
                  2
                  60
                  45030000
                ⊎ ((5138970000 ≤ 5400000)
                    × (relative true 5400000 (codes "today") ≡ codes "today")))))
relative-IsUnits_example = relative-IsUnits true 5400000 (codes "today")
