-- ===== src/Keys/Tests.antt =====
-- The page of keys at concrete inputs.
use head_control.Common.{true, false, [], ◌∷◌, none, some}
use head_control.Text.{codes}
use head_control.Api.{PreAuthKey}
use head_control.Format.{Browser}
use head_control.Keys.{PakState, PakFilters}

abbrev browser : Browser
browser = record {
  now = 5000;
  time_of = λ s. some 9000;
  date_text = λ s. s;
  date_time_text = λ s. s;
  lower_case = λ s. s;
}

-- A reusable key that was used and has not expired.
abbrev key : PreAuthKey
key = record {
  user = none;
  id = codes "3";
  key = none;
  reusable = true;
  ephemeral = false;
  used = true;
  expiration = some (codes "2030-01-01T00:00:00Z");
  created_at = none;
  acl_tags = some (codes "tag:ci" ∷ []);
}

abbrev under : PakState → PakFilters
under s = record { user = []; state = s; only_ephemeral = false; only_tagged = true }
