-- ===== src/Keys.antt =====
-- The page of keys, frontend/src/pages/KeysPage.tsx: the filters of the pre-auth keys.
mod States
mod Lockout
mod Tests
use head_control.Common.{
  [], Bool, true, false, not, ◌&&◌, ◌||◌, List, Option, none, some, keep, if◌then◌else◌,
}
use head_control.Text.{Text, text_eq}
use head_control.Api.{PreAuthKey}
use head_control.Format.{Browser, is_expired, or_nil}
use head_control.Machines.{is_empty_list}

pub data PakState : Type 0 where
  all : PakState
  active : PakState
  used : PakState
  expired : PakState

unfoldable pub pak_matches_state : Browser → PreAuthKey → PakState → Bool
unfolding is_expired
pak_matches_state b k all = true
pak_matches_state b k expired = is_expired b k.expiration
pak_matches_state b k used = k.used
pak_matches_state b k active = not (is_expired b k.expiration) && (k.reusable || not k.used)

-- The filters of the page.
pub record PakFilters : Type 0 where
  pub user : Text
  pub state : PakState
  pub only_ephemeral : Bool
  pub only_tagged : Bool

abbrev is_of_user : Text → PreAuthKey → Bool
is_of_user id k = elim k.user [ none ↦ false | some u ↦ text_eq u.id id ]

unfoldable pub is_shown : Browser → PakFilters → PreAuthKey → Bool
unfolding text_eq pak_matches_state
is_shown b f k =
    (text_eq f.user [] || is_of_user f.user k)
    && (pak_matches_state b k f.state
        && ((not f.only_ephemeral || k.ephemeral)
            && (not f.only_tagged || not (is_empty_list (or_nil k.acl_tags)))))

unfoldable pub filtered : Browser → PakFilters → List PreAuthKey → List PreAuthKey
unfolding keep is_shown
filtered b f keys = keep (is_shown b f) keys
