-- ===== src/KillSwitch.antt =====
-- apps/broker/src/kill-switch.ts: a marker file that disables the broker. The file system is the state of one
-- path. On Windows neither owners nor modes are compared.
pub mod FailClosed
mod Tests
use Prim.Native.String
use tabgrant.Common.{
  ℕ, ◌%◌, String, Bool, true, false, not, ◌&&◌, ◌||◌, Option, none, some, ◌==◌, if◌then◌else◌,
}

-- The process: whether it runs on Windows, and its user.
pub record Process : Type 0 where
  pub is_windows : Bool
  pub user : ℕ

-- What `stat` says.
pub record Metadata : Type 0 where
  pub is_file : Bool
  pub mode : ℕ
  pub uid : ℕ

-- The path: nothing there, not to be opened (a link, or no right), or a file and its marker's `activatedAt`,
-- which is `none` where JSON or the schema refuses the content.
pub data Place : Type 0 where
  absent : Place
  unopened : Place
  present : Metadata → Option String → Place

-- `assertOwnedByCurrentUser`
abbrev pub is_owned : Process → ℕ → Bool
is_owned host uid = host.is_windows || uid == host.user

-- `(metadata.mode & 0o077) === 0`
abbrev pub is_private : ℕ → Bool
is_private mode = mode % 64 == 0

-- `assertPrivateRegularFile`
unfoldable pub is_private_regular_file : Process → Metadata → Bool
is_private_regular_file host m =
    m.is_file && is_owned host m.uid && (host.is_windows || is_private m.mode)

pub data Status : Type 0 where
  inactive : Status
  active : String → Status

-- `readKillSwitch`: `none` is an exception.
unfoldable pub read_kill_switch : Process → Place → Option Status
unfolding is_private_regular_file
read_kill_switch host absent = some inactive
read_kill_switch host unopened = none
read_kill_switch host (present m none) = none
read_kill_switch host (present m (some at)) =
    if is_private_regular_file host m then some (active at) else none

abbrev pub is_inactive : Option Status → Bool
is_inactive none = false
is_inactive (some inactive) = true
is_inactive (some (active at)) = false

-- `assertKillSwitchDisabled`: false is an exception.
unfoldable pub assert_kill_switch_disabled : Process → Place → Bool
unfolding read_kill_switch
assert_kill_switch_disabled host place = is_inactive (read_kill_switch host place)

-- The file that `activateKillSwitch` renames to the path: its own, of mode 0600.
abbrev pub marker : Process → String → Place
marker host at = present (record { is_file = true; mode = 384; uid = host.user }) (some at)

abbrev pub activate_read : Process → String → Bool → Place → Option Status → Place × Bool
activate_read host at written place none = (place, false)
activate_read host at written place (some (active t)) = (place, true)
activate_read host at written place (some inactive) =
    if written then (marker host at, true) else (place, false)

-- `activateKillSwitch`: the path after it, and whether it resolves. `directory_ok` is `ensurePrivateDirectory`,
-- and `written` whether the temporary file is written and renamed.
unfoldable pub activate_kill_switch : Process → String → Bool → Bool → Place → Place × Bool
unfolding read_kill_switch
activate_kill_switch host at directory_ok written place =
    if directory_ok
    then activate_read host at written place (read_kill_switch host place)
    else (place, false)

abbrev pub clear_read : Bool → Place → Option Status → Place × Option Bool
clear_read unlinked place none = (place, none)
clear_read unlinked place (some inactive) = (place, some false)
clear_read unlinked place (some (active t)) =
    if unlinked then (absent, some true) else (place, none)

-- `clearKillSwitch`: the path after it, and what was cleared; `unlinked` is whether `unlink` resolves.
unfoldable pub clear_kill_switch : Process → Bool → Place → Place × Option Bool
unfolding read_kill_switch
clear_kill_switch host unlinked place = clear_read unlinked place (read_kill_switch host place)
