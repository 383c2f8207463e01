-- ===== src/KillSwitch/Tests.antt =====
-- A kill switch of apps/broker/src/kill-switch.ts that is activated, and the theorems at it.
use tabgrant.Common.{◌≡◌, ◌↔◌, refl, String, true, false, some}
use tabgrant.KillSwitch.{
  Process, absent, unopened, active, read_kill_switch, assert_kill_switch_disabled, marker,
  activate_kill_switch, clear_kill_switch,
}
use tabgrant.KillSwitch.FailClosed.{assert_kill_switch_disabled_iff, activate_kill_switch-stops}

abbrev linux : Process
linux = record { is_windows = false; user = 501 }

activated_lem : activate_kill_switch linux "now" true true absent ≡ (marker linux "now", true)
unfolding activate_kill_switch read_kill_switch
activated_lem = refl

activate_kill_switch-stops_example :
    ((t : String) × (read_kill_switch linux (marker linux "now") ≡ some (active t)))
    × ((assert_kill_switch_disabled linux (marker linux "now") ≡ false)
        × (clear_kill_switch linux true (marker linux "now") ≡ (absent, some true)))
activate_kill_switch-stops_example =
    activate_kill_switch-stops linux "now" true true absent (marker linux "now") activated_lem

assert_kill_switch_disabled_iff_example :
    (assert_kill_switch_disabled linux unopened ≡ true) ↔ (unopened ≡ absent)
assert_kill_switch_disabled_iff_example = assert_kill_switch_disabled_iff linux unopened
