-- ===== src/KillSwitch/FailClosed.antt =====
-- apps/broker/src/kill-switch.ts: the kill switch fails closed.
use tabgrant.Common.{
  ◌≡◌, ◌↔◌, refl, String, Bool, true, false, Option, none, some, inl, inr, arith, Bool-cases,
}
use tabgrant.KillSwitch.{
  Process, Place, absent, unopened, present, is_private_regular_file, Status, inactive, active,
  read_kill_switch, assert_kill_switch_disabled, marker, activate_read, activate_kill_switch,
  clear_kill_switch,
}

-- `assertKillSwitchDisabled` resolves exactly when there is nothing at the path.
pub assert_kill_switch_disabled_iff :
    (host : Process) (place : Place)
    → (assert_kill_switch_disabled host place ≡ true) ↔ (place ≡ absent)
unfolding assert_kill_switch_disabled read_kill_switch
assert_kill_switch_disabled_iff host absent = ((λ e. refl), (λ e. refl))
assert_kill_switch_disabled_iff host unopened = ((λ e. absurd (cc)), (λ e. absurd (cc)))
assert_kill_switch_disabled_iff host (present m none) = ((λ e. absurd (cc)), (λ e. absurd (cc)))
assert_kill_switch_disabled_iff host (present m (some at)) = (
  (λ e. elim (Bool-cases (is_private_regular_file host m)) [
    | inl good ↦ absurd (cc (rw (assert_kill_switch_disabled, read_kill_switch, good) at e))
    | inr bad ↦ absurd (cc (rw (assert_kill_switch_disabled, read_kill_switch, bad) at e))
  ]),
  (λ e. absurd (cc)),
)

read-marker :
    (host : Process) (at : String) → read_kill_switch host (marker host at) ≡ some (active at)
unfolding read_kill_switch is_private_regular_file
read-marker host at = ground arith

activate_read-active :
    (host : Process) (at : String) (written : Bool) (place after : Place) (o : Option Status)
    → read_kill_switch host place ≡ o
    → activate_read host at written place o ≡ (after, true)
    → (t : String) × (read_kill_switch host after ≡ some (active t))
activate_read-active host at written place after none is e = absurd (cc)
activate_read-active host at written place after (some (active t)) is e =
    let same : place ≡ after = cc in (t, rw (← same) is)
activate_read-active host at true place after (some inactive) is e =
    let same : marker host at ≡ after = cc in (at, rw (← same) (read-marker host at))
activate_read-active host at false place after (some inactive) is e = absurd (cc)

activated :
    (host : Process) (at : String) (directory_ok written : Bool) (place after : Place)
    → activate_kill_switch host at directory_ok written place ≡ (after, true)
    → (t : String) × (read_kill_switch host after ≡ some (active t))
unfolding activate_kill_switch
activated host at true written place after e =
    activate_read-active host at written place after (read_kill_switch host place) refl e
activated host at false written place after e = absurd (cc)

-- After an activation that resolves, the kill switch reads as active, `assertKillSwitchDisabled` throws, and
-- clearing it, where the removal resolves, leaves nothing at the path and says so.
pub activate_kill_switch-stops :
    (host : Process) (at : String) (directory_ok written : Bool) (place after : Place)
    → activate_kill_switch host at directory_ok written place ≡ (after, true)
    → ((t : String) × (read_kill_switch host after ≡ some (active t)))
      × ((assert_kill_switch_disabled host after ≡ false)
          × (clear_kill_switch host true after ≡ (absent, some true)))
unfolding assert_kill_switch_disabled clear_kill_switch
activate_kill_switch-stops host at directory_ok written place after e =
    let (t, is) = activated host at directory_ok written place after e in
    ((t, is), (rw (assert_kill_switch_disabled, is) refl, rw (clear_kill_switch, is) refl))
