-- ===== src/Tests/Policy.antt =====
-- The entry points of the policy at concrete states.
use sedarwin.Prelude.{false, some, ◌≡◌, refl, arith, nth_bit}
use sedarwin.Ops.{sebsd_vnode_check_lookup, install_hooks, install_lifecycle}
use sedarwin.Ops.Slots.{Hook, slot}
use sedarwin.Policy.{
  Kext, loaded, sysctl_hooks_handler, accept_hooks, policy_register, policy_unregister,
}
use sedarwin.Policy.Mask.{Verdict, IsConsistent, wanted, sysctl_hooks_handler-Verdict}
use sedarwin.Policy.Agreement.{Life, Whole, life-IsConsistent, Stripped, policy_unregister-Stripped}
use sedarwin.Policy.Quarantine.{Step, Run}
use sedarwin.Policy.Register.{Registers, Unregisters, entry_points_lem}
use sedarwin.Abi.{mpo_vnode_check_lookup}
use sedarwin.Abi.Types.{prototype, member_type}
use sedarwin.Policy.Typed.{run-IsTyped}
use sedarwin.Policy.Race.{raced, raced_lem}
use sedarwin.Tests.Setting.{framework, write}

sysctl_hooks_handler-Verdict_example :
    Verdict framework 0x11 loaded (sysctl_hooks_handler framework (write 0x11) loaded)
sysctl_hooks_handler-Verdict_example =
    sysctl_hooks_handler-Verdict framework (write 0x11) loaded 0x11 refl (λ e. omega arith)
      (omega arith)

abbrev live : Kext
live = (policy_register framework loaded).left

abbrev signals : Kext
signals = (sysctl_hooks_handler framework (write 0x1001) live).left

abbrev life : Life framework signals
life = Life.goes_on Life.loads (Whole.write_hooks (write 0x1001))

life-IsConsistent_example :
    slot Hook.proc_check_signal signals.ops ≡ wanted Hook.proc_check_signal signals.hooks_enabled
life-IsConsistent_example = life-IsConsistent life Hook.proc_check_signal

abbrev unlocked : Kext
unlocked = record live { unsafe_enabled = 1 }

abbrev armed : Kext
armed = (sysctl_hooks_handler framework (write 0x10) unlocked).left

abbrev arming : Run framework live armed
arming =
    Run.then_step (Run.then_step Run.begun (Step.write_unsafe 1)) (Step.write_hooks (write 0x10))

run-IsTyped_example : prototype sebsd_vnode_check_lookup ≡ member_type mpo_vnode_check_lookup
unfolding policy_register sysctl_hooks_handler accept_hooks install_hooks install_lifecycle
run-IsTyped_example = run-IsTyped arming mpo_vnode_check_lookup

entry_points_lem_example :
    Registers framework signals (policy_register framework signals)
    × Unregisters framework signals (policy_unregister framework signals)
entry_points_lem_example = entry_points_lem framework signals

policy_unregister-Stripped_example :
    Stripped framework signals (policy_unregister framework signals)
unfolding policy_register sysctl_hooks_handler accept_hooks install_hooks install_lifecycle
policy_unregister-Stripped_example =
    policy_unregister-Stripped framework signals (λ e. omega arith) (λ e. omega arith)

abbrev race : Kext
race = raced framework (write 0x10) 7 false unlocked

raced_lem_example :
    (race.ops.mpo_vnode_check_lookup ≡ some sebsd_vnode_check_lookup)
    × (nth_bit 4 race.hooks_enabled ≡ 0)
    × (¬ IsConsistent race)
unfolding policy_register nth_bit
raced_lem_example =
    raced_lem framework (write 0x10) 7 false unlocked 0x10 refl (λ e. omega arith) (omega arith)
      refl (λ e. omega arith)
