-- ===== src/Tests/Lifetime.antt =====
-- A load, a request and a refused unload.
use sedarwin.Prelude.{refl}
use sedarwin.Policy.{
  Kext, loaded, policy_register, sysctl_hooks_handler, accept_hooks, policy_unregister,
}
use sedarwin.Policy.Register.{all_oids}
use sedarwin.Policy.Agreement.{Life, Whole}
use sedarwin.Policy.Lifetime.{Lifetime, Linked, Lifetime-Linked}
use sedarwin.Policy.Spec.{Follows, Shows, view, life-Promised}
use sedarwin.Tests.Setting.{framework, write}

abbrev signals : Kext
signals =
    (sysctl_hooks_handler framework (write 0x1001) (policy_register framework loaded).left).left

abbrev kept : Kext
kept = (policy_unregister framework signals).left

refused : Lifetime kept all_oids
unfolding policy_register sysctl_hooks_handler accept_hooks policy_unregister
refused =
    Lifetime.unloads framework
      (Lifetime.goes_on framework (Lifetime.loads framework refl)
        (Whole.write_hooks (write 0x1001)))
      refl

Lifetime-Linked_example : Linked kept all_oids
Lifetime-Linked_example = Lifetime-Linked refused

abbrev life : Life framework signals
life = Life.goes_on Life.loads (Whole.write_hooks (write 0x1001))

life-Promised_example : Follows life × Shows signals (view signals)
life-Promised_example = life-Promised life
