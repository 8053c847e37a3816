-- ===== src/Tests/Threads.antt =====
-- Calls that overlap, at concrete schedules.
use sedarwin.Prelude.{
  none, bit_and, List, drop, true, ◌*◌, ◌-◌, ◌≤◌, [], ◌∷◌, some, ◌≡◌, refl, arith, nth_bit,
}
use sedarwin.Ops.{install_hooks, install_lifecycle}
use sedarwin.Ops.Slots.{Hook, slot}
use sedarwin.Ops.Stores.{store, chosen, store_all, statements}
use sedarwin.Hooks.{signal}
use sedarwin.Policy.{
  Kext, Request, loaded, policy_register, policy_unregister, sysctl_hooks_handler,
}
use sedarwin.Policy.Mask.{IsConsistent, wanted}
use sedarwin.Dispatch.{Ask, event}
use sedarwin.Lookup.Steps.{load_owner, store_recursed, clear_slot, load_mask, store_mask, advance}
use sedarwin.Policy.Mask.{policy_register-IsConsistent}
use sedarwin.Threads.Serial.{serial_writers}
use sedarwin.Threads.Ends.{calls, accesses, Ends, calls_end}
use sedarwin.Threads.{
  looking, load_hooks, load_unsafe, store_hooks, install, load_registered, handling, Stores, judge,
  handle_access, unload_access, Moves, Reach,
}
use sedarwin.Threads.Alone.{finish, handler_alone, unloader_alone}
use sedarwin.Threads.Dispatched.{Granted, reach-Granted}
use sedarwin.Threads.Quarantine.{WasUnlocked, quarantined}
use sedarwin.Threads.Steady.{at_bit, steady}
use sedarwin.Threads.Schedules.{machine}
use sedarwin.Threads.Writers.{overtaken, writers_race}
use sedarwin.Tests.Dispatch.{dispatcher, read_and_call}
use sedarwin.Tests.Setting.{kernel, framework, write}

-- A request and an unload, access by access, are the functions as one step.
request_alone :
    finish (handle_access framework (write 0x11)) 25 load_hooks loaded
    ≡ some (sysctl_hooks_handler framework (write 0x11) loaded)
request_alone = handler_alone framework (write 0x11) loaded

unload_alone :
    finish (unload_access framework) 25 load_registered loaded
    ≡ some (policy_unregister framework loaded)
unload_alone = unloader_alone framework loaded

abbrev live : Kext
live = (policy_register framework loaded).left

writers_race_example :
    Reach framework live (machine (overtaken framework (write 1) (write 0x1000) live 1 0x1000) [])
    × ((overtaken framework (write 1) (write 0x1000) live 1 0x1000).hooks_enabled ≡ 0x1000)
    × ((g : Hook)
        → slot g (overtaken framework (write 1) (write 0x1000) live 1 0x1000).ops ≡ wanted g 1)
    × (¬ IsConsistent (overtaken framework (write 1) (write 0x1000) live 1 0x1000))
unfolding nth_bit
writers_race_example =
    writers_race framework (write 1) (write 0x1000) live 1 0x1000 refl refl (λ e. omega arith)
      (λ e. omega arith) (omega arith) (omega arith) refl refl Hook.vnode_check_open
      (λ e. omega arith)

-- With the second key, a request for the quarantined hook, up to its store.
abbrev unlocked : Kext
unlocked = record live { unsafe_enabled = 1 }

abbrev request : Request
request = write 0x10

abbrev ready : Kext
ready = record unlocked { hooks_enabled = 0x10 }

abbrev prepared :
    Reach framework live (machine ready (handling request (install 0x10 statements) ∷ []))
unfolding judge handle_access
prepared =
    Reach.moved
      (Reach.moved
        (Reach.moved
          (Reach.moved
            (Reach.moved Reach.here (Moves.stores live unlocked [] (Stores.write_unsafe 1)))
            (Moves.starts unlocked [] (handling request load_hooks) refl))
          (Moves.goes unlocked [] [] (handling request load_hooks)))
        (Moves.goes unlocked [] [] (handling request (load_unsafe 0x10))))
      (Moves.goes unlocked [] [] (handling request (store_hooks 0x10)))

abbrev stepped :
    (h : Hook) (hs : List Hook) (s : Kext)
    → Reach framework live (machine s (handling request (install 0x10 (h ∷ hs)) ∷ []))
    → Reach framework live (
        machine
          (record s { ops = store h (chosen 0x10 h) s.ops })
          (handling request (install 0x10 hs) ∷ []))
unfolding handle_access
stepped h hs s r = Reach.moved r (Moves.goes s [] [] (handling request (install 0x10 (h ∷ hs))))

abbrev stepped_5 :
    (a b c d e : Hook) (hs : List Hook) (s : Kext)
    → Reach framework live
        (machine s (handling request (install 0x10 (a ∷ b ∷ c ∷ d ∷ e ∷ hs)) ∷ []))
    → Reach framework live (
        machine
          (record s { ops = store_all 0x10 (a ∷ b ∷ c ∷ d ∷ e ∷ []) s.ops })
          (handling request (install 0x10 hs) ∷ []))
stepped_5 a b c d e hs s r =
    stepped e hs _
      (stepped d _ _ (stepped c _ _ (stepped b _ _ (stepped a (b ∷ c ∷ d ∷ e ∷ hs) s r))))

abbrev first_five : List Hook
first_five =
    Hook.vnode_check_open ∷ Hook.vnode_check_create ∷ Hook.vnode_check_unlink
    ∷ Hook.vnode_check_rename ∷ Hook.vnode_check_lookup ∷ []

abbrev others : List Hook
others = drop 5 statements

-- The fifth store fills the slot of the quarantined hook.
abbrev filled : Kext
filled = record ready { ops = store_all 0x10 first_five ready.ops }

abbrev filling : Reach framework live (machine filled (handling request (install 0x10 others) ∷ []))
filling =
    stepped_5 Hook.vnode_check_open Hook.vnode_check_create Hook.vnode_check_unlink
      Hook.vnode_check_rename Hook.vnode_check_lookup others ready prepared

quarantined_example : WasUnlocked filling
unfolding policy_register install_hooks install_lifecycle
quarantined_example = quarantined refl filling (λ e. cc e)

steady_example : slot Hook.proc_check_signal filled.ops ≡ at_bit Hook.proc_check_signal 0
unfolding policy_register install_hooks install_lifecycle nth_bit stepped prepared
steady_example =
    steady Hook.proc_check_signal 0 refl filling
      (refl, (refl, (refl, (refl, (refl, (tt, (tt, (tt, tt))))))))

-- A signal while the change is half done.
abbrev kill : Ask
kill = event (signal 2 (some 5) (some 6) 9)

reach-Granted_example : Granted kernel filled kill (read_and_call filled kill)
reach-Granted_example = reach-Granted dispatcher filling kill tt

calls_end_example :
    (accesses filling ≤ 25 * calls filling)
    × Ends framework
        (machine filled (handling request (install 0x10 others) ∷ []))
        (25 * calls filling - accesses filling)
calls_end_example = calls_end filling

-- The lookup hook is installed, and thread 7 is inside already.
abbrev entered : Kext
entered =
    (policy_register framework (record loaded { hooks_enabled = 0x11; lookup_owner = 7 })).left

abbrev noted : Kext
noted = record entered { lookup_recursed = 1 }

abbrev emptied : Kext
emptied = record noted { ops = record noted.ops { mpo_vnode_check_lookup = none } }

abbrev blown : Kext
blown = record emptied { hooks_enabled = bit_and emptied.hooks_enabled 0xffff_ffef }

-- It takes the hook out and returns.
abbrev blowing : Reach framework entered (machine blown [])
unfolding advance policy_register
blowing =
    Reach.moved
      (Reach.moved
        (Reach.moved
          (Reach.moved
            (Reach.moved
              (Reach.moved Reach.here (Moves.starts entered [] (looking 7 load_owner) refl))
              (Moves.goes entered [] [] (looking 7 load_owner)))
            (Moves.goes entered [] [] (looking 7 store_recursed)))
          (Moves.goes noted [] [] (looking 7 (clear_slot true))))
        (Moves.goes emptied [] [] (looking 7 (load_mask true))))
      (Moves.goes emptied [] []
        (looking 7 (store_mask true (bit_and emptied.hooks_enabled 0xffff_ffef))))

serial_writers_example : IsConsistent blown
unfolding blowing advance policy_register
serial_writers_example =
    serial_writers
      (policy_register-IsConsistent framework
        (record loaded { hooks_enabled = 0x11; lookup_owner = 7 }))
      blowing
      (
        omega arith,
        tt,
        (
          omega arith,
          tt,
          (omega arith, tt, (omega arith, tt, (omega arith, tt, (omega arith, tt, tt)))),
        ),
      )
      refl
