-- ===== src/Tests/Teardown.antt =====
-- Unloads at concrete schedules.
use sedarwin.Prelude.{none, List, [], ◌∷◌, ◌≡◌, refl, arith, nth_bit}
use sedarwin.Ops.Slots.{Hook, slot}
use sedarwin.Ops.Stores.{store, chosen, store_all, statements, lifecycle}
use sedarwin.Policy.{Framework, Kext, loaded, policy_register}
use sedarwin.Policy.Mask.{wanted}
use sedarwin.Threads.Teardown.{IsUnrequested, torn_down}
use sedarwin.Threads.{unloading, clear, unregister, load_registered, unload_access, Moves, Reach}
use sedarwin.Threads.Schedules.{machine}
use sedarwin.Threads.Rearmed.{rearmed, rearmed_lem}
use sedarwin.Tests.Setting.{framework, write}

abbrev live : Kext
live = (policy_register framework loaded).left

-- An unload that nothing interrupts, up to its call of the framework.
abbrev clearing :
    (left : List Hook) (s : Kext)
    → Reach framework live (machine s (unloading (clear left) ∷ []))
    → Reach framework live
        (machine (record s { ops = store_all 0 left s.ops }) (unloading unregister ∷ []))
unfolding unload_access
clearing [] s r = Reach.moved r (Moves.goes s [] [] (unloading (clear [])))
clearing (h ∷ hs) s r =
    clearing hs (record s { ops = store h (chosen 0 h) s.ops })
      (Reach.moved r (Moves.goes s [] [] (unloading (clear (h ∷ hs)))))

clearing-IsUnrequested :
    (left : List Hook) (s : Kext)
    → (r : Reach framework live (machine s (unloading (clear left) ∷ []))) → IsUnrequested r
    → IsUnrequested (clearing left s r)
unfolding clearing unload_access
clearing-IsUnrequested [] s r quiet = (tt, quiet)
clearing-IsUnrequested (h ∷ hs) s r quiet =
    clearing-IsUnrequested hs (record s { ops = store h (chosen 0 h) s.ops })
      (Reach.moved r (Moves.goes s [] [] (unloading (clear (h ∷ hs))))) (tt, quiet)

abbrev leaving : Reach framework live (machine live (unloading (clear statements) ∷ []))
unfolding unload_access policy_register
leaving =
    Reach.moved (Reach.moved Reach.here (Moves.starts live [] (unloading load_registered) refl))
      (Moves.goes live [] [] (unloading load_registered))

torn_down_example :
    ((h : Hook) → slot h (store_all 0 statements live.ops) ≡ none)
    × (lifecycle (store_all 0 statements live.ops) ≡ lifecycle live.ops)
unfolding leaving
torn_down_example =
    torn_down [] [] (clearing statements live leaving)
      (clearing-IsUnrequested statements live leaving (tt, tt))

-- A framework that lets the policy go.
abbrev willing : Framework
willing = record framework { mac_policy_unregister = λ handle. 0 }

rearmed_lem_example :
    Reach willing live (machine (rearmed willing (write 1) live 1) (unloading unregister ∷ []))
    × Reach willing live (machine (record (rearmed willing (write 1) live 1) { registered = 0 }) [])
    × ((h : Hook) → slot h (rearmed willing (write 1) live 1).ops ≡ wanted h 1)
unfolding policy_register nth_bit
rearmed_lem_example =
    rearmed_lem willing (write 1) live 1 refl (λ e. omega arith) (omega arith) refl
      (λ e. omega arith) refl
