-- ===== src/Tests/Interleavings.antt =====
-- Interleavings of the lookup hook at concrete schedules.
use sedarwin.Prelude.{
  ◌+◌, ◌<◌, ◌≤◌, max, [], ◌∷◌, none, some, ◌≢◌, true, false, ◌≡◌, ◌⊎◌, refl, arith,
}
use sedarwin.Ops.{zeroed, sebsd_vnode_check_lookup}
use sedarwin.Policy.{Kext, loaded}
use sedarwin.Lookup.Steps.{
  Point, load_owner, store_owner, add_depth, load_maxdepth, store_maxdepth, add_count, load_trace,
  advance, System, Moves, Reachable,
}
use sedarwin.Lookup.Frames.{any_at}
use sedarwin.Lookup.Spent.{IsOut, burning, fuse_spent}
use sedarwin.Lookup.Peak.{peak, maxdepth_bound}
use sedarwin.Lookup.Overshoot.{piled, pile, Filled, overshoot}
use sedarwin.Lookup.Crowd.{most}
use sedarwin.Lookup.Window.{dispatch_bound}
use sedarwin.Lookup.LostPeak.{vars, may_store, lost_peak}

-- Installed, with a fuse of one.
abbrev fresh : Kext
fresh = record loaded {
  lookup_fuse = 1;
  hooks_enabled = 0x10;
  ops = record zeroed { mpo_vnode_check_lookup = some sebsd_vnode_check_lookup };
}

abbrev system : Kext → Point → System
system s p = record { kext = s; frames = record { thread = 7; point = p } ∷ [] }

-- Thread 7 has counted its call, which reaches the fuse.
abbrev counted : Kext
counted = record fresh { lookup_owner = 7; lookup_depth = 1; lookup_maxdepth = 1; lookup_count = 1 }

measured : Reachable fresh (system (vars fresh 7 1 1) add_count)
unfolding advance
measured =
    Reachable.moved
      (Reachable.moved
        (Reachable.moved
          (Reachable.moved
            (Reachable.moved
              (Reachable.moved Reachable.start (Moves.enter fresh [] 7 (λ e. omega arith)))
              (Moves.access fresh [] [] 7 load_owner))
            (Moves.access fresh [] [] 7 store_owner))
          (Moves.access (vars fresh 7 0 0) [] [] 7 add_depth))
        (Moves.access (vars fresh 7 1 0) [] [] 7 (load_maxdepth 1)))
      (Moves.access (vars fresh 7 1 0) [] [] 7 (store_maxdepth 1))

reached : Reachable fresh (system counted (load_trace 1))
unfolding advance
reached = Reachable.moved measured (Moves.access (vars fresh 7 1 1) [] [] 7 add_count)

fuse_spent_example :
    (IsOut counted) ⊎ (any_at (burning 1) (system counted (load_trace 1)).frames ≡ true)
fuse_spent_example = fuse_spent refl reached refl

maxdepth_bound_example : 1 ≤ max 0 (peak reached)
maxdepth_bound_example = maxdepth_bound refl refl reached

lost_peak_example :
    (x : System) × (r : Reachable (vars fresh 0 0 0) x) × (peak r ≡ 2)
    × (x.kext.lookup_maxdepth ≡ 1)
    × (any_at may_store x.frames ≡ false)
lost_peak_example = lost_peak fresh 7 8 (λ e. omega arith) (λ e. omega arith) (λ e. omega arith)

is_in : fresh.ops.mpo_vnode_check_lookup ≢ none
is_in e = cc e

-- With a fuse of one, three threads are dispatched.
abbrev crowd : Filled (piled fresh 0) 3 (record { kext = piled fresh 3; frames = pile 3 })
crowd = overshoot fresh 3 (omega arith) is_in

dispatch_bound_example : 3 < 1 + most crowd.run
dispatch_bound_example = dispatch_bound (omega arith) (omega arith) crowd.run crowd.dispatched

overshoot_example : Filled (piled fresh 0) 3 (record { kext = piled fresh 3; frames = pile 3 })
overshoot_example = overshoot fresh 3 (omega arith) is_in
