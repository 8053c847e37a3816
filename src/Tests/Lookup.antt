-- ===== src/Tests/Lookup.antt =====
-- The lookup hook at concrete states, schedules and fuses.
use sedarwin.Prelude.{
  ◌+◌, ◌≤◌, List, [], ◌∷◌, none, some, true, ◌≡◌, refl, arith, ltb, if◌then◌else◌,
}
use sedarwin.Ops.{zeroed, sebsd_vnode_check_lookup}
use sedarwin.Policy.{Kext, loaded}
use sedarwin.Lookup.Fused.{Fused}
use sedarwin.Lookup.Fuse.{Dispatched, Sequence, Aside, lookup_fuse_bound, lookup_fuse_reached}
use sedarwin.Lookup.Steps.{
  Point, load_owner, store_recursed, store_owner, add_depth, clear_slot, advance, Frame, System,
  Moves, Reachable,
}
use sedarwin.Lookup.Inside.{Owned, Reachable-Owned}
use sedarwin.Lookup.Reentry.{WasNested, recursed_evidence}
use sedarwin.Tests.Setting.{kernel, component}

-- Installed, with a fuse of two.
abbrev fresh : Kext
fresh = record loaded {
  lookup_fuse = 2;
  hooks_enabled = 0x10;
  ops = record zeroed { mpo_vnode_check_lookup = some sebsd_vnode_check_lookup };
}

abbrev fused : Fused 2 fresh
fused = record { idle = refl; level = refl; limit = refl; within = omega arith; installed = refl }

abbrev traced : Kext
traced = record fresh { trace_enabled = 1 }

abbrev fused_traced : Fused 2 traced
fused_traced = record {
  idle = refl;
  level = refl;
  limit = refl;
  within = omega arith;
  installed = refl;
}

lookup_fuse_reached_example :
    (u : Kext) × Dispatched 2 fresh u × (u.lookup_count ≡ 2) × (u.ops.mpo_vnode_check_lookup ≡ none)
lookup_fuse_reached_example =
    lookup_fuse_reached 2 kernel (record { at_gate = 1; at_line = 1 }) 0x1000 0 (some component)
      (omega arith) (λ e. omega arith) (omega arith) 2 fresh fused refl

abbrev burned_out :
    (u : Kext) × Dispatched 2 fresh u × (u.lookup_count ≡ 2) × (u.ops.mpo_vnode_check_lookup ≡ none)
burned_out =
    lookup_fuse_reached 2 kernel (record { at_gate = 1; at_line = 1 }) 0x1000 0 (some component)
      (omega arith) (λ e. omega arith) (omega arith) 2 fresh fused refl

-- Before the two calls tracing is turned off.
abbrev sequence : Sequence 2 traced burned_out.0
sequence =
    Sequence.aside {s = traced} (Aside.write_trace 0)
      (Sequence.stretch burned_out.1 (Sequence.finished burned_out.0))

lookup_fuse_bound_example :
    (burned_out.0.lookup_count ≡ traced.lookup_count + 2)
    × (burned_out.0.lookup_count ≤ 2)
    × (burned_out.0.lookup_owner ≡ 0)
    × (burned_out.0.lookup_depth ≡ 0)
    × (burned_out.0.ops.mpo_vnode_check_lookup
        ≡ (if ltb burned_out.0.lookup_count 2 then some sebsd_vnode_check_lookup else none))
lookup_fuse_bound_example = lookup_fuse_bound 2 2 (omega arith) fused_traced sequence

abbrev frame : Point → Frame
frame p = record { thread = 7; point = p }

abbrev system : Kext → List Frame → System
system s fs = record { kext = s; frames = fs }

-- Thread 7 is inside, calls the hook again, and sees it.
abbrev owned : Kext
owned = record fresh { lookup_owner = 7 }

abbrev told : Kext
told = record owned { lookup_recursed = 1 }

entered : Reachable fresh (system owned (frame add_depth ∷ []))
unfolding advance
entered =
    Reachable.moved
      (Reachable.moved (Reachable.moved Reachable.start (Moves.enter fresh [] 7 (λ e. omega arith)))
        (Moves.access fresh [] [] 7 load_owner))
      (Moves.access fresh [] [] 7 store_owner)

again : Reachable fresh (system told (frame (clear_slot true) ∷ frame add_depth ∷ []))
unfolding advance
again =
    Reachable.moved
      (Reachable.moved
        (Reachable.moved entered (Moves.enter owned (frame add_depth ∷ []) 7 (λ e. omega arith)))
        (Moves.access owned [] (frame add_depth ∷ []) 7 load_owner))
      (Moves.access owned [] (frame add_depth ∷ []) 7 store_recursed)

Reachable-Owned_example : Owned (system told (frame (clear_slot true) ∷ frame add_depth ∷ []))
Reachable-Owned_example = Reachable-Owned refl refl again

recursed_evidence_example : WasNested again
recursed_evidence_example = recursed_evidence refl refl refl again (λ e. omega arith)
