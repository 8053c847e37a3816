-- ===== src/Lookup/Crowd.antt =====
-- The calls of the lookup hook of kext/vnode.c that are on the way together: those that have still
-- to count themselves, and those that are about to take the hook out.
use sedarwin.Prelude.{ℕ, ◌+◌, ◌≤◌, max, List, [], ◌∷◌, none, ◌≢◌, leb, arith, if◌then◌else◌}
use sedarwin.Policy.{Kext}
use sedarwin.Lookup.{burned}
use sedarwin.Lookup.Steps.{
  Point, load_owner, store_recursed, store_owner, add_depth, load_maxdepth, store_maxdepth,
  add_count, load_trace, load_line, load_fuse, load_fuse_again, clear_slot, load_mask, store_mask,
  sub_depth, clear_owner, Frame, System, Moves, Reachable,
}
use sedarwin.Lookup.Frames.{total_at}

-- A call that has not yet counted itself, and may do so.
abbrev pub uncounted : Point → ℕ
uncounted load_owner = 1
uncounted store_owner = 1
uncounted add_depth = 1
uncounted (load_maxdepth d) = 1
uncounted (store_maxdepth d) = 1
uncounted add_count = 1
uncounted _ = 0

-- A call that is about to clear the slot.
abbrev pub clearing : ℕ → Point → ℕ
clearing fuse (load_trace n) = if burned fuse n then 1 else 0
clearing fuse (load_line n) = if burned fuse n then 1 else 0
clearing fuse (load_fuse n) = if burned fuse n then 1 else 0
clearing fuse (load_fuse_again n) = if leb fuse n then 1 else 0
clearing fuse (clear_slot reentered) = 1
clearing fuse _ = 0

abbrev pub one : Point → ℕ
one p = 1

-- The most calls that were on the way at once.
abbrev pub most : {s : Kext} {a : System} → Reachable s a → ℕ
most Reachable.start = 0
most (Reachable.moved {a} {b} r m) = max (most r) (total_at one b.frames)

-- The framework read the hook in its member of the vector whenever it was called.
abbrev pub AreDispatched : {s : Kext} {a : System} → Reachable s a → Type 0
AreDispatched Reachable.start = Unit {0}
AreDispatched (Reachable.moved r (Moves.enter s fs self other)) =
    (s.ops.mpo_vnode_check_lookup ≢ none) × AreDispatched r
AreDispatched (Reachable.moved r (Moves.access s xs ys self p)) = AreDispatched r

at_most_one : (fuse : ℕ) (p : Point) → uncounted p + clearing fuse p ≤ 1
at_most_one fuse load_owner = omega arith
at_most_one fuse store_recursed = omega arith
at_most_one fuse store_owner = omega arith
at_most_one fuse add_depth = omega arith
at_most_one fuse (load_maxdepth d) = omega arith
at_most_one fuse (store_maxdepth d) = omega arith
at_most_one fuse add_count = omega arith
at_most_one fuse (load_trace n) = ground arith
at_most_one fuse (load_line n) = ground arith
at_most_one fuse (load_fuse n) = ground arith
at_most_one fuse (load_fuse_again n) = ground arith
at_most_one fuse (clear_slot reentered) = omega arith
at_most_one fuse (load_mask reentered) = omega arith
at_most_one fuse (store_mask reentered mask) = omega arith
at_most_one fuse sub_depth = omega arith
at_most_one fuse clear_owner = omega arith

pub apart :
    (fuse : ℕ) (fs : List Frame)
    → total_at uncounted fs + total_at (clearing fuse) fs ≤ total_at one fs
apart fuse [] = omega arith
apart fuse (f ∷ fs) = omega (arith, at_most_one fuse f.point, apart fuse fs)

pub most-calls : {s : Kext} {a : System} (r : Reachable s a) → total_at one a.frames ≤ most r
most-calls Reachable.start = omega arith
most-calls (Reachable.moved {a} {b} r m) = omega arith
