-- ===== src/Lookup/Ends.antt =====
-- The lookup hook of kext/vnode.c has no loop and waits for nobody: its calls end in every
-- interleaving.
use sedarwin.Prelude.{
  ℕ, zero, suc, ◌+◌, ◌*◌, ◌≤◌, ◌<◌, true, false, List, [], ◌∷◌, ◌++◌, length, arith, if◌then◌else◌,
}
use sedarwin.Policy.{Kext}
use sedarwin.Lookup.Steps.{
  Point, load_owner, store_recursed, store_owner, add_depth, load_maxdepth, store_maxdepth,
  add_count, load_trace, load_line, load_fuse, load_fuse_again, clear_slot, load_mask, store_mask,
  sub_depth, clear_owner, advance, Frame, stays, System, Moves, Reachable,
}
use sedarwin.Lookup.Frames.{weigh_next, total_at, total_at-frame, total_at-stays}

-- The most accesses that a call has before it.
abbrev pub to_come : Point → ℕ
to_come load_owner = 15
to_come store_recursed = 4
to_come store_owner = 14
to_come add_depth = 13
to_come (load_maxdepth d) = 12
to_come (store_maxdepth d) = 11
to_come add_count = 10
to_come (load_trace n) = 9
to_come (load_line n) = 8
to_come (load_fuse n) = 7
to_come (load_fuse_again n) = 6
to_come (clear_slot reentered) = if reentered then 3 else 5
to_come (load_mask reentered) = if reentered then 2 else 4
to_come (store_mask reentered mask) = if reentered then 1 else 3
to_come sub_depth = 2
to_come clear_owner = 1

pub to_come-advance :
    (self : ℕ) (p : Point) (s : Kext) → weigh_next to_come (advance self p s).1 < to_come p
unfolding advance
to_come-advance self load_owner s = ground arith
to_come-advance self store_recursed s = omega arith
to_come-advance self store_owner s = omega arith
to_come-advance self add_depth s = omega arith
to_come-advance self (load_maxdepth d) s = ground arith
to_come-advance self (store_maxdepth d) s = omega arith
to_come-advance self add_count s = omega arith
to_come-advance self (load_trace n) s = ground arith
to_come-advance self (load_line n) s = omega arith
to_come-advance self (load_fuse n) s = ground arith
to_come-advance self (load_fuse_again n) s = ground arith
to_come-advance self (clear_slot true) s = omega arith
to_come-advance self (clear_slot false) s = omega arith
to_come-advance self (load_mask true) s = omega arith
to_come-advance self (load_mask false) s = omega arith
to_come-advance self (store_mask true mask) s = omega arith
to_come-advance self (store_mask false mask) s = omega arith
to_come-advance self sub_depth s = omega arith
to_come-advance self clear_owner s = omega arith

-- How often the hook was called, and how many accesses were made, in an interleaving.
abbrev pub entries : {s : Kext} {a : System} → Reachable s a → ℕ
entries Reachable.start = 0
entries (Reachable.moved r (Moves.enter s fs self other)) = suc (entries r)
entries (Reachable.moved r (Moves.access s xs ys self p)) = entries r

abbrev pub accesses : {s : Kext} {a : System} → Reachable s a → ℕ
accesses Reachable.start = 0
accesses (Reachable.moved r (Moves.enter s fs self other)) = accesses r
accesses (Reachable.moved r (Moves.access s xs ys self p)) = suc (accesses r)

-- In every interleaving of calls of the lookup hook the accesses that were made, and those that the
-- calls on the way have before them at most, are together at most fifteen for each call: no call
-- loops or waits for another one, be it nested or on another processor.
pub accesses_bound :
    {s : Kext} {a : System} (r : Reachable s a)
    → accesses r + total_at to_come a.frames ≤ 15 * entries r
accesses_bound Reachable.start = omega arith
accesses_bound (Reachable.moved r (Moves.enter s fs self other)) = omega (arith, accesses_bound r)
accesses_bound (Reachable.moved r (Moves.access s xs ys self p)) = omega (
  arith,
  accesses_bound r,
  total_at-frame to_come xs ys (record { thread = self; point = p }),
  total_at-stays to_come xs ys self (advance self p s).1,
  to_come-advance self p s,
)

-- So many accesses, of calls that are on the way.
pub data Accesses (a : System) : ℕ → System → Type 0 where
  none_yet : Accesses a 0 a
  one_more :
      {n : ℕ} (s : Kext) (xs ys : List Frame) (self : ℕ) (p : Point)
      → Accesses a n
          (record { kext = s; frames = xs ++ (record { thread = self; point = p } ∷ ys) })
      → Accesses a (suc n) (record {
        kext = (advance self p s).0;
        frames = xs ++ (stays self (advance self p s).1 ++ ys);
      })

-- The calls can all return.
pub record Drained (a : System) : Type 0 where
  pub kext : Kext
  pub count : ℕ
  pub way : Accesses a count (record { kext = kext; frames = [] })
  pub few : count ≤ 15 * length a.frames

drain :
    {a : System} (m n : ℕ) (k : Kext) (fs : List Frame)
    → Accesses a m (record { kext = k; frames = fs })
    → total_at to_come fs ≤ n
    → m + n ≤ 15 * length a.frames
    → Drained a
drain m n k [] r h small = record { kext = k; count = m; way = r; few = omega arith }
drain m zero k (f ∷ fs) r h small = absurd (omega (arith, to_come-advance f.thread f.point k))
drain m (suc n) k (f ∷ fs) r h small =
    drain (suc m) n (advance f.thread f.point k).0
      (stays f.thread (advance f.thread f.point k).1 ++ fs)
      (Accesses.one_more k [] fs f.thread f.point r)
      (omega (
        arith,
        total_at-stays to_come [] fs f.thread (advance f.thread f.point k).1,
        to_come-advance f.thread f.point k,
      ))
      (omega arith)

to_come-le : (p : Point) → to_come p ≤ 15
to_come-le p = ground arith

total-le : (fs : List Frame) → total_at to_come fs ≤ 15 * length fs
total-le [] = omega arith
total-le (f ∷ fs) = omega (arith, to_come-le f.point, total-le fs)

-- From every state the calls on the way can all return, by at most fifteen accesses of their own for
-- each of them and with no other call of the hook: nobody is ever stuck inside.
pub drains : (a : System) → Drained a
drains a =
    drain 0 (total_at to_come a.frames) a.kext a.frames Accesses.none_yet (omega arith)
      (omega (arith, total-le a.frames))
