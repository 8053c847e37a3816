-- ===== src/Lookup/Steps.antt =====
-- The lookup hook of kext/vnode.c one access to a shared variable at a time, and the interleavings of
-- any number of calls, nested ones among them.
use sedarwin.Prelude.{
  ℕ, Bool, true, false, List, [], ◌∷◌, ◌++◌, Option, none, some, ◌≢◌, ltb, leb, ◌==◌, bit_and,
  if◌then◌else◌,
}
use sedarwin.Mask.{complement, hook_vnode_lookup}
use sedarwin.Policy.{Kext}
use sedarwin.Lookup.{increment, decrement, positive}

-- Where a call stands: the access that it makes next, with its local variables.
pub data Point : Type 0 where
  load_owner : Point
  store_recursed : Point
  store_owner : Point
  add_depth : Point
  load_maxdepth : (d : ℕ) → Point
  store_maxdepth : (d : ℕ) → Point
  add_count : Point
  -- the gate, and the test of the trace line
  load_trace : (n : ℕ) → Point
  load_line : (n : ℕ) → Point
  -- the two tests of the fuse
  load_fuse : (n : ℕ) → Point
  load_fuse_again : (n : ℕ) → Point
  -- `sebsd_hooks_blow_lookup_fuse`; the call returns after it if it was re-entered
  clear_slot : (reentered : Bool) → Point
  load_mask : (reentered : Bool) → Point
  store_mask : (reentered : Bool) (mask : ℕ) → Point
  sub_depth : Point
  clear_owner : Point

-- One access of the thread `self`: the variables after it, and where the call stands then; `none`
-- when it has returned.
unfoldable pub advance : ℕ → Point → Kext → Kext × Option Point
advance self load_owner s =
    (s, some (if s.lookup_owner == self then store_recursed else store_owner))
advance self store_recursed s = (record s { lookup_recursed = 1 }, some (clear_slot true))
advance self store_owner s = (record s { lookup_owner = self }, some add_depth)
advance self add_depth s = (
  record s { lookup_depth = increment s.lookup_depth },
  some (load_maxdepth (increment s.lookup_depth)),
)
advance self (load_maxdepth d) s =
    (s, some (if ltb s.lookup_maxdepth d then store_maxdepth d else add_count))
advance self (store_maxdepth d) s = (record s { lookup_maxdepth = d }, some add_count)
advance self add_count s = (
  record s { lookup_count = increment s.lookup_count },
  some (load_trace (increment s.lookup_count)),
)
advance self (load_trace n) s =
    (s, some (if s.trace_enabled == 0 then load_fuse n else load_line n))
advance self (load_line n) s = (s, some (load_fuse n))
advance self (load_fuse n) s =
    (s, some (if positive s.lookup_fuse then load_fuse_again n else sub_depth))
advance self (load_fuse_again n) s =
    (s, some (if leb s.lookup_fuse n then clear_slot false else sub_depth))
advance self (clear_slot reentered) s =
    (record s { ops = record s.ops { mpo_vnode_check_lookup = none } }, some (load_mask reentered))
advance self (load_mask reentered) s =
    (s, some (store_mask reentered (bit_and s.hooks_enabled (complement hook_vnode_lookup))))
advance self (store_mask reentered mask) s =
    (record s { hooks_enabled = mask }, if reentered then none else some sub_depth)
advance self sub_depth s = (record s { lookup_depth = decrement s.lookup_depth }, some clear_owner)
advance self clear_owner s = (record s { lookup_owner = 0 }, none)

-- A call on the way.
pub record Frame : Type 0 where
  pub thread : ℕ
  pub point : Point

abbrev pub stays : ℕ → Option Point → List Frame
stays self none = []
stays self (some p) = record { thread = self; point = p } ∷ []

-- The variables and the calls on the way.
pub record System : Type 0 where
  pub kext : Kext
  pub frames : List Frame

-- A thread calls the hook, be it inside already or not; or any of the calls makes its next access.
pub data Moves : System → System → Type 0 where
  enter :
      (s : Kext) (fs : List Frame) (self : ℕ)
      → self ≢ 0
      → Moves
          (record { kext = s; frames = fs })
          (record { kext = s; frames = record { thread = self; point = load_owner } ∷ fs })
  access :
      (s : Kext) (xs ys : List Frame) (self : ℕ) (p : Point)
      → Moves
          (record { kext = s; frames = xs ++ (record { thread = self; point = p } ∷ ys) })
          (record {
            kext = (advance self p s).0;
            frames = xs ++ (stays self (advance self p s).1 ++ ys);
          })

-- What can be reached when nobody is inside at first.
pub data Reachable (s : Kext) : System → Type 0 where
  start : Reachable s (record { kext = s; frames = [] })
  moved : {a b : System} → Reachable s a → Moves a b → Reachable s b
