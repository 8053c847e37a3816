-- ===== src/Lookup/Peak.antt =====
-- `sebsd_lookup_maxdepth` of kext/vnode.c against the depth that was really reached.
use sedarwin.Prelude.{
  ◌||◌, ℕ, ◌≤◌, Bool, true, false, List, [], ◌∷◌, ◌++◌, ◌≡◌, refl, arith, ltb, max,
}
use sedarwin.Policy.{Kext}
use sedarwin.Lookup.Steps.{
  Point, load_owner, store_recursed, store_owner, add_depth, load_maxdepth, store_maxdepth,
  add_count, load_trace, load_line, load_fuse, load_fuse_again, clear_slot, load_mask, store_mask,
  sub_depth, clear_owner, advance, Frame, System, Moves, Reachable,
}
use sedarwin.Lookup.Frames.{any_at, test_next, any_at-frame, any_at-stays}
use sedarwin.Lookup.Inside.{occupied, Reachable-Owned}

-- The most calls that were between the two updates of the depth at once.
abbrev pub peak : {s : Kext} {a : System} → Reachable s a → ℕ
peak Reachable.start = 0
peak (Reachable.moved {a} {b} r m) = max (peak r) (occupied b.frames)

-- A call that has a depth above the bound at hand.
abbrev above : ℕ → Point → Bool
above bound (load_maxdepth d) = ltb bound d
above bound (store_maxdepth d) = ltb bound d
above bound _ = false

record Low (bound : ℕ) (s : Kext) (over : Bool) : Type 0 where
  stored : s.lookup_maxdepth ≤ bound
  at_hand : over ≡ false

module _ (bound self : ℕ) (s : Kext) (others : Bool) where
  access-Low :
      (p : Point)
      → (advance self p s).0.lookup_depth ≤ bound
      → Low bound s (above bound p || others)
      → Low bound (advance self p s).0 (test_next (above bound) (advance self p s).1 || others)
  unfolding advance
  access-Low load_owner h v = record { stored = v.stored; at_hand = ground (arith, v.at_hand) }
  access-Low store_recursed h v = record { stored = v.stored; at_hand = v.at_hand }
  access-Low store_owner h v = record { stored = v.stored; at_hand = v.at_hand }
  access-Low add_depth h v = record { stored = v.stored; at_hand = ground (arith, v.at_hand) }
  access-Low (load_maxdepth d) h v = record {
    stored = v.stored;
    at_hand = ground (arith, v.at_hand);
  }
  access-Low (store_maxdepth d) h v = record {
    stored = ground (arith, v.at_hand);
    at_hand = ground (arith, v.at_hand);
  }
  access-Low add_count h v = record { stored = v.stored; at_hand = v.at_hand }
  access-Low (load_trace n) h v = record { stored = v.stored; at_hand = ground (arith, v.at_hand) }
  access-Low (load_line n) h v = record { stored = v.stored; at_hand = ground (arith, v.at_hand) }
  access-Low (load_fuse n) h v = record { stored = v.stored; at_hand = ground (arith, v.at_hand) }
  access-Low (load_fuse_again n) h v = record {
    stored = v.stored;
    at_hand = ground (arith, v.at_hand);
  }
  access-Low (clear_slot reentered) h v = record { stored = v.stored; at_hand = v.at_hand }
  access-Low (load_mask reentered) h v = record { stored = v.stored; at_hand = v.at_hand }
  access-Low (store_mask true mask) h v = record { stored = v.stored; at_hand = v.at_hand }
  access-Low (store_mask false mask) h v = record { stored = v.stored; at_hand = v.at_hand }
  access-Low sub_depth h v = record { stored = v.stored; at_hand = v.at_hand }
  access-Low clear_owner h v = record { stored = v.stored; at_hand = v.at_hand }

above_mono : (low high : ℕ) (p : Point) → low ≤ high → above low p ≡ false → above high p ≡ false
above_mono low high (load_maxdepth d) h e = ground arith
above_mono low high (store_maxdepth d) h e = ground arith
above_mono low high load_owner h e = refl
above_mono low high store_recursed h e = refl
above_mono low high store_owner h e = refl
above_mono low high add_depth h e = refl
above_mono low high add_count h e = refl
above_mono low high (load_trace n) h e = refl
above_mono low high (load_line n) h e = refl
above_mono low high (load_fuse n) h e = refl
above_mono low high (load_fuse_again n) h e = refl
above_mono low high (clear_slot b) h e = refl
above_mono low high (load_mask b) h e = refl
above_mono low high (store_mask b mask) h e = refl
above_mono low high sub_depth h e = refl
above_mono low high clear_owner h e = refl

any_above_mono :
    (low high : ℕ) (fs : List Frame)
    → low ≤ high
    → any_at (above low) fs ≡ false
    → any_at (above high) fs ≡ false
any_above_mono low high [] h e = refl
any_above_mono low high (f ∷ fs) h e =
    ground (arith, above_mono low high f.point, any_above_mono low high fs)

abbrev LowIn : ℕ → System → Type 0
LowIn bound a = Low bound a.kext (any_at (above bound) a.frames)

LowIn-mono : (low high : ℕ) (a : System) → low ≤ high → LowIn low a → LowIn high a
LowIn-mono low high a h v = record {
  stored = omega (arith, v.stored);
  at_hand = any_above_mono low high a.frames h v.at_hand;
}

Moves-Low :
    (bound : ℕ) {a b : System}
    → Moves a b
    → b.kext.lookup_depth ≤ bound
    → LowIn bound a
    → LowIn bound b
Moves-Low bound (Moves.enter s fs self other) h v = record {
  stored = v.stored;
  at_hand = v.at_hand;
}
Moves-Low bound (Moves.access s xs ys self p) h v =
    rw (any_at-stays (above bound) xs ys self (advance self p s).1) (
      access-Low bound self s (any_at (above bound) (xs ++ ys)) p h
        (rw (any_at-frame (above bound) xs ys (record { thread = self; point = p })) at v))

Reachable-Low :
    {s : Kext} {a : System}
    → s.lookup_owner ≡ 0
    → s.lookup_depth ≡ 0
    → (r : Reachable s a) → LowIn (max s.lookup_maxdepth (peak r)) a
Reachable-Low {s} idle level Reachable.start = record { stored = omega arith; at_hand = refl }
Reachable-Low {s} idle level (Reachable.moved {a} {b} r m) =
    let o = Reachable-Owned idle level (Reachable.moved r m) in
    Moves-Low (max s.lookup_maxdepth (max (peak r) (occupied b.frames))) m
      (omega (arith, o.depth_counts))
      (LowIn-mono (max s.lookup_maxdepth (peak r))
        (max s.lookup_maxdepth (max (peak r) (occupied b.frames))) a (omega arith)
        (Reachable-Low idle level r))

-- In every interleaving from a state in which nobody is inside, the recorded peak is at most what it
-- was at the start, or the most calls that were inside at once: it is never above the truth.
pub maxdepth_bound :
    {s : Kext} {a : System}
    → s.lookup_owner ≡ 0
    → s.lookup_depth ≡ 0
    → (r : Reachable s a) → a.kext.lookup_maxdepth ≤ max s.lookup_maxdepth (peak r)
maxdepth_bound idle level r = (Reachable-Low idle level r).stored
