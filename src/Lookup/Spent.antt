-- ===== src/Lookup/Spent.antt =====
-- The fuse of the lookup hook of kext/vnode.c in every interleaving of its calls.
use sedarwin.Prelude.{
  ℕ, Bool, true, false, ◌++◌, none, ◌≡◌, ◌⊎◌, inl, inr, refl, subst, arith, ltb, leb, not, ◌==◌,
  ◌||◌, ◌&&◌, Bool-cases, nth_bit,
}
use sedarwin.Mask.Digits.{nth_bit-cleared}
use sedarwin.Policy.{Kext}
use sedarwin.Lookup.{increment, burned, positive}
use sedarwin.Lookup.Steps.{
  Point, load_owner, store_recursed, store_owner, add_depth, load_maxdepth, store_maxdepth,
  add_count, load_trace, load_line, load_fuse, load_fuse_again, clear_slot, load_mask, store_mask,
  sub_depth, clear_owner, advance, Frame, System, Moves, Reachable,
}
use sedarwin.Lookup.Frames.{any_at, test_next, any_at-frame, any_at-stays}

-- The hook is out of the vector and of the mask.
abbrev pub IsOut : Kext → Type 0
IsOut s = (s.ops.mpo_vnode_check_lookup ≡ none) × (nth_bit 4 s.hooks_enabled ≡ 0)

-- A call that takes the hook out, or is going to.
abbrev pub burning : ℕ → Point → Bool
burning fuse (load_trace n) = burned fuse n
burning fuse (load_line n) = burned fuse n
burning fuse (load_fuse n) = burned fuse n
burning fuse (load_fuse_again n) = leb fuse n
burning fuse (clear_slot reentered) = true
burning fuse (load_mask reentered) = true
burning fuse (store_mask reentered mask) = true
burning fuse _ = false

-- A call that has cleared the slot and not yet the mask.
abbrev halfway : Point → Bool
halfway (load_mask reentered) = true
halfway (store_mask reentered mask) = true
halfway _ = false

-- A call that is about to store a mask with the hook's bit.
abbrev stale : Point → Bool
stale (store_mask reentered mask) = not (nth_bit 4 mask == 0)
stale _ = false

-- Once the count has reached the fuse the hook is out, or a call on its way takes it out: `on_way`
-- and `half` tell whether there is a call that burns, and one that is halfway; `bit` whether one is
-- about to store the hook's bit.
record Spent (fuse : ℕ) (s : Kext) (on_way half bit : Bool) : Type 0 where
  limit : s.lookup_fuse ≡ fuse
  blown : (burned fuse s.lookup_count ≡ false) ⊎ (IsOut s) ⊎ (on_way ≡ true)
  cleared : (half ≡ false) ⊎ (s.ops.mpo_vnode_check_lookup ≡ none)
  fresh : bit ≡ false

emptied :
    {fuse : ℕ} {s : Kext} {on_way bit : Bool}
    → Spent fuse s on_way true bit
    → s.ops.mpo_vnode_check_lookup ≡ none
emptied v = elim v.cleared [ inl e ↦ cc e | inr out ↦ out ]

module _ (fuse self : ℕ) (s : Kext) (others half bit : Bool) where
  abbrev Before : Point → Type 0
  Before p = Spent fuse s (burning fuse p || others) (halfway p || half) (stale p || bit)

  abbrev After : Point → Type 0
  After p =
      Spent fuse (advance self p s).0 (test_next (burning fuse) (advance self p s).1 || others)
        (test_next halfway (advance self p s).1 || half)
        (test_next stale (advance self p s).1 || bit)

  clear_bit : (mask : ℕ) → (not (nth_bit 4 mask == 0) || bit) ≡ false → nth_bit 4 mask ≡ 0
  clear_bit mask e = ground arith

  others_fresh : (mask : ℕ) → (not (nth_bit 4 mask == 0) || bit) ≡ false → bit ≡ false
  others_fresh mask e = ground arith

  access-Spent : (p : Point) → Before p → After p
  unfolding advance
  access-Spent load_owner v = elim (Bool-cases (s.lookup_owner == self)) [
    | inl same ↦
        rw same (record { limit = v.limit; blown = v.blown; cleared = v.cleared; fresh = v.fresh })
    | inr other ↦
        rw other (record { limit = v.limit; blown = v.blown; cleared = v.cleared; fresh = v.fresh })
  ]
  access-Spent store_recursed v = record {
    limit = v.limit;
    blown = inr (inr refl);
    cleared = v.cleared;
    fresh = v.fresh;
  }
  access-Spent store_owner v = record {
    limit = v.limit;
    blown = v.blown;
    cleared = v.cleared;
    fresh = v.fresh;
  }
  access-Spent add_depth v = record {
    limit = v.limit;
    blown = v.blown;
    cleared = v.cleared;
    fresh = v.fresh;
  }
  access-Spent (load_maxdepth d) v = elim (Bool-cases (ltb s.lookup_maxdepth d)) [
    | inl more ↦
        rw more (record { limit = v.limit; blown = v.blown; cleared = v.cleared; fresh = v.fresh })
    | inr less ↦
        rw less (record { limit = v.limit; blown = v.blown; cleared = v.cleared; fresh = v.fresh })
  ]
  access-Spent (store_maxdepth d) v = record {
    limit = v.limit;
    blown = v.blown;
    cleared = v.cleared;
    fresh = v.fresh;
  }
  access-Spent add_count v = elim (Bool-cases (burned fuse (increment s.lookup_count))) [
    | inl gone ↦ record {
      limit = v.limit;
      blown = inr (inr (rw gone refl));
      cleared = v.cleared;
      fresh = v.fresh;
    }
    | inr on ↦ record { limit = v.limit; blown = inl on; cleared = v.cleared; fresh = v.fresh }
  ]
  access-Spent (load_trace n) v = elim (Bool-cases (s.trace_enabled == 0)) [
    | inl off ↦
        rw off (record { limit = v.limit; blown = v.blown; cleared = v.cleared; fresh = v.fresh })
    | inr on ↦
        rw on (record { limit = v.limit; blown = v.blown; cleared = v.cleared; fresh = v.fresh })
  ]
  access-Spent (load_line n) v = record {
    limit = v.limit;
    blown = v.blown;
    cleared = v.cleared;
    fresh = v.fresh;
  }
  access-Spent (load_fuse n) v = elim (Bool-cases (positive s.lookup_fuse)) [
    | inl armed ↦
        let kept : positive fuse ≡ true = subst (λ l. positive l ≡ true) v.limit armed in
        rw armed (record {
          limit = v.limit;
          blown =
              subst
                (λ b.
                  (burned fuse s.lookup_count ≡ false)
                  ⊎ (IsOut s)
                  ⊎ (((b && leb fuse n) || others) ≡ true))
                kept v.blown;
          cleared = v.cleared;
          fresh = v.fresh;
        })
    | inr off ↦
        let kept : positive fuse ≡ false = subst (λ l. positive l ≡ false) v.limit off in
        rw off (record {
          limit = v.limit;
          blown =
              subst
                (λ b.
                  (burned fuse s.lookup_count ≡ false)
                  ⊎ (IsOut s)
                  ⊎ (((b && leb fuse n) || others) ≡ true))
                kept v.blown;
          cleared = v.cleared;
          fresh = v.fresh;
        })
  ]
  access-Spent (load_fuse_again n) v = elim (Bool-cases (leb s.lookup_fuse n)) [
    | inl gone ↦
        rw gone
          (record { limit = v.limit; blown = inr (inr refl); cleared = v.cleared; fresh = v.fresh })
    | inr on ↦
        let kept : leb fuse n ≡ false = subst (λ l. leb l n ≡ false) v.limit on in
        rw on (record {
          limit = v.limit;
          blown =
              subst (λ b. (burned fuse s.lookup_count ≡ false) ⊎ (IsOut s) ⊎ ((b || others) ≡ true))
                kept v.blown;
          cleared = v.cleared;
          fresh = v.fresh;
        })
  ]
  access-Spent (clear_slot reentered) v = record {
    limit = v.limit;
    blown = inr (inr refl);
    cleared = inr refl;
    fresh = v.fresh;
  }
  access-Spent (load_mask reentered) v = record {
    limit = v.limit;
    blown = inr (inr refl);
    cleared = inr (emptied v);
    fresh = rw (nth_bit-cleared 4 s.hooks_enabled (omega arith)) v.fresh;
  }
  access-Spent (store_mask true mask) v = record {
    limit = v.limit;
    blown = inr (inl (emptied v, clear_bit mask v.fresh));
    cleared = inr (emptied v);
    fresh = others_fresh mask v.fresh;
  }
  access-Spent (store_mask false mask) v = record {
    limit = v.limit;
    blown = inr (inl (emptied v, clear_bit mask v.fresh));
    cleared = inr (emptied v);
    fresh = others_fresh mask v.fresh;
  }
  access-Spent sub_depth v = record {
    limit = v.limit;
    blown = v.blown;
    cleared = v.cleared;
    fresh = v.fresh;
  }
  access-Spent clear_owner v = record {
    limit = v.limit;
    blown = v.blown;
    cleared = v.cleared;
    fresh = v.fresh;
  }

-- The same of a system.
abbrev SpentIn : ℕ → System → Type 0
SpentIn fuse a =
    Spent fuse a.kext (any_at (burning fuse) a.frames) (any_at halfway a.frames)
      (any_at stale a.frames)

Moves-Spent : (fuse : ℕ) {a b : System} → Moves a b → SpentIn fuse a → SpentIn fuse b
Moves-Spent fuse (Moves.enter s fs self other) v = record {
  limit = v.limit;
  blown = v.blown;
  cleared = v.cleared;
  fresh = v.fresh;
}
Moves-Spent fuse (Moves.access s xs ys self p) v =
    let f : Frame = record { thread = self; point = p } in
    rw
      (
        any_at-stays (burning fuse) xs ys self (advance self p s).1,
        any_at-stays halfway xs ys self (advance self p s).1,
        any_at-stays stale xs ys self (advance self p s).1,
      )
      (access-Spent fuse self s (any_at (burning fuse) (xs ++ ys)) (any_at halfway (xs ++ ys))
        (any_at stale (xs ++ ys)) p
        (rw
          (
            any_at-frame (burning fuse) xs ys f,
            any_at-frame halfway xs ys f,
            any_at-frame stale xs ys f,
          )
          at v))

Reachable-Spent :
    {s : Kext} {a : System}
    → burned s.lookup_fuse s.lookup_count ≡ false
    → Reachable s a
    → SpentIn s.lookup_fuse a
Reachable-Spent fresh Reachable.start = record {
  limit = refl;
  blown = inl fresh;
  cleared = inl refl;
  fresh = refl;
}
Reachable-Spent {s} fresh (Reachable.moved r m) =
    Moves-Spent s.lookup_fuse m (Reachable-Spent fresh r)

-- In every interleaving that starts with nobody inside and a count below the fuse (or a fuse that
-- is off): whenever the count has reached the fuse, the hook's slot is NULL and its bit is out of the
-- mask, or some call on its way has that before it: it has read a count that reaches the fuse, or is
-- in the middle of taking the hook out.
pub fuse_spent :
    {s : Kext} {a : System}
    → burned s.lookup_fuse s.lookup_count ≡ false
    → Reachable s a
    → burned a.kext.lookup_fuse a.kext.lookup_count ≡ true
    → (IsOut a.kext) ⊎ (any_at (burning s.lookup_fuse) a.frames ≡ true)
fuse_spent {s} {a} fresh r reached =
    let v = Reachable-Spent fresh r in
    elim v.blown [
      | inl below ↦
          let still : burned s.lookup_fuse a.kext.lookup_count ≡ true =
            subst (λ l. burned l a.kext.lookup_count ≡ true) v.limit reached in
          cc (below, still)
      | inr rest ↦ rest
    ]
