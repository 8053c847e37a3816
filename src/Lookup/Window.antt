-- ===== src/Lookup/Window.antt =====
-- How far the count of the lookup hook of kext/vnode.c can pass the fuse in an interleaving.
use sedarwin.Prelude.{
  ℕ, suc, ◌+◌, ◌≤◌, ◌<◌, ◌^◌, true, false, List, ◌∷◌, ◌++◌, none, ◌≡◌, ◌⊎◌, inl, inr, refl, arith,
  ltb, leb, ◌==◌, Bool-cases, ◌∙◌,
}
use sedarwin.Policy.{Kext}
use sedarwin.Lookup.{increment, positive}
use sedarwin.Lookup.Steps.{
  Point, load_owner, store_recursed, store_owner, add_depth, load_maxdepth, store_maxdepth,
  add_count, load_trace, load_line, load_fuse, load_fuse_again, clear_slot, load_mask, store_mask,
  sub_depth, clear_owner, advance, Frame, stays, System, Moves, Reachable,
}
use sedarwin.Lookup.Frames.{weigh_next, total_at, total_at-frame, total_at-stays}
use sedarwin.Lookup.Crowd.{uncounted, clearing, one, most, AreDispatched, apart, most-calls}

-- While the hook is installed the count passes the fuse only by calls that are about to clear the
-- slot; once it is not, only by those that can still count themselves.
abbrev Level : (fuse limit : ℕ) → Kext → (waiting ending : ℕ) → Type 0
Level fuse limit s waiting ending =
    (s.lookup_count < fuse + ending)
    ⊎ ((s.ops.mpo_vnode_check_lookup ≡ none) × (s.lookup_count + waiting < fuse + limit))

eased :
    (fuse limit : ℕ) (s : Kext) {waiting fewer ending more : ℕ}
    → Level fuse limit s waiting ending
    → fewer ≤ waiting
    → ending ≤ more
    → Level fuse limit s fewer more
eased fuse limit s v less also = elim v [
  | inl low ↦ inl (omega arith)
  | inr (out, low) ↦ inr (out, omega arith)
]

counted-Level :
    (fuse limit waiting ending count : ℕ) (s : Kext)
    → 0 < fuse
    → fuse < 2 ^ 31
    → count ≤ suc s.lookup_count
    → Level fuse limit s (1 + waiting) (0 + ending)
    → Level fuse limit
        (record s { lookup_count = count })
        (0 + waiting)
        (clearing fuse (load_trace count) + ending)
counted-Level fuse limit waiting ending count s armed small next v = elim v [
  | inl low ↦ inl (ground arith)
  | inr (out, low) ↦ inr (out, omega arith)
]

module _ (fuse limit self : ℕ) (s : Kext) (waiting ending : ℕ) where
  abbrev Before : Point → Type 0
  Before p = Level fuse limit s (uncounted p + waiting) (clearing fuse p + ending)

  abbrev After : Point → Type 0
  After p =
      Level fuse limit (advance self p s).0 (weigh_next uncounted (advance self p s).1 + waiting)
        (weigh_next (clearing fuse) (advance self p s).1 + ending)

  access-Level :
      (p : Point)
      → 0 < fuse
      → fuse < 2 ^ 31
      → s.lookup_fuse ≡ fuse
      → (uncounted p + waiting) + (clearing fuse p + ending) ≤ limit
      → Before p
      → After p
  unfolding advance
  access-Level load_owner armed small same room v = elim (Bool-cases (s.lookup_owner == self)) [
    | inl inside ↦ rw inside (eased fuse limit s v (omega arith) (omega arith))
    | inr outside ↦ rw outside v
  ]
  access-Level store_recursed armed small same room v =
      eased fuse limit s v (omega arith) (omega arith)
  access-Level store_owner armed small same room v = v
  access-Level add_depth armed small same room v = v
  access-Level (load_maxdepth d) armed small same room v =
      elim (Bool-cases (ltb s.lookup_maxdepth d)) [ inl more ↦ rw more v | inr less ↦ rw less v ]
  access-Level (store_maxdepth d) armed small same room v = v
  access-Level add_count armed small same room v =
      counted-Level fuse limit waiting ending (increment s.lookup_count) s armed small (omega arith)
        v
  access-Level (load_trace n) armed small same room v = elim (Bool-cases (s.trace_enabled == 0)) [
    | inl off ↦ rw off v
    | inr on ↦ rw on v
  ]
  access-Level (load_line n) armed small same room v = v
  access-Level (load_fuse n) armed small same room v =
      let on : positive fuse ≡ true = ground arith in rw (same, on) (rw on at v)
  access-Level (load_fuse_again n) armed small same room v = elim (Bool-cases (leb fuse n)) [
    | inl over ↦ rw (same, over) (eased fuse limit s v (omega arith) (ground arith))
    | inr below ↦ rw (same, below) (rw below at v)
  ]
  access-Level (clear_slot reentered) armed small same room v = elim v [
    | inl low ↦ inr (refl, omega arith)
    | inr (out, low) ↦ inr (refl, low)
  ]
  access-Level (load_mask reentered) armed small same room v = v
  access-Level (store_mask true mask) armed small same room v = v
  access-Level (store_mask false mask) armed small same room v = v
  access-Level sub_depth armed small same room v = v
  access-Level clear_owner armed small same room v = v

advance-fuse : (self : ℕ) (p : Point) (s : Kext) → (advance self p s).0.lookup_fuse ≡ s.lookup_fuse
unfolding advance
advance-fuse self load_owner s = refl
advance-fuse self (load_maxdepth d) s = refl
advance-fuse self (load_trace n) s = refl
advance-fuse self (load_line n) s = refl
advance-fuse self (load_fuse n) s = refl
advance-fuse self (load_fuse_again n) s = refl
advance-fuse self (load_mask reentered) s = refl
advance-fuse self (store_mask reentered mask) s = refl
advance-fuse self _ s = refl

-- The same of a system.
record LevelIn (fuse limit : ℕ) (a : System) : Type 0 where
  same : a.kext.lookup_fuse ≡ fuse
  level : Level fuse limit a.kext (total_at uncounted a.frames) (total_at (clearing fuse) a.frames)

LevelIn-mono :
    (fuse limit more : ℕ) (a : System) → limit ≤ more → LevelIn fuse limit a → LevelIn fuse more a
LevelIn-mono fuse limit more a h v = record {
  same = v.same;
  level = elim v.level [ inl low ↦ inl low | inr (out, low) ↦ inr (out, omega arith) ];
}

Moves-LevelIn :
    (fuse limit : ℕ)
    → 0 < fuse
    → fuse < 2 ^ 31
    → (s : Kext) (xs ys : List Frame) (self : ℕ) (p : Point)
    → total_at one (xs ++ (record { thread = self; point = p } ∷ ys)) ≤ limit
    → LevelIn fuse limit
        (record { kext = s; frames = xs ++ (record { thread = self; point = p } ∷ ys) })
    → LevelIn fuse limit (record {
      kext = (advance self p s).0;
      frames = xs ++ (stays self (advance self p s).1 ++ ys);
    })
Moves-LevelIn fuse limit armed small s xs ys self p room v =
    let f : Frame = record { thread = self; point = p } in
    let waits = total_at-frame uncounted xs ys f in
    let ends = total_at-frame (clearing fuse) xs ys f in
    let o = (advance self p s).1 in
    record {
      same = advance-fuse self p s ∙ v.same;
      level =
          rw (total_at-stays uncounted xs ys self o, total_at-stays (clearing fuse) xs ys self o)
            (access-Level fuse limit self s (total_at uncounted (xs ++ ys))
              (total_at (clearing fuse) (xs ++ ys)) p armed small v.same
              (omega (arith, waits, ends, apart fuse (xs ++ (f ∷ ys))))
              (rw (waits, ends) at v.level));
    }

Reachable-LevelIn :
    {s : Kext} {a : System}
    → s.lookup_fuse < 2 ^ 31
    → s.lookup_count < s.lookup_fuse
    → (r : Reachable s a) → AreDispatched r
    → LevelIn s.lookup_fuse (most r) a
Reachable-LevelIn small below Reachable.start d = record { same = refl; level = inl (omega arith) }
Reachable-LevelIn {s} {a} small below (Reachable.moved r (Moves.enter t fs self other)) d =
    let v = Reachable-LevelIn small below r d.1 in
    LevelIn-mono s.lookup_fuse (most r) (most (Reachable.moved r (Moves.enter t fs self other))) a
      (omega arith)
      (record {
        same = v.same;
        level = elim v.level [ inl low ↦ inl (omega arith) | inr (out, low) ↦ absurd (d.0 out) ];
      })
Reachable-LevelIn {s} {a} small below (Reachable.moved r (Moves.access t xs ys self p)) d =
    LevelIn-mono s.lookup_fuse (most r) (most (Reachable.moved r (Moves.access t xs ys self p))) a
      (omega arith)
      (Moves-LevelIn s.lookup_fuse (most r) (omega arith) small t xs ys self p (most-calls r)
        (Reachable-LevelIn small below r d))

-- In every interleaving that starts with nobody inside and a count below the fuse, and in which the
-- framework calls the hook only where it reads it in the vector: the count passes the fuse by less
-- than the most calls that were ever on the way at once, nested ones among them. With one call at a
-- time the fuse is never passed.
pub dispatch_bound :
    {s : Kext} {a : System}
    → s.lookup_fuse < 2 ^ 31
    → s.lookup_count < s.lookup_fuse
    → (r : Reachable s a) → AreDispatched r
    → a.kext.lookup_count < s.lookup_fuse + most r
dispatch_bound {s} {a} small below r d =
    let v = Reachable-LevelIn small below r d in
    elim v.level [
      | inl low ↦ omega (arith, apart s.lookup_fuse a.frames, most-calls r)
      | inr (out, low) ↦ omega arith
    ]
