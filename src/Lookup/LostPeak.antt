-- ===== src/Lookup/LostPeak.antt =====
-- `sebsd_lookup_maxdepth` of kext/vnode.c is tested and stored in two accesses: a call that has seen a
-- lower depth can store last.
use sedarwin.Prelude.{
  ℕ, max, Bool, true, false, List, [], ◌∷◌, ◌++◌, some, ◌≡◌, ◌≢◌, refl, sym, ap, ==_false,
}
use sedarwin.Policy.{Kext}
use sedarwin.Lookup.Steps.{
  Point, load_owner, store_owner, add_depth, load_maxdepth, store_maxdepth, add_count, advance,
  Frame, System, Moves, Reachable,
}
use sedarwin.Lookup.Frames.{any_at, access_to}
use sedarwin.Lookup.Inside.{occupied}
use sedarwin.Lookup.Peak.{peak}

-- A call that may yet store the peak.
abbrev pub may_store : Point → Bool
may_store load_owner = true
may_store store_owner = true
may_store add_depth = true
may_store (load_maxdepth d) = true
may_store (store_maxdepth d) = true
may_store _ = false

-- A reachable state with the peak that was really reached on the way.
record Seen (s : Kext) (n : ℕ) (a : System) : Type 0 where
  run : Reachable s a
  top : peak run ≡ n

abbrev at : ℕ → Point → Frame
at self p = record { thread = self; point = p }

module _ (s : Kext) where
  entered :
      (n : ℕ) (k : Kext) (fs : List Frame) (self : ℕ)
      → self ≢ 0
      → Seen s n (record { kext = k; frames = fs })
      → Seen s
          (max n (occupied (at self load_owner ∷ fs)))
          (record { kext = k; frames = at self load_owner ∷ fs })
  entered n k fs self real v = record {
    run = Reachable.moved v.run (Moves.enter k fs self real);
    top = ap (λ m. max m (occupied (at self load_owner ∷ fs))) v.top;
  }

  went :
      (n : ℕ) (k : Kext) (xs ys : List Frame) (self : ℕ) (p q : Point) (t : Kext)
      → advance self p k ≡ (t, some q)
      → Seen s n (record { kext = k; frames = xs ++ (at self p ∷ ys) })
      → Seen s
          (max n (occupied (xs ++ (at self q ∷ ys))))
          (record { kext = t; frames = xs ++ (at self q ∷ ys) })
  went n k xs ys self p q t e v = record {
    run = Reachable.moved v.run (access_to xs ys self p e);
    top = ap (λ m. max m (occupied (xs ++ (at self q ∷ ys)))) v.top;
  }

-- The variables with an owner, a depth and a recorded peak.
abbrev pub vars : Kext → ℕ → ℕ → ℕ → Kext
vars s owner depth maxdepth = record s {
  lookup_owner = owner;
  lookup_depth = depth;
  lookup_maxdepth = maxdepth;
}

module _ (s : Kext) (a b : ℕ) where
  abbrev Saw : ℕ → Kext → List Frame → Type 0
  Saw n k fs = Seen (vars s 0 0 0) n (record { kext = k; frames = fs })

  -- Thread `a` has seen the depth 1 above the recorded peak, and is about to store it.
  first : a ≢ 0 → Saw 1 (vars s a 1 0) (at a (store_maxdepth 1) ∷ [])
  unfolding advance
  first real =
      let root : Kext = vars s 0 0 0 in
      let calls = entered root 0 root [] a real (record { run = Reachable.start; top = refl }) in
      let passes =
        went root 0 root [] [] a load_owner store_owner root
          (rw (==_false 0 a (λ e. real (sym e))) refl) calls in
      let owns = went root 0 root [] [] a store_owner add_depth (vars s a 0 0) refl passes in
      let counts =
        went root 0 (vars s a 0 0) [] [] a add_depth (load_maxdepth 1) (vars s a 1 0) refl owns in
      went root 1 (vars s a 1 0) [] [] a (load_maxdepth 1) (store_maxdepth 1) (vars s a 1 0) refl
        counts

  -- Thread `b` comes, and stores the depth 2.
  second :
      a ≢ b
      → b ≢ 0
      → Saw 1 (vars s a 1 0) (at a (store_maxdepth 1) ∷ [])
      → Saw 2 (vars s b 2 2) (at b add_count ∷ at a (store_maxdepth 1) ∷ [])
  unfolding advance
  second other real v =
      let root : Kext = vars s 0 0 0 in
      let fs : List Frame = at a (store_maxdepth 1) ∷ [] in
      let calls = entered root 1 (vars s a 1 0) fs b real v in
      let passes =
        went root 1 (vars s a 1 0) [] fs b load_owner store_owner (vars s a 1 0)
          (rw (==_false a b other) refl) calls in
      let owns =
        went root 1 (vars s a 1 0) [] fs b store_owner add_depth (vars s b 1 0) refl passes in
      let counts =
        went root 1 (vars s b 1 0) [] fs b add_depth (load_maxdepth 2) (vars s b 2 0) refl owns in
      let sees =
        went root 2 (vars s b 2 0) [] fs b (load_maxdepth 2) (store_maxdepth 2) (vars s b 2 0) refl
          counts in
      went root 2 (vars s b 2 0) [] fs b (store_maxdepth 2) add_count (vars s b 2 2) refl sees

-- The recorded peak can be below the truth: from any state with nobody inside and no peak recorded,
-- two threads can interleave so that both were inside at once, that the recorded peak is 1, and that
-- no call on the way can store it any more.
pub lost_peak :
    (s : Kext) (a b : ℕ)
    → a ≢ 0
    → b ≢ 0
    → a ≢ b
    → (x : System) × (r : Reachable (vars s 0 0 0) x) × (peak r ≡ 2)
      × (x.kext.lookup_maxdepth ≡ 1)
      × (any_at may_store x.frames ≡ false)
unfolding advance
lost_peak s a b real_a real_b other =
    let both = second s a b other real_b (first s a b real_a) in
    let last =
      went (vars s 0 0 0) 2 (vars s b 2 2) (at b add_count ∷ []) [] a (store_maxdepth 1) add_count
        (vars s b 2 1) refl both in
    (
      record { kext = vars s b 2 1; frames = at b add_count ∷ at a add_count ∷ [] },
      last.run,
      last.top,
      refl,
      refl,
    )
