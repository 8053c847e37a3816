-- ===== src/Lookup/Overshoot.antt =====
-- The count and the fuse of kext/vnode.c when many threads are inside the hook at once.
use sedarwin.Prelude.{
  ℕ, zero, suc, ◌^◌, ◌<◌, ◌≤◌, List, [], ◌∷◌, ◌++◌, Option, none, some, true, false, ◌≡◌, ◌≢◌, refl,
  subst, arith, ltb, ==_false, ◌==◌,
}
use sedarwin.Policy.{Kext}
use sedarwin.Lookup.{increment}
use sedarwin.Lookup.Steps.{
  Point, load_owner, store_owner, add_depth, load_maxdepth, store_maxdepth, add_count, load_trace,
  advance, stays, Frame, System, Moves, Reachable,
}
use sedarwin.Lookup.Frames.{total_at}
use sedarwin.Lookup.Crowd.{one, most, AreDispatched}

-- The variables when the threads 1 to `n` are inside and have counted themselves.
abbrev pub piled : Kext → ℕ → Kext
piled s n = record s { lookup_owner = n; lookup_depth = n; lookup_maxdepth = n; lookup_count = n }

-- Those threads, each about to compare its count with the fuse.
abbrev pub pile : ℕ → List Frame
pile zero = []
pile (suc n) = record { thread = suc n; point = load_trace (suc n) } ∷ pile n

-- A state that is reached with at most `n` calls on the way at once, each of which was called by way
-- of the vector.
pub record Filled (s : Kext) (n : ℕ) (a : System) : Type 0 where
  pub run : Reachable s a
  pub dispatched : AreDispatched run
  pub room : most run ≤ n

abbrev At : Kext → ℕ → Kext → ℕ → Point → List Frame → Type 0
At s n k self p fs =
    Filled s n (record { kext = k; frames = record { thread = self; point = p } ∷ fs })

went :
    {s k t : Kext} {n self : ℕ} {p q : Point} {fs : List Frame}
    → suc (total_at one fs) ≤ n
    → advance self p k ≡ (t, some q)
    → At s n k self p fs
    → At s n t self q fs
went {s} {k} {t} {n} {self} {p} {q} {fs} h e v =
    let family : Kext × Option Point → Type 0 = λ o.
      total_at one (stays self o.1 ++ fs) ≤ n
      → Filled s n (record { kext = o.0; frames = stays self o.1 ++ fs }) in
    subst family e
      (λ small. record {
        run = Reachable.moved v.run (Moves.access k [] fs self p);
        dispatched = v.dispatched;
        room = omega (arith, v.room);
      })
      (omega arith)

-- One more thread comes, and counts itself.
counted :
    (s : Kext) (n : ℕ) {r : Kext} (fs : List Frame)
    → suc n < 2 ^ 32
    → s.ops.mpo_vnode_check_lookup ≢ none
    → total_at one fs ≡ n
    → Filled r n (record { kext = piled s n; frames = fs })
    → At r (suc n) (piled s (suc n)) (suc n) (load_trace (suc n)) fs
unfolding advance
counted s n {r} fs small installed sum v =
    let k : Kext = piled s n in
    let room : suc (total_at one fs) ≤ suc n = omega arith in
    let next : increment n ≡ suc n = omega arith in
    let other : (n == suc n) ≡ false = ==_false n (suc n) (λ e. omega arith) in
    let more : ltb n (suc n) ≡ true = ground arith in
    let calls : At r (suc n) k (suc n) load_owner fs = record {
      run = Reachable.moved v.run (Moves.enter k fs (suc n) (λ e. omega arith));
      dispatched = (installed, v.dispatched);
      room = omega (arith, v.room);
    } in
    let passes : At r (suc n) k (suc n) store_owner fs = went room (rw other refl) calls in
    let owner : Kext = record k { lookup_owner = suc n } in
    let owns : At r (suc n) owner (suc n) add_depth fs = went room refl passes in
    let deep : Kext = record owner { lookup_depth = suc n } in
    let enters : At r (suc n) deep (suc n) (load_maxdepth (suc n)) fs =
      went room (rw next refl) owns in
    let sees : At r (suc n) deep (suc n) (store_maxdepth (suc n)) fs =
      went room (rw more refl) enters in
    let peak : Kext = record deep { lookup_maxdepth = suc n } in
    let stores : At r (suc n) peak (suc n) add_count fs = went room refl sees in
    went room (rw next refl) stores

one-pile : (n : ℕ) → total_at one (pile n) ≡ n
one-pile zero = refl
one-pile (suc n) = omega (arith, one-pile n)

-- The fuse does not bound how many threads are dispatched together: whatever `lookup_fuse` is, from
-- any state with the hook installed, nobody inside and nothing counted, any number of threads below
-- 2 ^ 32 can be dispatched by way of the vector and interleave so that each of them is counted, each
-- is still inside, and none has taken the hook out. No more than those threads are ever inside. The
-- reached variables are those of the start but for the owner, the depth, its peak and the count.
pub overshoot :
    (s : Kext) (n : ℕ)
    → n < 2 ^ 32
    → s.ops.mpo_vnode_check_lookup ≢ none
    → Filled (piled s 0) n (record { kext = piled s n; frames = pile n })
overshoot s zero small installed = record {
  run = Reachable.start;
  dispatched = tt;
  room = omega arith;
}
overshoot s (suc n) small installed =
    counted s n (pile n) small installed (one-pile n) (overshoot s n (omega arith) installed)
