-- ===== src/Threads/Teardown.antt =====
-- The members of the ops vector while an unload of kext/main.c asks the framework to drop the policy.
use sedarwin.Prelude.{List, [], ◌∷◌, ◌++◌, none, ◌≡◌, ◌∙◌, refl, ap}
use sedarwin.Ops.{Ops}
use sedarwin.Ops.Slots.{Hook, slot}
use sedarwin.Ops.Stores.{chosen, lifecycle, lifecycle-store}
use sedarwin.Policy.{Kext, Framework}
use sedarwin.Lookup.Steps.{
  load_owner, store_recursed, store_owner, add_depth, load_maxdepth, store_maxdepth, add_count,
  load_trace, load_line, load_fuse, load_fuse_again, clear_slot, load_mask, store_mask, sub_depth,
  clear_owner, advance,
}
use sedarwin.Threads.{
  load_hooks, load_unsafe, store_hooks, install, load_registered, clear, unregister,
  store_registered, Task, handling, unloading, looking, handle_access, unload_access, access,
  IsStart, Machine, Moves, Reach,
}
use sedarwin.Threads.Writes.{Stores-ops}
use sedarwin.Threads.Cleared.{
  IsQuiet, Gone, AllGone, AllGone-join, AllGone-split, AllGone-less, access-IsLess, access-Gone,
}

-- No request stores to the vector in the run.
abbrev pub IsUnrequested : {f : Framework} {root : Kext} {a : Machine} → Reach f root a → Type 0
IsUnrequested Reach.here = Unit {0}
IsUnrequested (Reach.moved r (Moves.starts s ts t first)) = IsUnrequested r
IsUnrequested (Reach.moved r (Moves.goes s xs ys t)) = IsQuiet t × IsUnrequested r
IsUnrequested (Reach.moved r (Moves.stores s s' ts step)) = IsUnrequested r

-- An access leaves the lifecycle members alone.
access-lifecycle :
    (f : Framework) (t : Task) (s : Kext) → lifecycle (access f t s).0.ops ≡ lifecycle s.ops
unfolding handle_access unload_access advance
access-lifecycle f (handling req load_hooks) s = refl
access-lifecycle f (handling req (load_unsafe value)) s = refl
access-lifecycle f (handling req (store_hooks value)) s = refl
access-lifecycle f (handling req (install value [])) s = refl
access-lifecycle f (handling req (install value (h ∷ hs))) s =
    lifecycle-store h (chosen value h) s.ops
access-lifecycle f (unloading load_registered) s = refl
access-lifecycle f (unloading (clear [])) s = refl
access-lifecycle f (unloading (clear (h ∷ hs))) s = lifecycle-store h (chosen 0 h) s.ops
access-lifecycle f (unloading unregister) s = refl
access-lifecycle f (unloading store_registered) s = refl
access-lifecycle f (looking self load_owner) s = refl
access-lifecycle f (looking self store_recursed) s = refl
access-lifecycle f (looking self store_owner) s = refl
access-lifecycle f (looking self add_depth) s = refl
access-lifecycle f (looking self (load_maxdepth d)) s = refl
access-lifecycle f (looking self (store_maxdepth d)) s = refl
access-lifecycle f (looking self add_count) s = refl
access-lifecycle f (looking self (load_trace n)) s = refl
access-lifecycle f (looking self (load_line n)) s = refl
access-lifecycle f (looking self (load_fuse n)) s = refl
access-lifecycle f (looking self (load_fuse_again n)) s = refl
access-lifecycle f (looking self (clear_slot reentered)) s = refl
access-lifecycle f (looking self (load_mask reentered)) s = refl
access-lifecycle f (looking self (store_mask reentered mask)) s = refl
access-lifecycle f (looking self sub_depth) s = refl
access-lifecycle f (looking self clear_owner) s = refl

reach-lifecycle :
    {f : Framework} {root : Kext} {a : Machine}
    → Reach f root a
    → lifecycle a.kext.ops ≡ lifecycle root.ops
reach-lifecycle Reach.here = refl
reach-lifecycle (Reach.moved r (Moves.starts s ts t first)) = reach-lifecycle r
reach-lifecycle {f} (Reach.moved r (Moves.goes s xs ys t)) =
    access-lifecycle f t s ∙ reach-lifecycle r
reach-lifecycle (Reach.moved r (Moves.stores s s' ts step)) =
    ap lifecycle (Stores-ops step) ∙ reach-lifecycle r

IsStart-Gone : (ops : Ops) (t : Task) → IsStart t → Gone ops t
IsStart-Gone ops (handling req p) e = tt
IsStart-Gone ops (unloading p) e = rw e tt
IsStart-Gone ops (looking self p) e = tt

reach-AllGone :
    {f : Framework} {root : Kext} {a : Machine} (r : Reach f root a)
    → IsUnrequested r
    → AllGone a.kext.ops a.tasks
reach-AllGone Reach.here quiet = tt
reach-AllGone (Reach.moved r (Moves.starts s ts t first)) quiet =
    (IsStart-Gone s.ops t first, reach-AllGone r quiet)
reach-AllGone {f} (Reach.moved r (Moves.goes s xs ys t)) quiet =
    let (left, rest) = AllGone-split s.ops xs (t ∷ ys) (reach-AllGone r quiet.1) in
    let less = access-IsLess f t s quiet.0 in
    let later : Ops = (access f t s).0.ops in
    AllGone-join later xs ((access f t s).1 ++ ys) (AllGone-less xs less left) (
      AllGone-join later (access f t s).1 ys (access-Gone f t s rest.0)
        (AllGone-less ys less rest.1))
reach-AllGone (Reach.moved r (Moves.stores s s' ts step)) quiet =
    rw (Stores-ops step) (reach-AllGone r quiet)

-- When an unload asks the framework to drop the policy, whatever calls of the lookup hook and other
-- unloads are on the way, and if no request of the run has stored to the vector: every per-event
-- member is NULL, so that a dispatch passes the module over, and the three lifecycle members are as
-- they were, so that the framework can still call them.
pub torn_down :
    {f : Framework} {root s : Kext} (xs ys : List Task)
    → (r : Reach f root (record { kext = s; tasks = xs ++ (unloading unregister ∷ ys) }))
    → IsUnrequested r
    → ((h : Hook) → slot h s.ops ≡ none) × (lifecycle s.ops ≡ lifecycle root.ops)
torn_down {f} {root} {s} xs ys r quiet =
    let (before, here) =
      AllGone-split s.ops xs (unloading unregister ∷ ys) (reach-AllGone r quiet) in
    (here.0, reach-lifecycle r)
