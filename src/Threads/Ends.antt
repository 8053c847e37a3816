-- ===== src/Threads/Ends.antt =====
-- The calls of kext/main.c and kext/vnode.c wait for nobody: they end in every interleaving.
use sedarwin.Prelude.{
  ℕ, zero, suc, ◌+◌, ◌-◌, ◌≡◌, ◌*◌, ◌≤◌, ◌<◌, List, [], ◌∷◌, ◌++◌, none, some, Option, length,
  arith,
}
use sedarwin.Policy.{Kext, Request, Framework}
use sedarwin.Lookup.Steps.{Point, advance}
use sedarwin.Lookup.Frames.{weigh_next}
use sedarwin.Lookup.Ends.{to_come, to_come-advance}
use sedarwin.Threads.{
  load_hooks, load_unsafe, store_hooks, install, load_registered, clear, unregister,
  store_registered, Task, handling, unloading, looking, judge, handle_access, unload_access,
  goes_on, looks_on, access, IsStart, Machine, Moves, Reach,
}

-- The most accesses that a call has before it.
abbrev pub to_go : Task → ℕ
to_go (handling req load_hooks) = 25
to_go (handling req (load_unsafe value)) = 24
to_go (handling req (store_hooks value)) = 23
to_go (handling req (install value left)) = length left + 1
to_go (unloading load_registered) = 25
to_go (unloading (clear left)) = length left + 3
to_go (unloading unregister) = 2
to_go (unloading store_registered) = 1
to_go (looking self p) = to_come p

abbrev pub total_to_go : List Task → ℕ
total_to_go [] = 0
total_to_go (t ∷ ts) = to_go t + total_to_go ts

total-append : (xs ys : List Task) → total_to_go (xs ++ ys) ≡ total_to_go xs + total_to_go ys
total-append [] ys = omega arith
total-append (x ∷ xs) ys = omega (arith, total-append xs ys)

judge-shorter :
    (f : Framework) (req : Request) (x : ℕ × ℕ)
    → total_to_go (goes_on (handling req) (judge f req x)) < 25
unfolding judge
judge-shorter f req (error, value) = ground arith

looks_on-to_go :
    (self : ℕ) (o : Option Point) → total_to_go (looks_on self o) ≡ weigh_next to_come o
looks_on-to_go self none = omega arith
looks_on-to_go self (some p) = omega arith

-- Every access brings its call nearer to the return.
access-shorter : (f : Framework) (t : Task) (s : Kext) → total_to_go (access f t s).1 < to_go t
unfolding handle_access unload_access
access-shorter f (handling req load_hooks) s =
    judge-shorter f req (f.sysctl_handle_int req s.hooks_enabled)
access-shorter f (handling req (load_unsafe value)) s = ground arith
access-shorter f (handling req (store_hooks value)) s = omega arith
access-shorter f (handling req (install value [])) s = omega arith
access-shorter f (handling req (install value (h ∷ hs))) s = omega arith
access-shorter f (unloading load_registered) s = ground arith
access-shorter f (unloading (clear [])) s = omega arith
access-shorter f (unloading (clear (h ∷ hs))) s = omega arith
access-shorter f (unloading unregister) s = ground arith
access-shorter f (unloading store_registered) s = omega arith
access-shorter f (looking self p) s =
    omega (arith, looks_on-to_go self (advance self p s).1, to_come-advance self p s)

IsStart-to_go : (t : Task) → IsStart t → to_go t ≤ 25
IsStart-to_go (handling req p) e = rw e (omega arith)
IsStart-to_go (unloading p) e = rw e (omega arith)
IsStart-to_go (looking self p) e = rw e (omega arith)

-- How many calls were made, and how many accesses, in an interleaving.
abbrev pub calls : {f : Framework} {root : Kext} {a : Machine} → Reach f root a → ℕ
calls Reach.here = 0
calls (Reach.moved r (Moves.starts s ts t first)) = suc (calls r)
calls (Reach.moved r (Moves.goes s xs ys t)) = calls r
calls (Reach.moved r (Moves.stores s s' ts step)) = calls r

abbrev pub accesses : {f : Framework} {root : Kext} {a : Machine} → Reach f root a → ℕ
accesses Reach.here = 0
accesses (Reach.moved r (Moves.starts s ts t first)) = accesses r
accesses (Reach.moved r (Moves.goes s xs ys t)) = suc (accesses r)
accesses (Reach.moved r (Moves.stores s s' ts step)) = accesses r

goes-shorter :
    (f : Framework) (xs ys : List Task) (t : Task) (s : Kext)
    → total_to_go (xs ++ ((access f t s).1 ++ ys)) < total_to_go (xs ++ (t ∷ ys))
goes-shorter f xs ys t s = omega (
  arith,
  total-append xs (t ∷ ys),
  total-append xs ((access f t s).1 ++ ys),
  total-append (access f t s).1 ys,
  access-shorter f t s,
)

accesses_bound :
    {f : Framework} {root : Kext} {a : Machine} (r : Reach f root a)
    → accesses r + total_to_go a.tasks ≤ 25 * calls r
accesses_bound Reach.here = omega arith
accesses_bound (Reach.moved r (Moves.starts s ts t first)) =
    omega (arith, accesses_bound r, IsStart-to_go t first)
accesses_bound {f} (Reach.moved r (Moves.goes s xs ys t)) =
    omega (arith, accesses_bound r, goes-shorter f xs ys t s)
accesses_bound (Reach.moved r (Moves.stores s s' ts step)) = omega (arith, accesses_bound r)

module _ (f : Framework) where
  -- So many accesses, of calls that are on the way.
  pub data Accesses (a : Machine) : ℕ → Machine → Type 0 where
    none_yet : Accesses a 0 a
    one_more :
        {n : ℕ} (s : Kext) (xs ys : List Task) (t : Task)
        → Accesses a n (record { kext = s; tasks = xs ++ (t ∷ ys) })
        → Accesses a
            (suc n)
            (record { kext = (access f t s).0; tasks = xs ++ ((access f t s).1 ++ ys) })

  -- The calls can all return, with at most `most` accesses more.
  pub record Ends (a : Machine) (most : ℕ) : Type 0 where
    pub kext : Kext
    pub count : ℕ
    pub way : Accesses a count (record { kext = kext; tasks = [] })
    pub few : count ≤ most

  finishes :
      {a : Machine} {most : ℕ} (m n : ℕ) (s : Kext) (ts : List Task)
      → Accesses a m (record { kext = s; tasks = ts })
      → total_to_go ts ≤ n
      → m + n ≤ most
      → Ends a most
  finishes m n s [] r small room = record { kext = s; count = m; way = r; few = omega arith }
  finishes m zero s (t ∷ ts) r small room = absurd (omega (arith, access-shorter f t s))
  finishes m (suc n) s (t ∷ ts) r small room =
      finishes (suc m) n (access f t s).0 ((access f t s).1 ++ ts) (Accesses.one_more s [] ts t r)
        (omega (arith, goes-shorter f [] ts t s)) (omega arith)

-- No call loops or waits for another one: in every interleaving of requests, unloads and lookups at
-- most 25 accesses are made for each call, and from every state on the way the calls can all return
-- by their own accesses, within what is then left of that number.
pub calls_end :
    {f : Framework} {root : Kext} {a : Machine} (r : Reach f root a)
    → (accesses r ≤ 25 * calls r) × Ends f a (25 * calls r - accesses r)
calls_end {f} {root} {a} r = (
  omega (arith, accesses_bound r),
  finishes f 0 (total_to_go a.tasks) a.kext a.tasks Accesses.none_yet (omega arith)
      (omega (arith, accesses_bound r)),
)
