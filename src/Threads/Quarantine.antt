-- ===== src/Threads/Quarantine.antt =====
-- The quarantined lookup hook of kext/main.c while requests, unloads and lookups run on several
-- processors.
use sedarwin.Prelude.{
  ℕ, Bool, true, false, List, [], ◌∷◌, ◌++◌, none, some, ◌≡◌, ◌≢◌, ◌⊎◌, inl, inr, refl, ap, ◌∙◌,
  arith, bit_and, not, ◌==◌, ◌||◌, Bool-cases,
}
use sedarwin.Mask.{hook_unsafe}
use mathlib.Core.Option.{Option}
use sedarwin.Lookup.Steps.{Point, advance}
use sedarwin.Ops.{Ops, Function}
use sedarwin.Ops.Slots.{Hook}
use sedarwin.Policy.{Kext, Request, Framework}
use sedarwin.Policy.Quarantine.{IsArmed}
use sedarwin.Threads.{
  load_hooks, load_unsafe, store_hooks, install, Task, handling, unloading, looking, IsStart,
  load_registered, clear, unregister, store_registered, judge, handle_access, unload_access,
  goes_on, looks_on, access, Machine, Moves, Reach,
}
use sedarwin.Threads.Writes.{Writes, access-IsAfter, Stores-ops}

-- A request that has passed the tests with the quarantined bit in its value.
abbrev pub arming : Task → Bool
arming (handling req (store_hooks value)) = not (bit_and value hook_unsafe == 0)
arming (handling req (install value left)) = not (bit_and value hook_unsafe == 0)
arming _ = false

abbrev pub any_arming : List Task → Bool
any_arming [] = false
any_arming (t ∷ ts) = arming t || any_arming ts

-- `sedarwin.unsafe` was set in a state that the run passed through.
abbrev pub WasUnlocked : {f : Framework} {root : Kext} {a : Machine} → Reach f root a → Type 0
WasUnlocked Reach.here = ⊥
WasUnlocked (Reach.moved {a} r m) = (a.kext.unsafe_enabled ≢ 0) ⊎ WasUnlocked r

any_arming-append : (xs ys : List Task) → any_arming (xs ++ ys) ≡ (any_arming xs || any_arming ys)
any_arming-append [] ys = refl
any_arming-append (x ∷ xs) ys = ground (arith, any_arming-append xs ys)

Writes-arming :
    {t : Task} {v : Option Function}
    → Writes Hook.vnode_check_lookup t v
    → v ≢ none
    → arming t ≡ true
Writes-arming (Writes.asked req value left) full = ground arith
Writes-arming (Writes.cleared left) full = absurd (full refl)
Writes-arming (Writes.blown self reentered e) full = absurd (full refl)

-- Only a request that has passed the tests fills the slot.
access-IsArmed :
    (f : Framework) (t : Task) (s : Kext) → IsArmed (access f t s).0 → IsArmed s ⊎ (arming t ≡ true)
access-IsArmed f t s armed = elim (access-IsAfter f Hook.vnode_check_lookup t s) [
  | inl same ↦ inl (λ e. armed (same ∙ e))
  | inr written ↦ inr (Writes-arming written armed)
]

-- It passes them only while `sedarwin.unsafe` is set.
judge-arming :
    (f : Framework) (req : Request) (r : ℕ × ℕ)
    → any_arming (goes_on (handling req) (judge f req r)) ≡ false
unfolding judge
judge-arming f req (error, value) = ground arith

looks_on-arming : (self : ℕ) (o : Option Point) → any_arming (looks_on self o) ≡ false
looks_on-arming self none = refl
looks_on-arming self (some p) = refl

access-arming :
    (f : Framework) (t : Task) (s : Kext)
    → any_arming (access f t s).1 ≡ true
    → (s.unsafe_enabled ≢ 0) ⊎ (arming t ≡ true)
unfolding handle_access unload_access
access-arming f (handling req load_hooks) s e =
    cc (e, judge-arming f req (f.sysctl_handle_int req s.hooks_enabled))
access-arming f (handling req (load_unsafe value)) s e = ground arith
access-arming f (handling req (store_hooks value)) s e = ground arith
access-arming f (handling req (install value [])) s e = cc
access-arming f (handling req (install value (h ∷ hs))) s e = ground arith
access-arming f (unloading load_registered) s e = ground arith
access-arming f (unloading (clear [])) s e = cc
access-arming f (unloading (clear (h ∷ hs))) s e = cc
access-arming f (unloading unregister) s e = ground arith
access-arming f (unloading store_registered) s e = cc
access-arming f (looking self p) s e = cc (e, looks_on-arming self (advance self p s).1)

IsStart-arming : (t : Task) → IsStart t → arming t ≡ false
IsStart-arming (handling req p) e = ap (λ q. arming (handling req q)) e
IsStart-arming (unloading p) e = refl
IsStart-arming (looking self p) e = refl

-- Neither is the hook armed nor is a request about to arm it, unless `sedarwin.unsafe` was set.
record Locked {f : Framework} {root : Kext} {a : Machine} (r : Reach f root a) : Type 0 where
  armed : IsArmed a.kext → WasUnlocked r
  pending : any_arming a.tasks ≡ true → WasUnlocked r

reach-Locked :
    {f : Framework} {root : Kext} {a : Machine}
    → root.ops.mpo_vnode_check_lookup ≡ none
    → (r : Reach f root a) → Locked r
reach-Locked off Reach.here = record { armed = λ full. absurd (full off); pending = λ e. cc }
reach-Locked off (Reach.moved r (Moves.starts s ts t first)) =
    let before = reach-Locked off r in
    let quiet = IsStart-arming t first in
    record {
      armed = λ full. inr (before.armed full);
      pending = λ e. inr (before.pending (ground arith));
    }
reach-Locked {f} off (Reach.moved r (Moves.goes s xs ys t)) =
    let before = reach-Locked off r in
    let told = any_arming-append xs (t ∷ ys) in
    let tells = any_arming-append xs ((access f t s).1 ++ ys) in
    let inner = any_arming-append (access f t s).1 ys in
    record {
      armed = λ full. elim (access-IsArmed f t s full) [
        | inl was ↦ inr (before.armed was)
        | inr passed ↦ inr (before.pending (ground arith))
      ];
      pending = λ e. elim (Bool-cases (any_arming (access f t s).1)) [
        | inl here ↦ elim (access-arming f t s here) [
          | inl set ↦ inl set
          | inr passed ↦ inr (before.pending (ground arith))
        ]
        | inr elsewhere ↦ inr (before.pending (ground arith))
      ];
    }
reach-Locked off (Reach.moved r (Moves.stores s s' ts step)) =
    let before = reach-Locked off r in
    record {
      armed = λ full. inr (
          before.armed
            (λ e. full (ap (λ (o : Ops). o.mpo_vnode_check_lookup) (Stores-ops step) ∙ e)));
      pending = λ e. inr (before.pending e);
    }

-- In every interleaving of requests, unloads and lookups by any threads, from a state in which the
-- quarantined hook's slot is NULL and no call is on the way: the slot is filled only if
-- `sedarwin.unsafe` was set in a state that the interleaving passed through before.
pub quarantined :
    {f : Framework} {root : Kext} {a : Machine}
    → root.ops.mpo_vnode_check_lookup ≡ none
    → (r : Reach f root a) → IsArmed a.kext
    → WasUnlocked r
quarantined off r full = (reach-Locked off r).armed full
