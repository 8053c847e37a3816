-- ===== src/Threads/Change.antt =====
-- What an access of a call of kext/main.c or kext/vnode.c does to a change of the mask and the ops vector
-- that is under way.
use sedarwin.Prelude.{
  bit_and, ℕ, ◌+◌, ◌≤◌, Bool, true, false, List, [], ◌∷◌, ◌++◌, Option, none, some, ◌≡◌, ◌∙◌, refl,
  ap, sym, subst, arith, ◌==◌, ◌||◌, if◌then◌else◌, inl, inr, Bool-cases,
}
use sedarwin.Ops.{Ops}
use sedarwin.Ops.Slots.{Hook, slot, bit_of}
use sedarwin.Ops.Stores.{store, chosen, statements, slot-store, slot-store-chosen}
use sedarwin.Policy.{Kext, Request, Framework}
use sedarwin.Policy.Mask.{wanted, wanted-cleared}
use sedarwin.Lookup.Steps.{
  load_owner, store_recursed, store_owner, add_depth, load_maxdepth, store_maxdepth, add_count,
  load_trace, load_line, load_fuse, load_fuse_again, clear_slot, load_mask, store_mask, sub_depth,
  clear_owner, advance,
}
use sedarwin.Threads.{
  load_hooks, load_unsafe, store_hooks, install, Task, handling, unloading, looking, judge, goes_on,
  handle_access, access,
}
use sedarwin.Threads.Steady.{chosen-at_bit}
use sedarwin.Threads.Single.{writers, writer, writer-idle, writer-middle, beside_writer}

-- The statement for a hook is among those that are left.
abbrev pub pending : Hook → List Hook → Bool
pending h [] = false
pending h (g ∷ gs) = (bit_of h == bit_of g) || pending h gs

pub statements-pending : (h : Hook) → pending h statements ≡ true
statements-pending h = ground arith

-- What holds of the vector and the mask while a call is in the middle of a change, or none is.
abbrev pub State : Option Task → Ops → ℕ → Type 0
State none ops mask = (h : Hook) → slot h ops ≡ wanted h mask
State (some (handling req (install value left))) ops mask =
    (mask ≡ value) × ((h : Hook) → pending h left ≡ false → slot h ops ≡ wanted h value)
State (some (looking self (load_mask reentered))) ops mask =
    (h : Hook) → slot h ops ≡ (if bit_of h == 4 then none else wanted h mask)
State (some (looking self (store_mask reentered value))) ops mask =
    (value ≡ bit_and mask 0xffff_ffef)
    × ((h : Hook) → slot h ops ≡ (if bit_of h == 4 then none else wanted h mask))
State (some _) ops mask = ⊥

-- An unload leaves the mask alone on purpose: it takes no part.
abbrev pub IsKept : Task → Type 0
IsKept (unloading p) = ⊥
IsKept _ = Unit {0}

-- An access has to do with a change, or it has not.
data Change (f : Framework) (t : Task) (s : Kext) : Type 0 where
  idle :
      writers (t ∷ []) ≡ 0
      → writers (access f t s).1 ≡ 0
      → (access f t s).0.ops ≡ s.ops
      → (access f t s).0.hooks_enabled ≡ s.hooks_enabled
      → Change f t s
  busy :
      1 ≤ writers (t ∷ []) + writers (access f t s).1
      → (State (writer (t ∷ [])) s.ops s.hooks_enabled
          → State (writer (access f t s).1) (access f t s).0.ops (access f t s).0.hooks_enabled)
      → Change f t s

judge-idle :
    (f : Framework) (req : Request) (x : ℕ × ℕ)
    → writers (goes_on (handling req) (judge f req x)) ≡ 0
unfolding judge
judge-idle f req (error, value) = ground arith

-- One statement.
stored :
    (g h : Hook) (gs : List Hook) (value : ℕ) (ops : Ops)
    → ((k : Hook) → pending k (g ∷ gs) ≡ false → slot k ops ≡ wanted k value)
    → pending h gs ≡ false
    → slot h (store g (chosen value g) ops) ≡ wanted h value
stored g h gs value ops before done = elim (Bool-cases (bit_of h == bit_of g)) [
  | inl here ↦ slot-store-chosen h g value ops ∙ rw here (chosen-at_bit h value)
  | inr away ↦ slot-store-chosen h g value ops ∙ rw away (before h (rw away done))
]

install-Change :
    (f : Framework) (req : Request) (value : ℕ) (left : List Hook) (s : Kext)
    → Change f (handling req (install value left)) s
unfolding handle_access
install-Change f req value [] s = Change.idle refl refl refl refl
install-Change f req value (g ∷ []) s =
    Change.busy (omega arith)
      (λ held h. stored g h [] value s.ops held.1 refl ∙ ap (wanted h) (sym held.0))
install-Change f req value (g ∷ k ∷ gs) s =
    Change.busy (omega arith)
      (λ held. (held.0, (λ h done. stored g h (k ∷ gs) value s.ops held.1 done)))

-- The hook is out of the vector, and now of the mask.
removed :
    (s : Kext) (value : ℕ)
    → value ≡ bit_and s.hooks_enabled 0xffff_ffef
    → ((h : Hook) → slot h s.ops ≡ (if bit_of h == 4 then none else wanted h s.hooks_enabled))
    → (h : Hook) → slot h s.ops ≡ wanted h value
removed s value e held h = held h ∙ sym (wanted-cleared h s.hooks_enabled) ∙ ap (wanted h) (sym e)

access-Change : (f : Framework) (t : Task) (s : Kext) → IsKept t → Change f t s
unfolding handle_access advance
access-Change f (handling req load_hooks) s kept =
    Change.idle refl (judge-idle f req (f.sysctl_handle_int req s.hooks_enabled)) refl refl
access-Change f (handling req (load_unsafe value)) s kept =
    Change.idle refl (ground arith) refl refl
access-Change f (handling req (store_hooks value)) s kept =
    Change.busy (omega arith)
      (λ held. (refl, (λ h none_left. ground (arith, statements-pending h))))
access-Change f (handling req (install value left)) s kept = install-Change f req value left s
access-Change f (unloading p) s kept = absurd kept
access-Change f (looking self load_owner) s kept = Change.idle refl (ground arith) refl refl
access-Change f (looking self store_recursed) s kept = Change.idle refl refl refl refl
access-Change f (looking self store_owner) s kept = Change.idle refl refl refl refl
access-Change f (looking self add_depth) s kept = Change.idle refl refl refl refl
access-Change f (looking self (load_maxdepth d)) s kept = Change.idle refl (ground arith) refl refl
access-Change f (looking self (store_maxdepth d)) s kept = Change.idle refl refl refl refl
access-Change f (looking self add_count) s kept = Change.idle refl refl refl refl
access-Change f (looking self (load_trace n)) s kept = Change.idle refl (ground arith) refl refl
access-Change f (looking self (load_line n)) s kept = Change.idle refl (ground arith) refl refl
access-Change f (looking self (load_fuse n)) s kept = Change.idle refl (ground arith) refl refl
access-Change f (looking self (load_fuse_again n)) s kept =
    Change.idle refl (ground arith) refl refl
access-Change f (looking self (clear_slot reentered)) s kept = Change.busy (omega arith) (λ held h.
    slot-store h Hook.vnode_check_lookup none s.ops
    ∙ ap (λ o. if bit_of h == 4 then none else o) (held h))
access-Change f (looking self (load_mask reentered)) s kept =
    Change.busy (omega arith) (λ held. (refl, held))
access-Change f (looking self (store_mask true value)) s kept =
    Change.busy (omega arith) (λ held. removed s value held.0 held.1)
access-Change f (looking self (store_mask false value)) s kept =
    Change.busy (omega arith) (λ held. removed s value held.0 held.1)
access-Change f (looking self sub_depth) s kept = Change.idle refl refl refl refl
access-Change f (looking self clear_owner) s kept = Change.idle refl refl refl refl

-- The access of a call that is not an unload.
pub goes-State :
    (f : Framework) (xs ys : List Task) (t : Task) (s : Kext)
    → IsKept t
    → writers (xs ++ (t ∷ ys)) ≤ 1
    → writers (xs ++ ((access f t s).1 ++ ys)) ≤ 1
    → State (writer (xs ++ (t ∷ ys))) s.ops s.hooks_enabled
    → State
        (writer (xs ++ ((access f t s).1 ++ ys)))
        (access f t s).0.ops
        (access f t s).0.hooks_enabled
goes-State f xs ys t s kept few few_after held = elim (access-Change f t s kept) [
  | Change.idle quiet still ops mask ↦
      rw (ops, mask, sym (writer-idle xs (t ∷ []) (access f t s).1 ys quiet still)) held
  | Change.busy some_writer step ↦
      let beside = beside_writer xs (t ∷ []) (access f t s).1 ys few few_after some_writer in
      rw (writer-middle xs (access f t s).1 ys beside.0 beside.1) (
        step (
          subst (λ w. State w s.ops s.hooks_enabled)
            (writer-middle xs (t ∷ []) ys beside.0 beside.1) held))
]
