-- ===== src/Threads/Writes.antt =====
-- Which accesses of the calls of kext/main.c and kext/vnode.c store to a member of the ops vector, and what.
use sedarwin.Prelude.{
  ℕ, Bool, ==_iff, sym, ◌∙◌, subst, List, [], ◌∷◌, Option, none, ◌≡◌, ◌⊎◌, inl, inr, refl, ◌==◌,
  Bool-cases,
}
use sedarwin.Ops.{Function}
use sedarwin.Ops.Slots.{Hook, bit_of, slot}
use sedarwin.Ops.Stores.{chosen, slot-store, slot-store-chosen}
use sedarwin.Policy.{Kext, Request, Framework}
use sedarwin.Lookup.Steps.{
  load_owner, store_recursed, store_owner, add_depth, load_maxdepth, store_maxdepth, add_count,
  load_trace, load_line, load_fuse, load_fuse_again, clear_slot, load_mask, store_mask, sub_depth,
  clear_owner, advance,
}
use sedarwin.Threads.{
  load_hooks, load_unsafe, store_hooks, install, load_registered, clear, unregister,
  store_registered, Task, handling, unloading, looking, handle_access, unload_access, access,
  Stores,
}

-- An access that may store to a hook's member, with what it then stores.
pub data Writes (h : Hook) : Task → Option Function → Type 0 where
  asked :
      (req : Request) (value : ℕ) (left : List Hook)
      → Writes h (handling req (install value left)) (chosen value h)
  cleared : (left : List Hook) → Writes h (unloading (clear left)) (chosen 0 h)
  blown :
      (self : ℕ) (reentered : Bool)
      → bit_of h ≡ 4
      → Writes h (looking self (clear_slot reentered)) none

-- The member after an access: as before, or written.
abbrev pub IsAfter : Framework → Hook → Task → Kext → Type 0
IsAfter f h t s =
    (slot h (access f t s).0.ops ≡ slot h s.ops) ⊎ Writes h t (slot h (access f t s).0.ops)

install-IsAfter :
    (f : Framework) (h : Hook) (req : Request) (value : ℕ) (left : List Hook) (s : Kext)
    → IsAfter f h (handling req (install value left)) s
unfolding handle_access
install-IsAfter f h req value [] s = inl refl
install-IsAfter f h req value (g ∷ gs) s = elim (Bool-cases (bit_of h == bit_of g)) [
  | inl here ↦ inr (
      subst (Writes h (handling req (install value (g ∷ gs))))
        (sym (slot-store-chosen h g value s.ops ∙ rw here refl)) (Writes.asked req value (g ∷ gs)))
  | inr away ↦ inl (slot-store-chosen h g value s.ops ∙ rw away refl)
]

clear-IsAfter :
    (f : Framework) (h : Hook) (left : List Hook) (s : Kext)
    → IsAfter f h (unloading (clear left)) s
unfolding unload_access
clear-IsAfter f h [] s = inl refl
clear-IsAfter f h (g ∷ gs) s = elim (Bool-cases (bit_of h == bit_of g)) [
  | inl here ↦ inr (
      subst (Writes h (unloading (clear (g ∷ gs))))
        (sym (slot-store-chosen h g 0 s.ops ∙ rw here refl)) (Writes.cleared (g ∷ gs)))
  | inr away ↦ inl (slot-store-chosen h g 0 s.ops ∙ rw away refl)
]

clear_slot-IsAfter :
    (f : Framework) (h : Hook) (self : ℕ) (reentered : Bool) (s : Kext)
    → IsAfter f h (looking self (clear_slot reentered)) s
unfolding advance
clear_slot-IsAfter f h self reentered s =
    let stored = slot-store h Hook.vnode_check_lookup none s.ops in
    elim (Bool-cases (bit_of h == 4)) [
      | inl here ↦ inr (
          subst (Writes h (looking self (clear_slot reentered))) (sym (stored ∙ rw here refl))
            (Writes.blown self reentered ((==_iff (bit_of h) 4).0 here)))
      | inr away ↦ inl (stored ∙ rw away refl)
    ]

-- Every access of every call.
pub access-IsAfter : (f : Framework) (h : Hook) (t : Task) (s : Kext) → IsAfter f h t s
unfolding handle_access unload_access advance
access-IsAfter f h (handling req load_hooks) s = inl refl
access-IsAfter f h (handling req (load_unsafe value)) s = inl refl
access-IsAfter f h (handling req (store_hooks value)) s = inl refl
access-IsAfter f h (handling req (install value left)) s = install-IsAfter f h req value left s
access-IsAfter f h (unloading load_registered) s = inl refl
access-IsAfter f h (unloading (clear left)) s = clear-IsAfter f h left s
access-IsAfter f h (unloading unregister) s = inl refl
access-IsAfter f h (unloading store_registered) s = inl refl
access-IsAfter f h (looking self load_owner) s = inl refl
access-IsAfter f h (looking self store_recursed) s = inl refl
access-IsAfter f h (looking self store_owner) s = inl refl
access-IsAfter f h (looking self add_depth) s = inl refl
access-IsAfter f h (looking self (load_maxdepth d)) s = inl refl
access-IsAfter f h (looking self (store_maxdepth d)) s = inl refl
access-IsAfter f h (looking self add_count) s = inl refl
access-IsAfter f h (looking self (load_trace n)) s = inl refl
access-IsAfter f h (looking self (load_line n)) s = inl refl
access-IsAfter f h (looking self (load_fuse n)) s = inl refl
access-IsAfter f h (looking self (load_fuse_again n)) s = inl refl
access-IsAfter f h (looking self (clear_slot reentered)) s = clear_slot-IsAfter f h self reentered s
access-IsAfter f h (looking self (load_mask reentered)) s = inl refl
access-IsAfter f h (looking self (store_mask reentered mask)) s = inl refl
access-IsAfter f h (looking self sub_depth) s = inl refl
access-IsAfter f h (looking self clear_owner) s = inl refl

-- The request to another oid does not touch the vector.
pub Stores-ops : {s s' : Kext} → Stores s s' → s'.ops ≡ s.ops
Stores-ops (Stores.write_trace v) = refl
Stores-ops (Stores.write_unsafe v) = refl
Stores-ops (Stores.write_fuse v) = refl
Stores-ops (Stores.write_maxdepth v) = refl
Stores-ops (Stores.write_recursed v) = refl
Stores-ops (Stores.write_count v) = refl
