-- ===== src/Threads/Slots.antt =====
-- What a dispatch can read in the ops vector while calls of kext/main.c and kext/vnode.c are on the way.
use sedarwin.Prelude.{
  ℕ, Option, none, some, ◌≡◌, ◌∙◌, ◌⊎◌, inl, inr, refl, subst, sym, ◌==◌, Bool-cases, bit_and,
  nth_bit,
}
use sedarwin.Ops.{Ops, Function, install_hooks, install_lifecycle}
use sedarwin.Ops.Slots.{Hook, slot, implementation, slot-install_hooks, bit_of}
use sedarwin.Policy.Cases.{register_cases}
use sedarwin.Ops.Stores.{chosen, flag_of}
use sedarwin.Policy.{Kext, Framework, loaded, policy_register}
use sedarwin.Threads.{Task, access, Machine, Moves, Reach}
use sedarwin.Threads.Writes.{Writes, access-IsAfter, Stores-ops}

-- NULL, or the function that belongs to the hook.
abbrev pub IsOwn : Hook → Option Function → Type 0
IsOwn h v = (v ≡ none) ⊎ (v ≡ some (implementation h))

chosen-IsOwn : (h : Hook) (value : ℕ) → IsOwn h (chosen value h)
chosen-IsOwn h value = elim (Bool-cases (bit_and value (flag_of h) == 0)) [
  | inl clear ↦ rw clear (inl refl)
  | inr set ↦ rw set (inr refl)
]

Writes-IsOwn : {h : Hook} {t : Task} {v : Option Function} → Writes h t v → IsOwn h v
Writes-IsOwn {h} (Writes.asked req value left) = chosen-IsOwn h value
Writes-IsOwn {h} (Writes.cleared left) = chosen-IsOwn h 0
Writes-IsOwn (Writes.blown self reentered e) = inl refl

access-IsOwn :
    (f : Framework) (h : Hook) (t : Task) (s : Kext)
    → IsOwn h (slot h s.ops)
    → IsOwn h (slot h (access f t s).0.ops)
access-IsOwn f h t s own = elim (access-IsAfter f h t s) [
  | inl same ↦ subst (IsOwn h) (sym same) own
  | inr written ↦ Writes-IsOwn written
]

Moves-IsOwn :
    {f : Framework} {a b : Machine} (h : Hook)
    → Moves f a b
    → IsOwn h (slot h a.kext.ops)
    → IsOwn h (slot h b.kext.ops)
Moves-IsOwn h (Moves.starts s ts t first) own = own
Moves-IsOwn {f} h (Moves.goes s xs ys t) own = access-IsOwn f h t s own
Moves-IsOwn h (Moves.stores s s' ts step) own =
    subst (λ (o : Ops). IsOwn h (slot h o)) (sym (Stores-ops step)) own

installed-IsOwn : (h : Hook) (ops : Ops) (mask : ℕ) → IsOwn h (slot h (install_hooks ops mask))
installed-IsOwn h ops mask = elim (Bool-cases (nth_bit (bit_of h) mask == 1)) [
  | inl set ↦ inr ((slot-install_hooks h ops mask).0 ∙ rw set refl)
  | inr clear ↦ inl ((slot-install_hooks h ops mask).0 ∙ rw clear refl)
]

loaded-IsOwn : (f : Framework) (h : Hook) → IsOwn h (slot h (policy_register f loaded).left.ops)
loaded-IsOwn f h =
    let own = installed-IsOwn h (install_lifecycle loaded.ops) loaded.hooks_enabled in
    register_cases (λ s. IsOwn h (slot h s.ops)) f loaded (λ handle. own) (λ handle. own)

-- In every interleaving each member is NULL or its own function, between any two accesses.
pub reach-IsOwn :
    {f : Framework} {a : Machine} (h : Hook)
    → Reach f (policy_register f loaded).left a
    → IsOwn h (slot h a.kext.ops)
reach-IsOwn {f} h Reach.here = loaded-IsOwn f h
reach-IsOwn h (Reach.moved r m) = Moves-IsOwn h m (reach-IsOwn h r)
