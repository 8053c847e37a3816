-- ===== src/Threads/Steady.antt =====
-- A change of `sedarwin.hooks` of kext/main.c does not disturb the hooks that it does not change, at no
-- moment.
use sedarwin.Prelude.{
  ℕ, Option, none, some, ◌≡◌, ◌≢◌, ◌∙◌, ◌⊎◌, inl, inr, refl, sym, ap, ◌==◌, if◌then◌else◌, nth_bit,
}
use sedarwin.Ops.{Ops, Function, zeroed, install_hooks}
use sedarwin.Ops.Slots.{Hook, vnode_check_open, bit_of, slot, implementation, slot-install_hooks}
use sedarwin.Ops.Stores.{chosen}
use sedarwin.Policy.{Kext, Framework}
use sedarwin.Policy.Agreement.{nth_bit_zero}
use sedarwin.Lookup.Steps.{clear_slot}
use sedarwin.Threads.{install, clear, Task, handling, unloading, looking, Machine, Moves, Reach}
use sedarwin.Threads.Writes.{Writes, access-IsAfter, Stores-ops}

-- What the member of a hook holds whose bit is `bit`.
abbrev pub at_bit : Hook → ℕ → Option Function
at_bit h bit = if bit == 1 then some (implementation h) else none

-- The next access of a call does not ask for another bit of the hook.
abbrev pub Agrees : Hook → ℕ → Task → Type 0
Agrees h bit (handling req (install value left)) = nth_bit (bit_of h) value ≡ bit
Agrees h bit (unloading (clear left)) = bit ≡ 0
Agrees h bit (looking self (clear_slot reentered)) = (bit_of h ≢ 4) ⊎ (bit ≡ 0)
Agrees h bit _ = Unit {0}

-- Nor does any access of the interleaving.
abbrev pub IsUnasked :
    {f : Framework} {root : Kext} {a : Machine} → Hook → ℕ → Reach f root a → Type 0
IsUnasked h bit Reach.here = Unit {0}
IsUnasked h bit (Reach.moved r (Moves.starts s ts t first)) = IsUnasked h bit r
IsUnasked h bit (Reach.moved r (Moves.goes s xs ys t)) = Agrees h bit t × IsUnasked h bit r
IsUnasked h bit (Reach.moved r (Moves.stores s s' ts step)) = IsUnasked h bit r

slot-chosen : (h : Hook) (ops : Ops) (mask : ℕ) → slot h (install_hooks ops mask) ≡ chosen mask h
unfolding install_hooks
slot-chosen vnode_check_open ops mask = refl
slot-chosen _ ops mask = refl

pub chosen-at_bit : (h : Hook) (mask : ℕ) → chosen mask h ≡ at_bit h (nth_bit (bit_of h) mask)
chosen-at_bit h mask = sym (slot-chosen h zeroed mask) ∙ (slot-install_hooks h zeroed mask).0

Writes-at_bit :
    (h : Hook) (bit : ℕ) {t : Task} {v : Option Function}
    → Writes h t v
    → Agrees h bit t
    → v ≡ at_bit h bit
Writes-at_bit h bit (Writes.asked req value left) same = chosen-at_bit h value ∙ ap (at_bit h) same
Writes-at_bit h bit (Writes.cleared left) off =
    chosen-at_bit h 0 ∙ ap (at_bit h) (nth_bit_zero (bit_of h) ∙ sym off)
Writes-at_bit h bit (Writes.blown self reentered four) (inl other) = absurd (other four)
Writes-at_bit h bit (Writes.blown self reentered four) (inr off) = ap (at_bit h) (sym off)

-- A hook that no access on the way asks otherwise for is never disturbed: from a state in which it is
-- installed, or is not, it stays so between any two accesses, whatever other hooks are put in and
-- taken out by requests, unloads and lookups of any threads. So a write of `sedarwin.hooks` that keeps
-- a hook's bit does not take the hook out for a moment, and one that keeps it clear does not put it
-- in.
pub steady :
    {f : Framework} {root : Kext} {a : Machine} (h : Hook) (bit : ℕ)
    → slot h root.ops ≡ at_bit h bit
    → (r : Reach f root a) → IsUnasked h bit r
    → slot h a.kext.ops ≡ at_bit h bit
steady h bit start Reach.here quiet = start
steady h bit start (Reach.moved r (Moves.starts s ts t first)) quiet = steady h bit start r quiet
steady {f} h bit start (Reach.moved r (Moves.goes s xs ys t)) quiet =
    elim (access-IsAfter f h t s) [
      | inl same ↦ same ∙ steady h bit start r quiet.1
      | inr written ↦ Writes-at_bit h bit written quiet.0
    ]
steady h bit start (Reach.moved r (Moves.stores s s' ts step)) quiet =
    ap (slot h) (Stores-ops step) ∙ steady h bit start r quiet
