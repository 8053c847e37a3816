-- ===== src/Policy/Spec.antt =====
-- What kext/main.c promises an operator, without masks, slots and counters: a set of hooks and a second
-- key; and that the module keeps the promise.
use sedarwin.Prelude.{
  ℕ, Bool, false, none, some, ◌≡◌, ◌⊎◌, refl, ap, arith, inl, inr, not, ◌==◌, ◌&&◌, if◌then◌else◌,
  nth_bit, nth_bit-lt, bit_and, Bool-cases,
}
use mathlib.Core.Path.{fun_ext}
use sedarwin.Mask.{complement, hook_vnode_lookup}
use sedarwin.Mask.Digits.{bit_and-quarantined, nth_bit-cleared}
use sedarwin.Ops.Slots.{Hook, bit_of, slot, implementation}
use sedarwin.Policy.{Kext, Framework, blow_lookup_fuse, policy_register, loaded}
use sedarwin.Policy.Cases.{MayInstall, installed, handler_cases, register_cases}
use sedarwin.Policy.Mask.{bit_of-lt}
use sedarwin.Policy.Agreement.{nth_bit_zero, Life, Whole, life-IsConsistent}
use sedarwin.Lookup.{increment, burned, lookup_enter, lookup_burn, lookup_leave}
use sedarwin.Lookup.Outside.{passed}

-- The abstract policy.
pub record Promise : Type 0 where
  pub enabled : Hook → Bool
  pub second_key : Bool

abbrev pub quarantined : Hook → Bool
quarantined h = bit_of h == 4

-- A set of hooks is chosen; the quarantined one only while the second key is turned.
pub record Chosen (a b : Promise) : Type 0 where
  pub allowed : (b.enabled Hook.vnode_check_lookup && not a.second_key) ≡ false
  pub key : b.second_key ≡ a.second_key

-- The quarantined hook takes itself out.
abbrev pub blown : Promise → Promise
blown a = record a { enabled = λ h. if quarantined h then false else a.enabled h }

-- What each request and each lookup may do to it.
abbrev pub Allowed : {f : Framework} {s t : Kext} → Whole f s t → Promise → Promise → Type 0
Allowed (Whole.write_hooks req) a b = (b ≡ a) ⊎ Chosen a b
Allowed (Whole.write_trace v) a b = b ≡ a
Allowed (Whole.write_unsafe v) a b = b ≡ record a { second_key = not (v == 0) }
Allowed (Whole.write_fuse v) a b = b ≡ a
Allowed (Whole.write_maxdepth v) a b = b ≡ a
Allowed (Whole.write_recursed v) a b = b ≡ a
Allowed (Whole.write_count v) a b = b ≡ a
Allowed (Whole.lookup self) a b = (b ≡ a) ⊎ (b ≡ blown a)

abbrev pub asks : ℕ → Hook → Bool
asks mask h = nth_bit (bit_of h) mask == 1

-- What is to be seen of a state.
abbrev pub view : Kext → Promise
view s = record { enabled = asks s.hooks_enabled; second_key = not (s.unsafe_enabled == 0) }

installed-Chosen :
    (mask : ℕ) (s : Kext) → MayInstall mask s → Chosen (view s) (view (installed mask s))
installed-Chosen mask s may = record {
  allowed = ground (arith, bit_and-quarantined mask, nth_bit-lt 4 mask);
  key = refl;
}

asks-cleared :
    (mask : ℕ)
    → asks (bit_and mask (complement hook_vnode_lookup))
      ≡ (λ h. if quarantined h then false else asks mask h)
asks-cleared mask = fun_ext λ h. ground (arith, nth_bit-cleared (bit_of h) mask (bit_of-lt h))

view-blown : (s : Kext) → view (blow_lookup_fuse s) ≡ blown (view s)
unfolding blow_lookup_fuse
view-blown s =
    ap (λ (e : Hook → Bool). record { enabled = e; second_key = not (s.unsafe_enabled == 0) })
      (asks-cleared s.hooks_enabled)

abbrev Kept : Kext → Kext → Type 0
Kept s t = (view t ≡ view s) ⊎ (view t ≡ blown (view s))

passed-Kept : (self : ℕ) (s : Kext) → Kept s (passed self s)
unfolding lookup_enter lookup_burn lookup_leave
passed-Kept self s = elim (Bool-cases (burned s.lookup_fuse (increment s.lookup_count))) [
  | inl out ↦ rw out (inr (view-blown s))
  | inr on ↦ rw on (inl refl)
]

-- Each entry point does what it may do.
Whole-Allowed : {f : Framework} {s t : Kext} (w : Whole f s t) → Allowed w (view s) (view t)
Whole-Allowed {f} {s} (Whole.write_hooks req) =
    handler_cases (λ t. (view t ≡ view s) ⊎ Chosen (view s) (view t)) f s req (inl refl)
      (λ mask may. inr (installed-Chosen mask s may))
Whole-Allowed (Whole.write_trace v) = refl
Whole-Allowed (Whole.write_unsafe v) = refl
Whole-Allowed (Whole.write_fuse v) = refl
Whole-Allowed (Whole.write_maxdepth v) = refl
Whole-Allowed (Whole.write_recursed v) = refl
Whole-Allowed (Whole.write_count v) = refl
Whole-Allowed {f} {s} (Whole.lookup self) = elim (Bool-cases (s.lookup_owner == self)) [
  | inl same ↦ rw same (inr (view-blown (record s { lookup_recursed = 1 })))
  | inr other ↦ rw other (passed-Kept self s)
]

-- No hook, and the second key not turned.
abbrev pub nothing : Promise
nothing = record { enabled = λ h. false; second_key = false }

view-loaded : view loaded ≡ nothing
view-loaded =
    ap (λ (e : Hook → Bool). record { enabled = e; second_key = false })
      (fun_ext λ h. rw (nth_bit_zero (bit_of h)) refl)

-- The abstract policy starts with nothing, and follows the run step by step.
abbrev pub Follows : {f : Framework} {s : Kext} → Life f s → Type 0
Follows {f} Life.loads = view (policy_register f loaded).left ≡ nothing
Follows (Life.goes_on {s} {t} r w) = Follows r × Allowed w (view s) (view t)

life-Follows : {f : Framework} {s : Kext} (r : Life f s) → Follows r
life-Follows {f} Life.loads =
    register_cases (λ t. view t ≡ nothing) f loaded (λ handle. view-loaded) (λ handle. view-loaded)
life-Follows (Life.goes_on r w) = (life-Follows r, Whole-Allowed w)

-- A state shows the abstract policy.
pub record Shows (s : Kext) (a : Promise) : Type 0 where
  pub seen : (h : Hook) → a.enabled h ≡ (nth_bit (bit_of h) s.hooks_enabled == 1)
  pub slots : (h : Hook) → slot h s.ops ≡ (if a.enabled h then some (implementation h) else none)
  pub key : a.second_key ≡ not (s.unsafe_enabled == 0)

-- The module implements the abstract policy, a set of hooks and a second key. After the load no hook
-- is enabled and the key is not turned, and the abstract policy then follows every run step by step: a
-- request to `sedarwin.hooks` chooses a set of hooks, with the quarantined one only while the key is
-- turned, or changes nothing; one to `sedarwin.unsafe` turns the key; a lookup changes nothing or
-- takes the quarantined hook out; the other requests change nothing. At the end the set is what
-- is installed and what `sysctl sedarwin.hooks` shows, and the key is `sedarwin.unsafe`.
pub life-Promised : {f : Framework} {s : Kext} (r : Life f s) → Follows r × Shows s (view s)
life-Promised r =
    (life-Follows r, record { seen = λ h. refl; slots = life-IsConsistent r; key = refl })
