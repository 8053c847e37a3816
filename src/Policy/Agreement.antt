-- ===== src/Policy/Agreement.antt =====
-- `sysctl sedarwin.hooks` of kext/main.c tells what is installed, while each entry point runs to its
-- end before the next one starts.
use sedarwin.Prelude.{
  ℕ, zero, suc, ◌∷◌, [], none, some, ◌≡◌, ◌≢◌, inl, inr, refl, sym, ◌∙◌, ◌==◌, Bool-cases, nth_bit,
  ==_false,
}
use sedarwin.Ops.{Ops, install_hooks}
use sedarwin.Ops.Slots.{Hook, bit_of, slot, implementation, slot-install_hooks}
use sedarwin.Policy.{
  Kext, Request, Framework, Outcome, Effect, sysctl_hooks_handler, policy_register,
  policy_unregister, loaded,
}
use sedarwin.Policy.Mask.{
  IsConsistent, wanted, sysctl_hooks_handler-IsConsistent, blow_lookup_fuse-IsConsistent,
  policy_register-IsConsistent,
}
use sedarwin.Lookup.{increment, burned, lookup_enter, lookup_burn, lookup_leave}
use sedarwin.Lookup.Outside.{passed, at_once}

-- What happens while the policy is registered, each call as one step: a request to an oid, or a call
-- of the lookup hook.
pub data Whole (f : Framework) (s : Kext) : Kext → Type 0 where
  write_hooks : (req : Request) → Whole f s (sysctl_hooks_handler f req s).left
  write_trace : (v : ℕ) → Whole f s (record s { trace_enabled = v })
  write_unsafe : (v : ℕ) → Whole f s (record s { unsafe_enabled = v })
  write_fuse : (v : ℕ) → Whole f s (record s { lookup_fuse = v })
  write_maxdepth : (v : ℕ) → Whole f s (record s { lookup_maxdepth = v })
  write_recursed : (v : ℕ) → Whole f s (record s { lookup_recursed = v })
  write_count : (v : ℕ) → Whole f s (record s { lookup_count = v })
  lookup : (self : ℕ) → Whole f s (at_once self s)

-- A run that starts with the load of the module.
pub data Life (f : Framework) : Kext → Type 0 where
  loads : Life f (policy_register f loaded).left
  goes_on : {s t : Kext} → Life f s → Whole f s t → Life f t

passed-IsConsistent : (self : ℕ) (s : Kext) → IsConsistent s → IsConsistent (passed self s)
unfolding lookup_enter lookup_burn lookup_leave
passed-IsConsistent self s c = elim (Bool-cases (burned s.lookup_fuse (increment s.lookup_count))) [
  | inl out ↦ rw out (blow_lookup_fuse-IsConsistent s c)
  | inr on ↦ rw on c
]

Whole-IsConsistent : {f : Framework} {s t : Kext} → Whole f s t → IsConsistent s → IsConsistent t
Whole-IsConsistent {f} {s} (Whole.write_hooks req) c = sysctl_hooks_handler-IsConsistent f req s c
Whole-IsConsistent (Whole.write_trace v) c = c
Whole-IsConsistent (Whole.write_unsafe v) c = c
Whole-IsConsistent (Whole.write_fuse v) c = c
Whole-IsConsistent (Whole.write_maxdepth v) c = c
Whole-IsConsistent (Whole.write_recursed v) c = c
Whole-IsConsistent (Whole.write_count v) c = c
Whole-IsConsistent {f} {s} (Whole.lookup self) c = elim (Bool-cases (s.lookup_owner == self)) [
  | inl same ↦ rw same (blow_lookup_fuse-IsConsistent (record s { lookup_recursed = 1 }) c)
  | inr other ↦ rw other (passed-IsConsistent self s c)
]

-- From the load on, after any requests to the oids and any calls of the lookup hook, each hook is
-- installed just if its bit is set in the mask that `sysctl sedarwin.hooks` shows.
pub life-IsConsistent : {f : Framework} {s : Kext} → Life f s → IsConsistent s
life-IsConsistent {f} Life.loads = policy_register-IsConsistent f loaded
life-IsConsistent (Life.goes_on r step) = Whole-IsConsistent step (life-IsConsistent r)

pub nth_bit_zero : (k : ℕ) → nth_bit k 0 ≡ 0
unfolding nth_bit
nth_bit_zero zero = refl
nth_bit_zero (suc k) = nth_bit_zero k

wanted_set :
    (h : Hook) (mask : ℕ) → nth_bit (bit_of h) mask ≡ 1 → wanted h mask ≡ some (implementation h)
wanted_set h mask one = rw one refl

bare_slot : (h : Hook) (ops : Ops) → slot h (install_hooks ops 0) ≡ none
bare_slot h ops = (slot-install_hooks h ops 0).0 ∙ rw (nth_bit_zero (bit_of h)) refl

-- What a failed `mac_policy_unregister` leaves.
pub record Stripped (f : Framework) (s : Kext) (o : Outcome) : Type 0 where
  pub value : o.value ≡ f.kern_failure
  pub told : o.effects ≡ (
      Effect.mac_policy_unregister s.handle
      ∷ Effect.unregister_failed (f.mac_policy_unregister s.handle)
      ∷ [])
  pub stays : o.left.registered ≡ s.registered
  pub bare : (h : Hook) → slot h o.left.ops ≡ none
  pub mask : o.left.hooks_enabled ≡ s.hooks_enabled
  pub lifecycle : o.left.ops.mpo_policy_destroy ≡ s.ops.mpo_policy_destroy
  pub disagrees : (h : Hook) → nth_bit (bit_of h) s.hooks_enabled ≡ 1 → ¬ IsConsistent o.left

-- If the framework refuses to drop the registered policy, the unload fails with KERN_FAILURE and the
-- sysctls stay, but every hook is uninstalled while the mask keeps its bits: if any hook's bit is
-- set, the mask that `sysctl sedarwin.hooks` shows is no longer what is installed.
pub policy_unregister-Stripped :
    (f : Framework) (s : Kext)
    → s.registered ≢ 0
    → f.mac_policy_unregister s.handle ≢ 0
    → Stripped f s (policy_unregister f s)
unfolding policy_unregister
policy_unregister-Stripped f s live error =
    let e1 = ==_false s.registered 0 live in
    let e2 = ==_false (f.mac_policy_unregister s.handle) 0 error in
    rw (e1, e2)
      (record {
        value = refl;
        told = refl;
        stays = refl;
        bare = λ h. bare_slot h s.ops;
        mask = refl;
        lifecycle = (slot-install_hooks Hook.vnode_check_open s.ops 0).3;
        disagrees = λ h one c.
            let clash : some (implementation h) ≡ none =
              sym (wanted_set h s.hooks_enabled one) ∙ sym (c h) ∙ bare_slot h s.ops in
            cc clash;
      })
