-- ===== src/Policy/Quarantine.antt =====
-- The quarantined lookup hook of kext/main.c: what can install it, in any run of the loaded module.
use sedarwin.Prelude.{ℕ, none, ◌≡◌, ◌≢◌, ◌⊎◌, inl, inr, refl, arith, bit_and, ◌==◌, Bool-cases}
use sedarwin.Mask.{hook_unsafe}
use sedarwin.Ops.{install_hooks}
use sedarwin.Policy.{Kext, Request, Framework, sysctl_hooks_handler, policy_unregister}
use sedarwin.Policy.Cases.{MayInstall, installed, handler_cases, unregister_cases}
use sedarwin.Lookup.Steps.{
  Point, load_owner, store_recursed, store_owner, add_depth, load_maxdepth, store_maxdepth,
  add_count, load_trace, load_line, load_fuse, load_fuse_again, clear_slot, load_mask, store_mask,
  sub_depth, clear_owner, advance,
}

-- What can happen to the variables while the module is loaded: a request to one of the oids, one
-- access of the lookup hook, by any thread at any point, or a call of the unload entry.
pub data Step (f : Framework) (s : Kext) : Kext → Type 0 where
  write_hooks : (req : Request) → Step f s (sysctl_hooks_handler f req s).left
  write_trace : (v : ℕ) → Step f s (record s { trace_enabled = v })
  write_unsafe : (v : ℕ) → Step f s (record s { unsafe_enabled = v })
  write_fuse : (v : ℕ) → Step f s (record s { lookup_fuse = v })
  write_maxdepth : (v : ℕ) → Step f s (record s { lookup_maxdepth = v })
  write_recursed : (v : ℕ) → Step f s (record s { lookup_recursed = v })
  write_count : (v : ℕ) → Step f s (record s { lookup_count = v })
  hook_access : (self : ℕ) (p : Point) → Step f s (advance self p s).0
  unload : Step f s (policy_unregister f s).left

abbrev pub IsArmed : Kext → Type 0
IsArmed s = s.ops.mpo_vnode_check_lookup ≢ none

-- A hook that is armed afterwards was so before, unless the second key was turned.
abbrev Excused : Kext → Kext → Type 0
Excused s t = IsArmed t → IsArmed s ⊎ (s.unsafe_enabled ≢ 0)

install-Excused : (mask : ℕ) (s : Kext) → MayInstall mask s → Excused s (installed mask s)
unfolding install_hooks
install-Excused mask s may = elim (Bool-cases (bit_and mask hook_unsafe == 0)) [
  | inl clear ↦ rw clear (λ a. absurd (a refl))
  | inr set ↦ λ a. inr (ground arith)
]

Step-IsArmed :
    {f : Framework} {s t : Kext} → Step f s t → IsArmed t → IsArmed s ⊎ (s.unsafe_enabled ≢ 0)
unfolding advance install_hooks
Step-IsArmed {f} {s} (Step.write_hooks req) =
    handler_cases (Excused s) f s req inl (λ mask may. install-Excused mask s may)
Step-IsArmed (Step.write_trace v) = inl
Step-IsArmed (Step.write_unsafe v) = inl
Step-IsArmed (Step.write_fuse v) = inl
Step-IsArmed (Step.write_maxdepth v) = inl
Step-IsArmed (Step.write_recursed v) = inl
Step-IsArmed (Step.write_count v) = inl
Step-IsArmed (Step.hook_access self load_owner) = inl
Step-IsArmed (Step.hook_access self store_recursed) = inl
Step-IsArmed (Step.hook_access self store_owner) = inl
Step-IsArmed (Step.hook_access self add_depth) = inl
Step-IsArmed (Step.hook_access self (load_maxdepth d)) = inl
Step-IsArmed (Step.hook_access self (store_maxdepth d)) = inl
Step-IsArmed (Step.hook_access self add_count) = inl
Step-IsArmed (Step.hook_access self (load_trace n)) = inl
Step-IsArmed (Step.hook_access self (load_line n)) = inl
Step-IsArmed (Step.hook_access self (load_fuse n)) = inl
Step-IsArmed (Step.hook_access self (load_fuse_again n)) = inl
Step-IsArmed (Step.hook_access self (clear_slot b)) = λ a. absurd (a refl)
Step-IsArmed (Step.hook_access self (load_mask b)) = inl
Step-IsArmed (Step.hook_access self (store_mask b mask)) = inl
Step-IsArmed (Step.hook_access self sub_depth) = inl
Step-IsArmed (Step.hook_access self clear_owner) = inl
Step-IsArmed {f} {s} Step.unload =
    unregister_cases (Excused s) f s inl (λ a. absurd (a refl)) (λ a. absurd (a refl))

pub data Run (f : Framework) (root : Kext) : Kext → Type 0 where
  begun : Run f root root
  then_step : {s t : Kext} → Run f root s → Step f s t → Run f root t

-- `sedarwin.unsafe` was set in a state that the run passed through.
abbrev pub WasUnlocked : {f : Framework} {root s : Kext} → Run f root s → Type 0
WasUnlocked Run.begun = ⊥
WasUnlocked (Run.then_step {s} r step) = (s.unsafe_enabled ≢ 0) ⊎ WasUnlocked r

-- In any run of the loaded module from a state in which the quarantined hook's slot is NULL, the
-- slot is filled at the end only if `sedarwin.unsafe` was set in a state that the run passed through
-- before.
pub quarantine :
    {f : Framework} {root s : Kext}
    → root.ops.mpo_vnode_check_lookup ≡ none
    → (r : Run f root s) → IsArmed s
    → WasUnlocked r
quarantine off Run.begun armed = absurd (armed off)
quarantine off (Run.then_step {s} r step) armed = elim (Step-IsArmed step armed) [
  | inl before ↦ inr (quarantine off r before)
  | inr set ↦ inl set
]
