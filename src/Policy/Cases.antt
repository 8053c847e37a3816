-- ===== src/Policy/Cases.antt =====
-- What the entry points of kext/main.c can leave, one premise for each way through them.
use sedarwin.Prelude.{ℕ, false, ◌≡◌, inl, inr, bit_and, bit_or, not, ◌==◌, ◌&&◌, ◌||◌, Bool-cases}
use sedarwin.Mask.{hook_all, hook_unsafe, complement}
use sedarwin.Ops.{install_hooks, install_lifecycle}
use sedarwin.Policy.{
  Kext, Request, Framework, accept_hooks, sysctl_hooks_handler, policy_register, policy_unregister,
}

abbrev pub installed : ℕ → Kext → Kext
installed mask s = record s { hooks_enabled = mask; ops = install_hooks s.ops mask }

-- The mask may be installed.
abbrev pub MayInstall : ℕ → Kext → Type 0
MayInstall mask s = (not (bit_and mask hook_unsafe == 0) && (s.unsafe_enabled == 0)) ≡ false

abbrev pub cleared : Kext → Kext
cleared s = record s { ops = install_hooks s.ops 0 }

abbrev pub stored : Kext → Kext
stored s = record s { ops = install_hooks (install_lifecycle s.ops) s.hooks_enabled }

module _ {ℓ} (P : Kext → Type ℓ) (f : Framework) (s : Kext) where
  accept_hooks_cases :
      (mask : ℕ) → P s → (MayInstall mask s → P (installed mask s)) → P (accept_hooks f mask s).left
  unfolding accept_hooks
  accept_hooks_cases mask same new =
      elim (Bool-cases (not (bit_and mask (complement (bit_or hook_all hook_unsafe)) == 0))) [
        | inl high ↦ rw high same
        | inr low ↦
            elim (Bool-cases (not (bit_and mask hook_unsafe == 0) && (s.unsafe_enabled == 0))) [
              | inl locked ↦ rw (low, locked) same
              | inr free ↦ rw (low, free) (new free)
            ]
      ]

  -- The request is refused or only read, or a mask is installed.
  pub handler_cases :
      (req : Request)
      → P s
      → ((mask : ℕ) → MayInstall mask s → P (installed mask s))
      → P (sysctl_hooks_handler f req s).left
  unfolding sysctl_hooks_handler
  handler_cases req same new =
      elim (Bool-cases
        (not ((f.sysctl_handle_int req s.hooks_enabled).0 == 0) || (req.newptr == 0))) [
          | inl away ↦ rw away same
          | inr go ↦
              let mask : ℕ = (f.sysctl_handle_int req s.hooks_enabled).1 in
              rw go (accept_hooks_cases mask same (new mask))
        ]

  -- There was nothing to unload, or the framework refuses, or it lets the policy go.
  pub unregister_cases :
      P s
      → P (cleared s)
      → P (record (cleared s) { registered = 0 })
      → P (policy_unregister f s).left
  unfolding policy_unregister
  unregister_cases same refused gone = elim (Bool-cases (s.registered == 0)) [
    | inl never ↦ rw never same
    | inr live ↦ elim (Bool-cases (not (f.mac_policy_unregister s.handle == 0))) [
      | inl failed ↦ rw (live, failed) refused
      | inr fine ↦ rw (live, fine) gone
    ]
  ]

  -- The framework refuses the policy, or takes it.
  pub register_cases :
      ((handle : ℕ) → P (record (stored s) { handle = handle }))
      → ((handle : ℕ) → P (record (stored s) { handle = handle; registered = 1 }))
      → P (policy_register f s).left
  unfolding policy_register
  register_cases refused taken = elim (Bool-cases (not (f.mac_policy_register.0 == 0))) [
    | inl failed ↦ rw failed (refused f.mac_policy_register.1)
    | inr fine ↦ rw fine (taken f.mac_policy_register.1)
  ]
