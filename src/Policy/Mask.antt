-- ===== src/Policy/Mask.antt =====
-- `sedarwin.hooks` of kext/main.c: which values the handler takes, and that the mask that can be read
-- back is the mask that is installed.
use sedarwin.Prelude.{
  ℕ, ◌^◌, ◌<◌, ◌≤◌, [], ◌∷◌, Option, none, some, ◌≡◌, ◌≢◌, ◌∙◌, refl, sym, ap, arith, inl, inr,
  bit_and, ◌==◌, if◌then◌else◌, nth_bit, nth_bit-lt, ==_iff, ==_false, ℕ_discrete, dec_lt,
  Bool-cases,
}
use sedarwin.Mask.Digits.{bit_and-known, bit_and-quarantined, nth_bit-cleared}
use sedarwin.Ops.{Function, install_hooks, install_lifecycle}
use sedarwin.Ops.Slots.{Hook, bit_of, slot, implementation, slot-install_hooks}
use sedarwin.Policy.{
  Kext, Request, Framework, Outcome, Effect, accept_hooks, sysctl_hooks_handler, blow_lookup_fuse,
  policy_register,
}
use sedarwin.Policy.Cases.{handler_cases, register_cases, stored}

-- The member that a mask asks for.
abbrev pub wanted : Hook → ℕ → Option Function
wanted h mask = if nth_bit (bit_of h) mask == 1 then some (implementation h) else none

-- Each hook's member is what the mask that `sedarwin.hooks` reports asks for.
abbrev pub IsConsistent : Kext → Type 0
IsConsistent s = (h : Hook) → slot h s.ops ≡ wanted h s.hooks_enabled

-- What the handler is to answer to a value that was written.
pub data Verdict (f : Framework) (mask : ℕ) (s : Kext) : Outcome → Type 0 where
  unknown :
      0x20_0000 ≤ mask → Verdict f mask s (record { value = f.einval; left = s; effects = [] })
  refused :
      mask < 0x20_0000
      → nth_bit 4 mask ≡ 1
      → s.unsafe_enabled ≡ 0
      → Verdict f mask s
          (record { value = f.eperm; left = s; effects = Effect.refusing_hooks 16 ∷ [] })
  installed :
      mask < 0x20_0000
      → (nth_bit 4 mask ≡ 1 → s.unsafe_enabled ≢ 0)
      → Verdict f mask s (record {
        value = 0;
        left = record s { hooks_enabled = mask; ops = install_hooks s.ops mask };
        effects = Effect.hooks_now mask ∷ [];
      })

accept_hooks-Verdict :
    (f : Framework) (mask : ℕ) (s : Kext) → mask < 2 ^ 32 → Verdict f mask s (accept_hooks f mask s)
unfolding accept_hooks
accept_hooks-Verdict f mask s h = elim (dec_lt mask 0x20_0000) [
  | no big ↦
      let some_high : bit_and mask 0xffe0_0000 ≢ 0 = λ e. big ((bit_and-known mask h).0 e) in
      rw (==_false (bit_and mask 0xffe0_0000) 0 some_high) (Verdict.unknown (omega arith))
  | yes small ↦
      let known = (bit_and-known mask h).1 small in
      elim (ℕ_discrete (nth_bit 4 mask) 1) [
        | yes one ↦ elim (ℕ_discrete s.unsafe_enabled 0) [
          | yes off ↦
              rw (known, bit_and-quarantined mask, one, (==_iff s.unsafe_enabled 0).1 off)
                (Verdict.refused small one off)
          | no on ↦
              rw (known, bit_and-quarantined mask, one, ==_false s.unsafe_enabled 0 on)
                (Verdict.installed small (λ _. on))
        ]
        | no clear ↦
            let zero_digit : nth_bit 4 mask ≡ 0 = omega (arith, nth_bit-lt 4 mask) in
            rw (known, bit_and-quarantined mask, zero_digit)
              (Verdict.installed small (λ e. absurd (clear e)))
      ]
]

-- A write of a 32-bit value that `sysctl_handle_int` has taken is answered so: a value with a bit
-- that names no hook gives EINVAL and changes nothing; a value with the bit of a quarantined hook
-- gives EPERM and changes nothing unless `sedarwin.unsafe` is set; any other value is installed,
-- becomes the mask, and gives 0.
pub sysctl_hooks_handler-Verdict :
    (f : Framework) (req : Request) (s : Kext) (mask : ℕ)
    → f.sysctl_handle_int req s.hooks_enabled ≡ (0, mask)
    → req.newptr ≢ 0
    → mask < 2 ^ 32
    → Verdict f mask s (sysctl_hooks_handler f req s)
unfolding sysctl_hooks_handler
sysctl_hooks_handler-Verdict f req s mask e written h =
    rw (e, ==_false req.newptr 0 written) (accept_hooks-Verdict f mask s h)

install_hooks-IsConsistent :
    (s : Kext) (mask : ℕ)
    → IsConsistent (record s { hooks_enabled = mask; ops = install_hooks s.ops mask })
install_hooks-IsConsistent s mask h = (slot-install_hooks h s.ops mask).0

pub sysctl_hooks_handler-IsConsistent :
    (f : Framework) (req : Request) (s : Kext)
    → IsConsistent s
    → IsConsistent (sysctl_hooks_handler f req s).left
sysctl_hooks_handler-IsConsistent f req s c =
    handler_cases IsConsistent f s req c (λ mask may. install_hooks-IsConsistent s mask)

-- What the fuse leaves of a member, and of a digit.
slot-blow_lookup_fuse :
    (h : Hook) (s : Kext)
    → slot h (blow_lookup_fuse s).ops ≡ (if bit_of h == 4 then none else slot h s.ops)
unfolding blow_lookup_fuse
slot-blow_lookup_fuse Hook.vnode_check_open s = refl
slot-blow_lookup_fuse Hook.vnode_check_create s = refl
slot-blow_lookup_fuse Hook.vnode_check_unlink s = refl
slot-blow_lookup_fuse Hook.vnode_check_rename s = refl
slot-blow_lookup_fuse Hook.vnode_check_lookup s = refl
slot-blow_lookup_fuse Hook.vnode_check_readlink s = refl
slot-blow_lookup_fuse Hook.vnode_check_getattr s = refl
slot-blow_lookup_fuse Hook.vnode_check_setattrlist s = refl
slot-blow_lookup_fuse Hook.vnode_label_associate_extattr s = refl
slot-blow_lookup_fuse Hook.vnode_label_copy s = refl
slot-blow_lookup_fuse Hook.file_check_mmap s = refl
slot-blow_lookup_fuse Hook.file_check_library_validation s = refl
slot-blow_lookup_fuse Hook.proc_check_signal s = refl
slot-blow_lookup_fuse Hook.proc_check_fork s = refl
slot-blow_lookup_fuse Hook.proc_notify_exit s = refl
slot-blow_lookup_fuse Hook.socket_check_connect s = refl
slot-blow_lookup_fuse Hook.socket_check_create s = refl
slot-blow_lookup_fuse Hook.socket_check_listen s = refl
slot-blow_lookup_fuse Hook.pty_notify_grant s = refl
slot-blow_lookup_fuse Hook.vnode_check_exec s = refl
slot-blow_lookup_fuse Hook.proc_notify_exec_complete s = refl

pub bit_of-lt : (h : Hook) → bit_of h < 32
bit_of-lt Hook.vnode_check_open = omega arith
bit_of-lt Hook.vnode_check_create = omega arith
bit_of-lt Hook.vnode_check_unlink = omega arith
bit_of-lt Hook.vnode_check_rename = omega arith
bit_of-lt Hook.vnode_check_lookup = omega arith
bit_of-lt Hook.vnode_check_readlink = omega arith
bit_of-lt Hook.vnode_check_getattr = omega arith
bit_of-lt Hook.vnode_check_setattrlist = omega arith
bit_of-lt Hook.vnode_label_associate_extattr = omega arith
bit_of-lt Hook.vnode_label_copy = omega arith
bit_of-lt Hook.file_check_mmap = omega arith
bit_of-lt Hook.file_check_library_validation = omega arith
bit_of-lt Hook.proc_check_signal = omega arith
bit_of-lt Hook.proc_check_fork = omega arith
bit_of-lt Hook.proc_notify_exit = omega arith
bit_of-lt Hook.socket_check_connect = omega arith
bit_of-lt Hook.socket_check_create = omega arith
bit_of-lt Hook.socket_check_listen = omega arith
bit_of-lt Hook.pty_notify_grant = omega arith
bit_of-lt Hook.vnode_check_exec = omega arith
bit_of-lt Hook.proc_notify_exec_complete = omega arith

pub wanted-cleared :
    (h : Hook) (mask : ℕ)
    → wanted h (bit_and mask 0xffff_ffef) ≡ (if bit_of h == 4 then none else wanted h mask)
wanted-cleared h mask = elim (Bool-cases (bit_of h == 4)) [
  | inl four ↦ rw (nth_bit-cleared (bit_of h) mask (bit_of-lt h), four) refl
  | inr other ↦ rw (nth_bit-cleared (bit_of h) mask (bit_of-lt h), other) refl
]

-- The fuse takes one hook out of the vector and of the mask, and leaves the others alone.
pub blow_lookup_fuse-IsConsistent : (s : Kext) → IsConsistent s → IsConsistent (blow_lookup_fuse s)
unfolding blow_lookup_fuse
blow_lookup_fuse-IsConsistent s c h =
    slot-blow_lookup_fuse h s
    ∙ ap (λ o. if bit_of h == 4 then none else o) (c h)
    ∙ sym (wanted-cleared h s.hooks_enabled)

pub policy_register-IsConsistent :
    (f : Framework) (s : Kext) → IsConsistent (policy_register f s).left
policy_register-IsConsistent f s =
    let agrees : IsConsistent (stored s) =
      λ h. (slot-install_hooks h (install_lifecycle s.ops) s.hooks_enabled).0 in
    register_cases IsConsistent f s (λ handle. agrees) (λ handle. agrees)
