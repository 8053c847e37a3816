-- ===== src/Policy/Race.antt =====
-- The lookup fuse of kext/main.c against a write of `sedarwin.hooks` on another processor.
use sedarwin.Prelude.{
  ℕ, ◌<◌, Bool, none, some, ◌≡◌, ◌≢◌, ◌∙◌, refl, sym, ap, arith, nth_bit, bit_and,
}
use sedarwin.Mask.Digits.{nth_bit-cleared}
use sedarwin.Ops.{install_hooks, sebsd_vnode_check_lookup}
use sedarwin.Ops.Slots.{Hook, slot-install_hooks}
use sedarwin.Policy.{Kext, Request, Framework, Outcome, sysctl_hooks_handler}
use sedarwin.Policy.Mask.{Verdict, sysctl_hooks_handler-Verdict, IsConsistent, wanted}
use sedarwin.Lookup.Steps.{clear_slot, load_mask, sub_depth, advance}

Verdict-installed :
    {f : Framework} {mask : ℕ} {s : Kext} {o : Outcome}
    → Verdict f mask s o
    → mask < 0x20_0000
    → s.unsafe_enabled ≢ 0
    → (o.left.hooks_enabled ≡ mask) × (o.left.ops ≡ install_hooks s.ops mask)
Verdict-installed (Verdict.unknown big) small on = absurd (omega arith)
Verdict-installed (Verdict.refused h one off) small on = absurd (on off)
Verdict-installed (Verdict.installed h unlocked) small on = (refl, refl)

wanted_clear : (mask : ℕ) → nth_bit 4 mask ≡ 0 → wanted Hook.vnode_check_lookup mask ≡ none
wanted_clear mask z = rw z refl

module _ (f : Framework) (req : Request) (self : ℕ) (reentered : Bool) (s : Kext) where
  -- The fuse's first store, then the whole handler, then the fuse's second store.
  abbrev pub raced : Kext
  raced =
      let handled : Kext =
        (sysctl_hooks_handler f req (advance self (clear_slot reentered) s).0).left in
      let loaded = advance self (load_mask reentered) handled in
      (advance self (elim loaded.1 [ none ↦ sub_depth | some p ↦ p ]) loaded.0).0

  -- The fuse clears the slot and the mask in two steps. If the handler runs between them and
  -- installs, with `sedarwin.unsafe` set, a mask that has the quarantined bit, the hook stays
  -- installed and the mask that `sysctl sedarwin.hooks` shows lacks its bit.
  pub raced_lem :
      (mask : ℕ)
      → f.sysctl_handle_int req s.hooks_enabled ≡ (0, mask)
      → req.newptr ≢ 0
      → mask < 0x20_0000
      → nth_bit 4 mask ≡ 1
      → s.unsafe_enabled ≢ 0
      → (raced.ops.mpo_vnode_check_lookup ≡ some sebsd_vnode_check_lookup)
        × (nth_bit 4 raced.hooks_enabled ≡ 0)
        × (¬ IsConsistent raced)
  unfolding advance
  raced_lem mask e written small one on =
      let half : Kext = (advance self (clear_slot reentered) s).0 in
      let verdict = sysctl_hooks_handler-Verdict f req half mask e written (omega arith) in
      let (masked, stored) = Verdict-installed verdict small on in
      let kept : raced.ops.mpo_vnode_check_lookup ≡ some sebsd_vnode_check_lookup =
        ap (λ o. o.mpo_vnode_check_lookup) stored
        ∙ (slot-install_hooks Hook.vnode_check_lookup half.ops mask).0
        ∙ rw one refl in
      let cleared : nth_bit 4 raced.hooks_enabled ≡ 0 =
        ap (λ m. nth_bit 4 (bit_and m 0xffff_ffef)) masked ∙ nth_bit-cleared 4 mask (omega arith) in
      (
        kept,
        cleared,
        (λ c.
            let clash : some sebsd_vnode_check_lookup ≡ none =
              sym kept ∙ c Hook.vnode_check_lookup ∙ wanted_clear raced.hooks_enabled cleared in
            cc clash),
      )
