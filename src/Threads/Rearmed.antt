-- ===== src/Threads/Rearmed.antt =====
-- A request that overlaps an unload of kext/main.c.
use sedarwin.Prelude.{ℕ, ◌<◌, [], ◌∷◌, ◌≡◌, ◌≢◌, ◌∙◌, refl, ap, subst, nth_bit}
use sedarwin.Ops.{Ops, install_hooks}
use sedarwin.Ops.Slots.{Hook, slot, slot-install_hooks}
use sedarwin.Ops.Stores.{store_all, statements, store_all-statements}
use sedarwin.Policy.{Kext, Request, Framework}
use sedarwin.Policy.Mask.{wanted}
use sedarwin.Threads.{
  unloading, load_registered, unregister, load_hooks, store_hooks, Task, handling, Moves, Reach,
}
use sedarwin.Threads.Schedules.{machine, passed, masked, installed, departed, emptied, dropped}

module _ (f : Framework) (req : Request) (s : Kext) (mask : ℕ) where
  -- The hooks that the unload has taken out are in the vector again.
  abbrev pub rearmed : Kext
  rearmed = record s { hooks_enabled = mask; ops = install_hooks (install_hooks s.ops 0) mask }

  overlaps :
      f.sysctl_handle_int req s.hooks_enabled ≡ (0, mask)
      → req.newptr ≢ 0
      → mask < 0x20_0000
      → nth_bit 4 mask ≡ 0
      → s.registered ≢ 0
      → Reach f s (machine rearmed (unloading unregister ∷ []))
  overlaps e written small clear_bit live =
      let leaving : Task = unloading load_registered in
      let asking : Task = handling req load_hooks in
      let begun : Reach f s (machine s (leaving ∷ [])) =
        Reach.moved Reach.here (Moves.starts s [] leaving refl) in
      let both : Reach f s (machine s (asking ∷ leaving ∷ [])) =
        Reach.moved begun (Moves.starts s (leaving ∷ []) asking refl) in
      let tested = passed req mask [] (leaving ∷ []) s e written small clear_bit both in
      let bare =
        emptied statements (handling req (store_hooks mask) ∷ []) [] s
          (departed (handling req (store_hooks mask) ∷ []) [] s live tested) in
      let filled =
        installed req mask statements [] (unloading unregister ∷ []) _
          (masked req mask [] (unloading unregister ∷ []) _ bare) in
      subst
        (λ (o : Ops).
          Reach f s
            (machine (record s { hooks_enabled = mask; ops = o }) (unloading unregister ∷ [])))
        (store_all-statements mask (store_all 0 statements s.ops)
          ∙ ap (λ o. install_hooks o mask) (store_all-statements 0 s.ops))
        filled

  -- A request for known hooks without the quarantined one that has passed its tests when an unload
  -- clears the members can fill them again before the unload asks the framework to drop the policy:
  -- each member is then what the request asked for. If the framework drops the policy, the unload
  -- returns and the module counts as unregistered with its hooks in the vector.
  pub rearmed_lem :
      f.sysctl_handle_int req s.hooks_enabled ≡ (0, mask)
      → req.newptr ≢ 0
      → mask < 0x20_0000
      → nth_bit 4 mask ≡ 0
      → s.registered ≢ 0
      → f.mac_policy_unregister s.handle ≡ 0
      → Reach f s (machine rearmed (unloading unregister ∷ []))
        × Reach f s (machine (record rearmed { registered = 0 }) [])
        × ((h : Hook) → slot h rearmed.ops ≡ wanted h mask)
  rearmed_lem e written small clear_bit live fine =
      let asks = overlaps e written small clear_bit live in
      (
        asks,
        dropped [] [] rearmed fine asks,
        (λ h. (slot-install_hooks h (install_hooks s.ops 0) mask).0),
      )
