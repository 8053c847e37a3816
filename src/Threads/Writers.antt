-- ===== src/Threads/Writers.antt =====
-- Two writes of `sedarwin.hooks` at once: the handler of kext/main.c takes no lock.
use sedarwin.Prelude.{
  ℕ, ◌<◌, [], ◌∷◌, ◌≡◌, ◌≢◌, ◌∙◌, refl, ap, sym, subst, arith, nth_bit, nth_bit-lt,
}
use sedarwin.Ops.{Ops, install_hooks}
use sedarwin.Ops.Slots.{Hook, bit_of, slot, slot-install_hooks}
use sedarwin.Ops.Stores.{store_all, statements, store_all-statements}
use sedarwin.Policy.{Kext, Request, Framework}
use sedarwin.Policy.Mask.{IsConsistent, wanted}
use sedarwin.Threads.{load_hooks, store_hooks, install, Task, handling, Moves, Reach}
use sedarwin.Threads.Schedules.{machine, passed, masked, installed}

-- Masks with different digits for a hook ask for different members.
wanted-digit :
    (h : Hook) (a b : ℕ) → wanted h a ≡ wanted h b → nth_bit (bit_of h) a ≡ nth_bit (bit_of h) b
wanted-digit h a b e = ground (arith, nth_bit-lt (bit_of h) a, nth_bit-lt (bit_of h) b)

module _ (f : Framework) (first second : Request) (s : Kext) (a b : ℕ) where
  -- The mask of the second writer, the members of the first.
  abbrev pub overtaken : Kext
  overtaken = record s { hooks_enabled = b; ops = install_hooks (install_hooks s.ops b) a }

  overtakes :
      f.sysctl_handle_int first s.hooks_enabled ≡ (0, a)
      → f.sysctl_handle_int second s.hooks_enabled ≡ (0, b)
      → first.newptr ≢ 0
      → second.newptr ≢ 0
      → a < 0x20_0000
      → b < 0x20_0000
      → nth_bit 4 a ≡ 0
      → nth_bit 4 b ≡ 0
      → Reach f s (machine overtaken [])
  overtakes ea eb wa wb sa sb ca cb =
      let one : Task = handling first load_hooks in
      let two : Task = handling second load_hooks in
      let begun : Reach f s (machine s (one ∷ [])) =
        Reach.moved Reach.here (Moves.starts s [] one refl) in
      let both : Reach f s (machine s (two ∷ one ∷ [])) =
        Reach.moved begun (Moves.starts s (one ∷ []) two refl) in
      let ready =
        passed second b [] (handling first (store_hooks a) ∷ []) s eb wb sb cb
          (passed first a (two ∷ []) [] s ea wa sa ca both) in
      let stored =
        masked second b [] (handling first (install a statements) ∷ [])
          (record s { hooks_enabled = a })
          (masked first a (handling second (store_hooks b) ∷ []) [] s ready) in
      let done =
        installed first a statements [] [] _ (installed second b statements [] _ _ stored) in
      subst (λ (o : Ops). Reach f s (machine (record s { hooks_enabled = b; ops = o }) []))
        (store_all-statements a (store_all b statements s.ops)
          ∙ ap (λ o. install_hooks o a) (store_all-statements b s.ops))
        done

  -- From any state in which no call is on the way, two writes of `sedarwin.hooks` that ask for known
  -- hooks without the quarantined one, and differ at some hook, can overtake one another: both calls
  -- return, and then the reported mask is the second one's while each hook's member is what the first one
  -- asked for, so that the mask does not report what is installed.
  pub writers_race :
      f.sysctl_handle_int first s.hooks_enabled ≡ (0, a)
      → f.sysctl_handle_int second s.hooks_enabled ≡ (0, b)
      → first.newptr ≢ 0
      → second.newptr ≢ 0
      → a < 0x20_0000
      → b < 0x20_0000
      → nth_bit 4 a ≡ 0
      → nth_bit 4 b ≡ 0
      → (h : Hook) → nth_bit (bit_of h) a ≢ nth_bit (bit_of h) b
      → Reach f s (machine overtaken [])
        × (overtaken.hooks_enabled ≡ b)
        × ((g : Hook) → slot g overtaken.ops ≡ wanted g a)
        × (¬ IsConsistent overtaken)
  writers_race ea eb wa wb sa sb ca cb h apart =
      let asked : (g : Hook) → slot g overtaken.ops ≡ wanted g a =
        λ g. (slot-install_hooks g (install_hooks s.ops b) a).0 in
      (
        overtakes ea eb wa wb sa sb ca cb,
        refl,
        asked,
        (λ c. apart (wanted-digit h a b (sym (asked h) ∙ c h))),
      )
