-- ===== src/Threads/Schedules.antt =====
-- Stretches of a request or an unload of kext/main.c during which the other calls stand still.
use sedarwin.Prelude.{
  Bool, if◌then◌else◌, ==_iff, ℕ, ◌<◌, List, [], ◌∷◌, ◌++◌, ◌≡◌, ◌≢◌, ◌∙◌, refl, ap, subst, arith,
  nth_bit, ==_false,
}
use sedarwin.Mask.Digits.{bit_and-known, bit_and-quarantined}
use sedarwin.Ops.Slots.{Hook}
use sedarwin.Ops.Stores.{store, chosen, store_all, statements}
use sedarwin.Policy.{mac_policy_unregister, unregister_failed, Kext, Request, Framework}
use sedarwin.Threads.{
  unloading, load_registered, clear, unregister, store_registered, unload_access, load_hooks,
  store_hooks, install, Task, handling, Next, judge, handle_access, goes_on, Machine, Moves, Reach,
}

abbrev pub machine : Kext → List Task → Machine
machine s ts = record { kext = s; tasks = ts }

-- A request for known hooks without the quarantined one passes the tests.
judge_known :
    (f : Framework) (req : Request) (mask : ℕ)
    → req.newptr ≢ 0
    → mask < 0x20_0000
    → nth_bit 4 mask ≡ 0
    → judge f req (0, mask) ≡ Next.on (store_hooks mask)
unfolding judge
judge_known f req mask written small safe =
    rw
      (
        ==_false req.newptr 0 written,
        (bit_and-known mask (omega arith)).1 small,
        bit_and-quarantined mask,
        safe,
      )
      refl

module _ {f : Framework} {root : Kext} (req : Request) where
  -- The rest of an installation, and the return.
  pub installed :
      (value : ℕ) (hs : List Hook) (xs ys : List Task) (s : Kext)
      → Reach f root (machine s (xs ++ (handling req (install value hs) ∷ ys)))
      → Reach f root (machine (record s { ops = store_all value hs s.ops }) (xs ++ ys))
  unfolding handle_access
  installed value [] xs ys s r =
      Reach.moved r (Moves.goes s xs ys (handling req (install value [])))
  installed value (h ∷ hs) xs ys s r =
      installed value hs xs ys (record s { ops = store h (chosen value h) s.ops })
        (Reach.moved r (Moves.goes s xs ys (handling req (install value (h ∷ hs)))))

  -- The tests.
  pub passed :
      (mask : ℕ) (xs ys : List Task) (s : Kext)
      → f.sysctl_handle_int req s.hooks_enabled ≡ (0, mask)
      → req.newptr ≢ 0
      → mask < 0x20_0000
      → nth_bit 4 mask ≡ 0
      → Reach f root (machine s (xs ++ (handling req load_hooks ∷ ys)))
      → Reach f root (machine s (xs ++ (handling req (store_hooks mask) ∷ ys)))
  unfolding handle_access
  passed mask xs ys s e written small safe r =
      subst (λ o. Reach f root (machine s (xs ++ (goes_on (handling req) o ++ ys))))
        (ap (judge f req) e ∙ judge_known f req mask written small safe)
        (Reach.moved r (Moves.goes s xs ys (handling req load_hooks)))

  -- The store to the mask.
  pub masked :
      (value : ℕ) (xs ys : List Task) (s : Kext)
      → Reach f root (machine s (xs ++ (handling req (store_hooks value) ∷ ys)))
      → Reach f root (
          machine
            (record s { hooks_enabled = value })
            (xs ++ (handling req (install value statements) ∷ ys)))
  unfolding handle_access
  masked value xs ys s r = Reach.moved r (Moves.goes s xs ys (handling req (store_hooks value)))

module _ {f : Framework} {root : Kext} where
  -- An unload of a registered module goes on to clear the members,
  pub departed :
      (xs ys : List Task) (s : Kext)
      → s.registered ≢ 0
      → Reach f root (machine s (xs ++ (unloading load_registered ∷ ys)))
      → Reach f root (machine s (xs ++ (unloading (clear statements) ∷ ys)))
  unfolding unload_access
  departed xs ys s live r =
      subst
        (λ (b : Bool). Reach f root (
          machine s (
            xs
            ++ (goes_on unloading
                  (if b then Next.returned f.kern_success [] else Next.on (clear statements))
                ++ ys))))
        (==_false s.registered 0 live)
        (Reach.moved r (Moves.goes s xs ys (unloading load_registered)))

  -- clears them,
  pub emptied :
      (hs : List Hook) (xs ys : List Task) (s : Kext)
      → Reach f root (machine s (xs ++ (unloading (clear hs) ∷ ys)))
      → Reach f root
          (machine (record s { ops = store_all 0 hs s.ops }) (xs ++ (unloading unregister ∷ ys)))
  unfolding unload_access
  emptied [] xs ys s r = Reach.moved r (Moves.goes s xs ys (unloading (clear [])))
  emptied (h ∷ hs) xs ys s r =
      emptied hs xs ys (record s { ops = store h (chosen 0 h) s.ops })
        (Reach.moved r (Moves.goes s xs ys (unloading (clear (h ∷ hs)))))

  -- and returns when the framework has dropped the policy.
  pub dropped :
      (xs ys : List Task) (s : Kext)
      → f.mac_policy_unregister s.handle ≡ 0
      → Reach f root (machine s (xs ++ (unloading unregister ∷ ys)))
      → Reach f root (machine (record s { registered = 0 }) (xs ++ ys))
  unfolding unload_access
  dropped xs ys s fine r =
      Reach.moved
        (subst
          (λ (b : Bool). Reach f root (
            machine s (
              xs
              ++ (goes_on unloading (
                    if b
                    then Next.on store_registered
                    else Next.returned f.kern_failure (
                        mac_policy_unregister s.handle
                        ∷ unregister_failed (f.mac_policy_unregister s.handle)
                        ∷ []))
                  ++ ys))))
          ((==_iff (f.mac_policy_unregister s.handle) 0).1 fine)
          (Reach.moved r (Moves.goes s xs ys (unloading unregister))))
        (Moves.goes s xs ys (unloading store_registered))
