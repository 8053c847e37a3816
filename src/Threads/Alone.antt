-- ===== src/Threads/Alone.antt =====
-- A request or an unload of kext/main.c that nothing interrupts is the function as one step.
use sedarwin.Prelude.{
  ℕ, zero, suc, List, [], ◌∷◌, Option, none, some, ◌≡◌, ◌∙◌, refl, ap, bit_and, bit_or, not, ◌==◌,
  ◌||◌, inl, inr, Bool-cases, false, true,
}
use sedarwin.Mask.{hook_all, hook_unsafe, complement}
use sedarwin.Ops.{Ops, install_hooks}
use sedarwin.Ops.Slots.{Hook}
use sedarwin.Ops.Stores.{store, chosen, store_all, statements, store_all-statements}
use sedarwin.Policy.{
  Kext, Request, Framework, Outcome, hooks_now, sysctl_hooks_handler, accept_hooks,
  policy_unregister,
}
use sedarwin.Threads.{
  load_hooks, store_hooks, install, load_registered, clear, unregister, Next, judge, handle_access,
  unload_access,
}

abbrev after : {P : Type 0} → (P → Kext → Option Outcome) → Kext × Next P → Option Outcome
after rest (s, Next.on p) = rest p s
after rest (s, Next.returned value effects) =
    some (record { value = value; left = s; effects = effects })

-- The accesses up to the return; `none` if `n` are too few.
unfoldable pub finish : {P : Type 0} → (P → Kext → Kext × Next P) → ℕ → P → Kext → Option Outcome
finish go zero p s = none
finish go (suc n) p s = after (finish go n) (go p s)

-- Room for the statements, the return and `n` accesses more.
abbrev room : List Hook → ℕ → ℕ
room [] n = suc n
room (h ∷ hs) n = suc (room hs n)

finish-install :
    (f : Framework) (req : Request) (hs : List Hook) (n value : ℕ) (s : Kext)
    → finish (handle_access f req) (room hs n) (install value hs) s
      ≡ some (record {
        value = 0;
        left = record s { ops = store_all value hs s.ops };
        effects = hooks_now value ∷ [];
      })
unfolding finish handle_access
finish-install f req [] n value s = refl
finish-install f req (h ∷ hs) n value s =
    finish-install f req hs n value (record s { ops = store h (chosen value h) s.ops })

finish-store_hooks :
    (f : Framework) (req : Request) (n value : ℕ) (s : Kext)
    → finish (handle_access f req) (suc (room statements n)) (store_hooks value) s
      ≡ some (record {
        value = 0;
        left = record s { hooks_enabled = value; ops = install_hooks s.ops value };
        effects = hooks_now value ∷ [];
      })
unfolding finish handle_access
finish-store_hooks f req n value s =
    finish-install f req statements n value (record s { hooks_enabled = value })
    ∙ ap
        (λ (o : Ops). some (record {
          value = 0;
          left = record s { hooks_enabled = value; ops = o };
          effects = hooks_now value ∷ [];
        }))
        (store_all-statements value s.ops)

pub handler_alone :
    (f : Framework) (req : Request) (s : Kext)
    → finish (handle_access f req) 25 load_hooks s ≡ some (sysctl_hooks_handler f req s)
unfolding finish handle_access judge sysctl_hooks_handler accept_hooks
handler_alone f req s =
    let (error, value) = f.sysctl_handle_int req s.hooks_enabled in
    elim (Bool-cases (not (error == 0) || (req.newptr == 0))) [
      | inl away ↦ rw away refl
      | inr go ↦
          elim (Bool-cases (not (bit_and value (complement (bit_or hook_all hook_unsafe)) == 0))) [
            | inl high ↦ rw (go, high) refl
            | inr low ↦ elim (Bool-cases (not (bit_and value hook_unsafe == 0))) [
              | inl guarded ↦ elim (Bool-cases (s.unsafe_enabled == 0)) [
                | inl locked ↦ rw (go, low, guarded, locked) refl
                | inr free ↦ rw (go, low, guarded, free) (finish-store_hooks f req 0 value s)
              ]
              | inr open_to_all ↦ rw (go, low, open_to_all) (finish-store_hooks f req 1 value s)
            ]
          ]
    ]

finish-clear :
    (f : Framework) (hs : List Hook) (n : ℕ) (s : Kext)
    → finish (unload_access f) (room hs n) (clear hs) s
      ≡ finish (unload_access f) n unregister (record s { ops = store_all 0 hs s.ops })
unfolding finish unload_access
finish-clear f [] n s = refl
finish-clear f (h ∷ hs) n s = finish-clear f hs n (record s { ops = store h (chosen 0 h) s.ops })

-- What is left when every slot is cleared.
abbrev bare : Kext → Kext
bare s = record s { ops = install_hooks s.ops 0 }

finish-statements :
    (f : Framework) (s : Kext)
    → finish (unload_access f) (room statements 2) (clear statements) s
      ≡ finish (unload_access f) 2 unregister (bare s)
finish-statements f s =
    finish-clear f statements 2 s
    ∙ ap (λ (o : Ops). finish (unload_access f) 2 unregister (record s { ops = o }))
        (store_all-statements 0 s.ops)

finish-load_registered :
    (f : Framework) (n : ℕ) (s : Kext)
    → (s.registered == 0) ≡ false
    → finish (unload_access f) (suc n) load_registered s
      ≡ finish (unload_access f) n (clear statements) s
unfolding finish unload_access
finish-load_registered f n s live = rw live refl

finish-unregister :
    (f : Framework) (s : Kext)
    → (s.registered == 0) ≡ false
    → finish (unload_access f) 2 unregister (bare s) ≡ some (policy_unregister f s)
unfolding finish unload_access policy_unregister
finish-unregister f s live = elim (Bool-cases (f.mac_policy_unregister s.handle == 0)) [
  | inl fine ↦ rw (live, fine) refl
  | inr refused ↦ rw (live, refused) refl
]

unload_never :
    (f : Framework) (n : ℕ) (s : Kext)
    → (s.registered == 0) ≡ true
    → finish (unload_access f) (suc n) load_registered s ≡ some (policy_unregister f s)
unfolding finish unload_access policy_unregister
unload_never f n s never = rw never refl

pub unloader_alone :
    (f : Framework) (s : Kext)
    → finish (unload_access f) 25 load_registered s ≡ some (policy_unregister f s)
unloader_alone f s = elim (Bool-cases (s.registered == 0)) [
  | inl never ↦ unload_never f 24 s never
  | inr live ↦
      finish-load_registered f 24 s live ∙ finish-statements f s ∙ finish-unregister f s live
]
