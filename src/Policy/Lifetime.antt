-- ===== src/Policy/Lifetime.antt =====
-- The sysctl tree over the whole lifetime of the module of kext/main.c: a load, requests and lookups, and
-- any number of attempts to unload it, each of which the framework may refuse.
use sedarwin.Prelude.{
  ℕ, List, [], some, ◌≡◌, ◌∙◌, refl, sym, ap, inl, inr, ◌==◌, if◌then◌else◌, Bool-cases,
}
use sedarwin.Policy.{Kext, Framework, blow_lookup_fuse, policy_register, policy_unregister, loaded}
use sedarwin.Policy.Cases.{handler_cases}
use sedarwin.Policy.Oids.{Oid}
use sedarwin.Policy.Register.{tree, all_oids, policy_register-Registers}
use sedarwin.Policy.Agreement.{Whole}
use sedarwin.Lookup.{increment, burned, lookup_enter, lookup_burn, lookup_leave}
use sedarwin.Lookup.Outside.{passed}

-- A state of the module, with the oids that are linked in it.
pub data Lifetime : Kext → List Oid → Type 0 where
  loads :
      (f : Framework) {linked : List Oid}
      → tree (policy_register f loaded).effects [] ≡ some linked
      → Lifetime (policy_register f loaded).left linked
  goes_on :
      {s t : Kext} {linked : List Oid} (f : Framework)
      → Lifetime s linked
      → Whole f s t
      → Lifetime t linked
  unloads :
      {s : Kext} {linked after : List Oid} (f : Framework)
      → Lifetime s linked
      → tree (policy_unregister f s).effects linked ≡ some after
      → Lifetime (policy_unregister f s).left after

passed-registered : (self : ℕ) (s : Kext) → (passed self s).registered ≡ s.registered
unfolding lookup_enter lookup_burn lookup_leave blow_lookup_fuse
passed-registered self s = elim (Bool-cases (burned s.lookup_fuse (increment s.lookup_count))) [
  | inl out ↦ rw out refl
  | inr on ↦ rw on refl
]

Whole-registered : {f : Framework} {s t : Kext} → Whole f s t → t.registered ≡ s.registered
unfolding blow_lookup_fuse
Whole-registered {f} {s} (Whole.write_hooks req) =
    handler_cases (λ t. t.registered ≡ s.registered) f s req refl (λ mask may. refl)
Whole-registered (Whole.write_trace v) = refl
Whole-registered (Whole.write_unsafe v) = refl
Whole-registered (Whole.write_fuse v) = refl
Whole-registered (Whole.write_maxdepth v) = refl
Whole-registered (Whole.write_recursed v) = refl
Whole-registered (Whole.write_count v) = refl
Whole-registered {f} {s} (Whole.lookup self) = elim (Bool-cases (s.lookup_owner == self)) [
  | inl same ↦ rw same refl
  | inr other ↦ rw other (passed-registered self s)
]

-- What is linked while the module counts as registered, and while it does not.
abbrev pub due : Kext → List Oid
due s = if s.registered == 0 then [] else all_oids

-- The attempt to unload finds what it unlinks.
unload_lem :
    (f : Framework) (s : Kext)
    → tree (policy_unregister f s).effects (due s) ≡ some (due (policy_unregister f s).left)
unfolding policy_unregister
unload_lem f s = elim (Bool-cases (s.registered == 0)) [
  | inl never ↦ rw (never, never) refl
  | inr live ↦ elim (Bool-cases (f.mac_policy_unregister s.handle == 0)) [
    | inl fine ↦ rw (live, fine) refl
    | inr refused ↦ rw (live, refused, live) refl
  ]
]

load_lem :
    (f : Framework)
    → tree (policy_register f loaded).effects [] ≡ some (due (policy_register f loaded).left)
load_lem f =
    let r = policy_register-Registers f loaded in
    r.linked ∙ elim (Bool-cases (f.mac_policy_register.0 == 0)) [
      | inl fine ↦ rw (fine, r.registered, fine) refl
      | inr failed ↦ rw (failed, r.registered, failed) refl
    ]

some_eq : {xs ys : List Oid} → some xs ≡ some ys → xs ≡ ys
some_eq e = cc

-- What holds at every point of the lifetime.
pub record Linked (s : Kext) (linked : List Oid) : Type 0 where
  pub whole : linked ≡ due s
  pub can_unload :
      (f : Framework)
      → tree (policy_unregister f s).effects linked ≡ some (due (policy_unregister f s).left)

Lifetime-due : {s : Kext} {linked : List Oid} → Lifetime s linked → linked ≡ due s
Lifetime-due (Lifetime.loads f e) = some_eq (sym e ∙ load_lem f)
Lifetime-due (Lifetime.goes_on {s} {t} f r step) =
    Lifetime-due r ∙ ap (λ n. if n == 0 then [] else all_oids) (sym (Whole-registered step))
Lifetime-due (Lifetime.unloads {s} f r e) =
    some_eq (sym e ∙ ap (tree (policy_unregister f s).effects) (Lifetime-due r) ∙ unload_lem f s)

-- At every point of the lifetime, after requests, lookups and refused unloads: all eight oids are
-- linked while the module counts as registered, and none while it does not. So an attempt to
-- unload, whatever the framework says to it, never unlinks an oid that is not linked or that has
-- children, and leaves the tree whole if it was refused and empty if not.
pub Lifetime-Linked : {s : Kext} {linked : List Oid} → Lifetime s linked → Linked s linked
Lifetime-Linked {s} r = record {
  whole = Lifetime-due r;
  can_unload = λ f. ap (tree (policy_unregister f s).effects) (Lifetime-due r) ∙ unload_lem f s;
}
