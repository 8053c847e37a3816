-- ===== src/Policy/Register.antt =====
-- The sysctl tree over the load and the unload of kext/main.c.
use sedarwin.Prelude.{
  ℕ, Bool, true, false, List, [], ◌∷◌, Option, none, some, ◌≡◌, inl, inr, refl, ◌==◌, not, ◌&&◌,
  ◌||◌, if◌then◌else◌, Bool-cases,
}
use sedarwin.Policy.{Kext, Framework, Outcome, Effect, policy_register, policy_unregister}
use sedarwin.Policy.Oids.{
  Oid, node, trace, hooks, unsafe, lookup_fuse, lookup_maxdepth, lookup_recursed, lookup_count,
  sysctl_children, sebsd_sysctl_children, sysctl_oid,
}

abbrev number : Oid → ℕ
number node = 0
number trace = 1
number hooks = 2
number unsafe = 3
number lookup_fuse = 4
number lookup_maxdepth = 5
number lookup_recursed = 6
number lookup_count = 7

-- An oid is linked.
abbrev has : Oid → List Oid → Bool
has o [] = false
has o (x ∷ xs) = (number o == number x) || has o xs

abbrev without : Oid → List Oid → List Oid
without o [] = []
without o (x ∷ xs) = let rest = without o xs in if number o == number x then rest else x ∷ rest

-- The list that an oid's `oid_parent` names is in the tree.
abbrev parent_linked : Oid → List Oid → Bool
parent_linked o linked = elim (sysctl_oid o).oid_parent [
  | sysctl_children ↦ true
  | sebsd_sysctl_children ↦ has node linked
]

-- An oid with children under it.
abbrev has_children : Oid → List Oid → Bool
has_children node [] = false
has_children node (node ∷ xs) = has_children node xs
has_children node (_ ∷ xs) = true
has_children _ xs = false

-- The oids that are linked after some effects; `none` if one is linked twice or under a parent that is
-- not, or is unlinked that is not linked or has children.
abbrev pub tree : List Effect → List Oid → Option (List Oid)
tree [] linked = some linked
tree (Effect.sysctl_register_oid o ∷ es) linked =
    let rest = tree es (o ∷ linked) in
    if parent_linked o linked && not (has o linked) then rest else none
tree (Effect.sysctl_unregister_oid o ∷ es) linked =
    let rest = tree es (without o linked) in
    if has o linked && not (has_children o linked) then rest else none
tree (_ ∷ es) linked = tree es linked

abbrev pub all_oids : List Oid
all_oids =
    lookup_count ∷ lookup_recursed ∷ lookup_maxdepth ∷ lookup_fuse ∷ unsafe ∷ hooks ∷ trace ∷ node
    ∷ []

-- What the load is to do.
pub record Registers (f : Framework) (s : Kext) (o : Outcome) : Type 0 where
  pub linked : tree o.effects [] ≡ some (if f.mac_policy_register.0 == 0 then all_oids else [])
  pub value : o.value ≡ (if f.mac_policy_register.0 == 0 then f.kern_success else f.kern_failure)
  pub registered : o.left.registered ≡ (if f.mac_policy_register.0 == 0 then 1 else s.registered)

-- The load, whether the framework takes the policy or not.
pub policy_register-Registers : (f : Framework) (s : Kext) → Registers f s (policy_register f s)
unfolding policy_register
policy_register-Registers f s = elim (Bool-cases (f.mac_policy_register.0 == 0)) [
  | inl fine ↦ elim (Bool-cases (s.hooks_enabled == 0)) [
    | inl bare ↦
        rw (fine, bare)
          (record { linked = rw fine refl; value = rw fine refl; registered = rw fine refl })
    | inr armed ↦
        rw (fine, armed)
          (record { linked = rw fine refl; value = rw fine refl; registered = rw fine refl })
  ]
  | inr failed ↦
      rw failed
        (record { linked = rw failed refl; value = rw failed refl; registered = rw failed refl })
]

-- The module is to be unloaded.
abbrev pub dropped : Framework → Kext → Bool
dropped f s = not (s.registered == 0) && (f.mac_policy_unregister s.handle == 0)

pub record Unregisters (f : Framework) (s : Kext) (o : Outcome) : Type 0 where
  pub linked : tree o.effects all_oids ≡ some (if dropped f s then [] else all_oids)
  pub value : o.value ≡ (
      if (s.registered == 0) || (f.mac_policy_unregister s.handle == 0)
      then f.kern_success
      else f.kern_failure)
  pub registered : o.left.registered ≡ (if dropped f s then 0 else s.registered)

-- The unload, in all three cases.
pub policy_unregister-Unregisters :
    (f : Framework) (s : Kext) → Unregisters f s (policy_unregister f s)
unfolding policy_unregister
policy_unregister-Unregisters f s = elim (Bool-cases (s.registered == 0)) [
  | inl never ↦
      rw never
        (record { linked = rw never refl; value = rw never refl; registered = rw never refl })
  | inr live ↦ elim (Bool-cases (f.mac_policy_unregister s.handle == 0)) [
    | inl fine ↦
        rw (live, fine)
          (record {
            linked = rw (live, fine) refl;
            value = rw (live, fine) refl;
            registered = rw (live, fine) refl;
          })
    | inr refused ↦
        rw (live, refused)
          (record {
            linked = rw (live, refused) refl;
            value = rw (live, refused) refl;
            registered = rw (live, refused) refl;
          })
  ]
]

-- The load links each oid once and under a parent that is linked. If the framework takes the policy
-- all eight are linked afterwards, the module counts as registered and the load succeeds; if not,
-- none is, no oid was unlinked before its children, and the load fails. The unload unlinks the eight
-- oids, each of them after its children, just if the policy was registered and the framework drops
-- it; the module then counts as unregistered. Otherwise the tree stays whole, and the unload fails
-- just if the framework refuses.
pub entry_points_lem :
    (f : Framework) (s : Kext)
    → Registers f s (policy_register f s) × Unregisters f s (policy_unregister f s)
entry_points_lem f s = (policy_register-Registers f s, policy_unregister-Unregisters f s)
