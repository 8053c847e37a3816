-- ===== src/Policy.antt =====
-- The state and the entry points of kext/main.c: the variables, the handler of `sedarwin.hooks`, the
-- lookup fuse, the sysctl tree, and the registration with the framework. An `int` is its 32-bit
-- pattern; what the kernel's own functions return is a parameter.
pub mod Oids
pub mod Cases
pub mod Mask
pub mod Race
pub mod Quarantine
pub mod Agreement
pub mod Register
pub mod Typed
pub mod Lifetime
pub mod Spec
use sedarwin.Prelude.{
  ℕ, Bool, true, false, List, [], ◌∷◌, ◌++◌, Option, none, some, bit_and, bit_or, not, ◌==◌, ◌&&◌,
  ◌||◌, if◌then◌else◌,
}
use sedarwin.Mask.{hook_all, hook_unsafe, hook_vnode_lookup, hook_default, complement}
use sedarwin.Ops.{Ops, zeroed, install_hooks, install_lifecycle}
use sedarwin.Policy.Oids.{
  Oid, node, trace, hooks, unsafe, lookup_fuse, lookup_maxdepth, lookup_recursed, lookup_count,
}

-- The variables of the module.
pub record Kext : Type 0 where
  pub ops : Ops
  pub handle : ℕ
  pub registered : ℕ
  pub trace_enabled : ℕ
  pub hooks_enabled : ℕ
  pub unsafe_enabled : ℕ
  pub lookup_count : ℕ
  pub lookup_fuse : ℕ
  pub lookup_owner : ℕ
  pub lookup_depth : ℕ
  pub lookup_maxdepth : ℕ
  pub lookup_recursed : ℕ

-- The module as it is loaded.
abbrev pub loaded : Kext
loaded = record {
  ops = zeroed;
  handle = 0;
  registered = 0;
  trace_enabled = 0;
  hooks_enabled = hook_default;
  unsafe_enabled = 0;
  lookup_count = 0;
  lookup_fuse = 16;
  lookup_owner = 0;
  lookup_depth = 0;
  lookup_maxdepth = 0;
  lookup_recursed = 0;
}

-- `struct sysctl_req`, as far as it is read here.
pub record Request : Type 0 where
  pub newptr : ℕ
  pub newval : ℕ

-- The framework's functions: an error and what is written through the pointers.
pub record Framework : Type 0 where
  -- for a request and the variable's value
  pub sysctl_handle_int : Request → ℕ → ℕ × ℕ
  pub mac_policy_register : ℕ × ℕ
  pub mac_policy_unregister : ℕ → ℕ
  pub einval : ℕ
  pub eperm : ℕ
  pub kern_success : ℕ
  pub kern_failure : ℕ

-- What the entry points do beside storing to the variables: their calls, and what they print.
pub data Effect : Type 0 where
  sysctl_register_oid : Oid → Effect
  sysctl_unregister_oid : Oid → Effect
  mac_policy_register : Effect
  mac_policy_unregister : (handle : ℕ) → Effect
  refusing_hooks : (bits : ℕ) → Effect
  hooks_now : (mask : ℕ) → Effect
  register_failed : (error : ℕ) → Effect
  registered_with : (handle mask : ℕ) → Effect
  no_check_hooks : Effect
  unregister_failed : (error : ℕ) → Effect
  unregistered : Effect

-- A returned value, the variables afterwards, and the effects in order.
pub record Outcome : Type 0 where
  pub value : ℕ
  pub left : Kext
  pub effects : List Effect

-- The handler, after `sysctl_handle_int` has left `value`.
unfoldable pub accept_hooks : Framework → ℕ → Kext → Outcome
accept_hooks f mask s =
    if not (bit_and mask (complement (bit_or hook_all hook_unsafe)) == 0)
    then record { value = f.einval; left = s; effects = [] }
    else if not (bit_and mask hook_unsafe == 0) && (s.unsafe_enabled == 0)
    then record {
      value = f.eperm;
      left = s;
      effects = Effect.refusing_hooks (bit_and mask hook_unsafe) ∷ [];
    }
    else record {
      value = 0;
      left = record s { hooks_enabled = mask; ops = install_hooks s.ops mask };
      effects = Effect.hooks_now mask ∷ [];
    }

-- `sebsd_sysctl_hooks_handler`
unfoldable pub sysctl_hooks_handler : Framework → Request → Kext → Outcome
unfolding accept_hooks
sysctl_hooks_handler f req s =
    let (error, mask) = f.sysctl_handle_int req s.hooks_enabled in
    if not (error == 0) || (req.newptr == 0)
    then record { value = error; left = s; effects = [] }
    else accept_hooks f mask s

-- `sebsd_hooks_blow_lookup_fuse`
unfoldable pub blow_lookup_fuse : Kext → Kext
blow_lookup_fuse s = record s {
  ops = record s.ops { mpo_vnode_check_lookup = none };
  hooks_enabled = bit_and s.hooks_enabled (complement hook_vnode_lookup);
}

-- `sebsd_sysctl_register`
abbrev pub sysctl_register : List Effect
sysctl_register =
    Effect.sysctl_register_oid node
    ∷ Effect.sysctl_register_oid trace
    ∷ Effect.sysctl_register_oid hooks
    ∷ Effect.sysctl_register_oid unsafe
    ∷ Effect.sysctl_register_oid lookup_fuse
    ∷ Effect.sysctl_register_oid lookup_maxdepth
    ∷ Effect.sysctl_register_oid lookup_recursed
    ∷ Effect.sysctl_register_oid lookup_count
    ∷ []

-- `sebsd_sysctl_unregister`
abbrev pub sysctl_unregister : List Effect
sysctl_unregister =
    Effect.sysctl_unregister_oid lookup_count
    ∷ Effect.sysctl_unregister_oid lookup_recursed
    ∷ Effect.sysctl_unregister_oid lookup_maxdepth
    ∷ Effect.sysctl_unregister_oid lookup_fuse
    ∷ Effect.sysctl_unregister_oid unsafe
    ∷ Effect.sysctl_unregister_oid hooks
    ∷ Effect.sysctl_unregister_oid trace
    ∷ Effect.sysctl_unregister_oid node
    ∷ []

-- `sebsd_mac_policy_register`
unfoldable pub policy_register : Framework → Kext → Outcome
policy_register f s =
    let stored : Kext = record s {
      ops = install_hooks (install_lifecycle s.ops) s.hooks_enabled;
    } in
    let (error, handle) = f.mac_policy_register in
    if not (error == 0)
    then record {
      value = f.kern_failure;
      left = record stored { handle = handle };
      effects =
          sysctl_register
          ++ (Effect.mac_policy_register
              ∷ (sysctl_unregister ++ (Effect.register_failed error ∷ [])));
    }
    else record {
      value = f.kern_success;
      left = record stored { handle = handle; registered = 1 };
      effects =
          sysctl_register
          ++ (Effect.mac_policy_register
              ∷ Effect.registered_with handle s.hooks_enabled
              ∷ (if s.hooks_enabled == 0 then Effect.no_check_hooks ∷ [] else []));
    }

-- `sebsd_mac_policy_unregister`
unfoldable pub policy_unregister : Framework → Kext → Outcome
policy_unregister f s =
    if s.registered == 0
    then record { value = f.kern_success; left = s; effects = [] }
    else let cleared : Kext = record s { ops = install_hooks s.ops 0 } in
      let error : ℕ = f.mac_policy_unregister s.handle in
      if not (error == 0)
      then record {
        value = f.kern_failure;
        left = cleared;
        effects = Effect.mac_policy_unregister s.handle ∷ Effect.unregister_failed error ∷ [];
      }
      else record {
        value = f.kern_success;
        left = record cleared { registered = 0 };
        effects =
            Effect.mac_policy_unregister s.handle
            ∷ (sysctl_unregister ++ (Effect.unregistered ∷ []));
      }
