-- ===== src/Policy/Typed.antt =====
-- The types of the functions in the ops vector of kext/main.c, in every run of the module.
use sedarwin.Prelude.{none, ℕ}
use sedarwin.Abi.{
  mpo_policy_init, mpo_policy_initbsd, mpo_policy_destroy, mpo_vnode_check_open,
  mpo_vnode_check_create, mpo_vnode_check_unlink, mpo_vnode_check_rename, mpo_vnode_check_lookup,
  mpo_vnode_check_readlink, mpo_vnode_check_getattr, mpo_vnode_check_setattrlist,
  mpo_vnode_label_associate_extattr, mpo_vnode_label_copy, mpo_file_check_mmap,
  mpo_file_check_library_validation, mpo_proc_check_signal, mpo_proc_check_fork,
  mpo_proc_notify_exit, mpo_socket_check_connect, mpo_socket_check_create, mpo_socket_check_listen,
  mpo_pty_notify_grant, mpo_vnode_check_exec, mpo_proc_notify_exec_complete,
}
use sedarwin.Ops.{Ops, zeroed}
use sedarwin.Ops.Typed.{IsTyped, held-install_hooks, held-install_lifecycle}
use sedarwin.Policy.{
  Kext, Request, Framework, sysctl_hooks_handler, policy_register, policy_unregister, loaded,
}
use sedarwin.Lookup.Steps.{
  Point, load_owner, store_recursed, store_owner, add_depth, load_maxdepth, store_maxdepth,
  add_count, load_trace, load_line, load_fuse, load_fuse_again, clear_slot, load_mask, store_mask,
  sub_depth, clear_owner, advance,
}
use sedarwin.Policy.Cases.{handler_cases, unregister_cases, register_cases}
use sedarwin.Policy.Quarantine.{Step, Run}

abbrev Typed : Kext → Type 0
Typed s = IsTyped s.ops

handler-IsTyped :
    (f : Framework) (req : Request) (s : Kext) → Typed s → Typed (sysctl_hooks_handler f req s).left
handler-IsTyped f req s typed =
    handler_cases Typed f s req typed (λ mask may. held-install_hooks s.ops mask typed)

unregister-IsTyped : (f : Framework) (s : Kext) → Typed s → Typed (policy_unregister f s).left
unregister-IsTyped f s typed =
    let bare = held-install_hooks s.ops 0 typed in unregister_cases Typed f s typed bare bare

register-IsTyped : (f : Framework) (s : Kext) → Typed s → Typed (policy_register f s).left
register-IsTyped f s typed =
    let full = held-install_hooks _ s.hooks_enabled (held-install_lifecycle s.ops typed) in
    register_cases Typed f s (λ handle. full) (λ handle. full)

without_lookup : (ops : Ops) → IsTyped ops → IsTyped (record ops { mpo_vnode_check_lookup = none })
without_lookup ops typed mpo_policy_init = typed mpo_policy_init
without_lookup ops typed mpo_policy_initbsd = typed mpo_policy_initbsd
without_lookup ops typed mpo_policy_destroy = typed mpo_policy_destroy
without_lookup ops typed mpo_vnode_check_open = typed mpo_vnode_check_open
without_lookup ops typed mpo_vnode_check_create = typed mpo_vnode_check_create
without_lookup ops typed mpo_vnode_check_unlink = typed mpo_vnode_check_unlink
without_lookup ops typed mpo_vnode_check_rename = typed mpo_vnode_check_rename
without_lookup ops typed mpo_vnode_check_lookup = tt
without_lookup ops typed mpo_vnode_check_readlink = typed mpo_vnode_check_readlink
without_lookup ops typed mpo_vnode_check_getattr = typed mpo_vnode_check_getattr
without_lookup ops typed mpo_vnode_check_setattrlist = typed mpo_vnode_check_setattrlist
without_lookup ops typed mpo_vnode_label_associate_extattr = typed mpo_vnode_label_associate_extattr
without_lookup ops typed mpo_vnode_label_copy = typed mpo_vnode_label_copy
without_lookup ops typed mpo_file_check_mmap = typed mpo_file_check_mmap
without_lookup ops typed mpo_file_check_library_validation = typed mpo_file_check_library_validation
without_lookup ops typed mpo_proc_check_signal = typed mpo_proc_check_signal
without_lookup ops typed mpo_proc_check_fork = typed mpo_proc_check_fork
without_lookup ops typed mpo_proc_notify_exit = typed mpo_proc_notify_exit
without_lookup ops typed mpo_socket_check_connect = typed mpo_socket_check_connect
without_lookup ops typed mpo_socket_check_create = typed mpo_socket_check_create
without_lookup ops typed mpo_socket_check_listen = typed mpo_socket_check_listen
without_lookup ops typed mpo_pty_notify_grant = typed mpo_pty_notify_grant
without_lookup ops typed mpo_vnode_check_exec = typed mpo_vnode_check_exec
without_lookup ops typed mpo_proc_notify_exec_complete = typed mpo_proc_notify_exec_complete

access-IsTyped :
    (self : ℕ) (p : Point) (s : Kext) → IsTyped s.ops → IsTyped (advance self p s).0.ops
unfolding advance
access-IsTyped self (clear_slot b) s typed = without_lookup s.ops typed
access-IsTyped self load_owner s typed = typed
access-IsTyped self store_recursed s typed = typed
access-IsTyped self store_owner s typed = typed
access-IsTyped self add_depth s typed = typed
access-IsTyped self (load_maxdepth d) s typed = typed
access-IsTyped self (store_maxdepth d) s typed = typed
access-IsTyped self add_count s typed = typed
access-IsTyped self (load_trace n) s typed = typed
access-IsTyped self (load_line n) s typed = typed
access-IsTyped self (load_fuse n) s typed = typed
access-IsTyped self (load_fuse_again n) s typed = typed
access-IsTyped self (load_mask b) s typed = typed
access-IsTyped self (store_mask b mask) s typed = typed
access-IsTyped self sub_depth s typed = typed
access-IsTyped self clear_owner s typed = typed

Step-IsTyped : {f : Framework} {s t : Kext} → Step f s t → IsTyped s.ops → IsTyped t.ops
Step-IsTyped {f} {s} (Step.write_hooks req) typed = handler-IsTyped f req s typed
Step-IsTyped (Step.write_trace v) typed = typed
Step-IsTyped (Step.write_unsafe v) typed = typed
Step-IsTyped (Step.write_fuse v) typed = typed
Step-IsTyped (Step.write_maxdepth v) typed = typed
Step-IsTyped (Step.write_recursed v) typed = typed
Step-IsTyped (Step.write_count v) typed = typed
Step-IsTyped {f} {s} (Step.hook_access self p) typed = access-IsTyped self p s typed
Step-IsTyped {f} {s} Step.unload typed = unregister-IsTyped f s typed

zeroed-IsTyped : IsTyped zeroed
zeroed-IsTyped mpo_policy_init = tt
zeroed-IsTyped mpo_policy_initbsd = tt
zeroed-IsTyped mpo_policy_destroy = tt
zeroed-IsTyped mpo_vnode_check_open = tt
zeroed-IsTyped mpo_vnode_check_create = tt
zeroed-IsTyped mpo_vnode_check_unlink = tt
zeroed-IsTyped mpo_vnode_check_rename = tt
zeroed-IsTyped mpo_vnode_check_lookup = tt
zeroed-IsTyped mpo_vnode_check_readlink = tt
zeroed-IsTyped mpo_vnode_check_getattr = tt
zeroed-IsTyped mpo_vnode_check_setattrlist = tt
zeroed-IsTyped mpo_vnode_label_associate_extattr = tt
zeroed-IsTyped mpo_vnode_label_copy = tt
zeroed-IsTyped mpo_file_check_mmap = tt
zeroed-IsTyped mpo_file_check_library_validation = tt
zeroed-IsTyped mpo_proc_check_signal = tt
zeroed-IsTyped mpo_proc_check_fork = tt
zeroed-IsTyped mpo_proc_notify_exit = tt
zeroed-IsTyped mpo_socket_check_connect = tt
zeroed-IsTyped mpo_socket_check_create = tt
zeroed-IsTyped mpo_socket_check_listen = tt
zeroed-IsTyped mpo_pty_notify_grant = tt
zeroed-IsTyped mpo_vnode_check_exec = tt
zeroed-IsTyped mpo_proc_notify_exec_complete = tt

-- From the load of the module on, after any requests to the oids, any accesses of the lookup hook by
-- any threads and any calls of the unload entry, a function that stands in a typed member of the ops
-- vector is declared in kext/kernel.h with the very type that the member has in sebsd_mac.h.
pub run-IsTyped :
    {f : Framework} {s : Kext} → Run f (policy_register f loaded).left s → IsTyped s.ops
run-IsTyped {f} Run.begun = register-IsTyped f loaded zeroed-IsTyped
run-IsTyped (Run.then_step r step) = Step-IsTyped step (run-IsTyped r)
