-- ===== src/Ops.antt =====
-- The policy's ops vector and what kext/main.c stores in it: `sebsd_install_lifecycle` and
-- `sebsd_install_hooks`. The record has the 24 members that have a type of their own; no code
-- names the other 311, which stay zero. A member is NULL (`none`) or holds a function's address.
pub mod Slots
pub mod Typed
pub mod Stores
use sedarwin.Prelude.{ℕ, bit_and, Option, none, some, ◌==◌, if◌then◌else◌}
use sedarwin.Mask.{
  hook_vnode_open, hook_vnode_create, hook_vnode_unlink, hook_vnode_rename, hook_vnode_lookup,
  hook_vnode_readlink, hook_vnode_getattr, hook_vnode_setattrlist, hook_vnode_lbl_extattr,
  hook_vnode_lbl_copy, hook_file_mmap, hook_file_libval, hook_proc_signal, hook_proc_fork,
  hook_proc_exit, hook_socket_connect, hook_socket_create, hook_socket_listen, hook_pty_grant,
  hook_exec_check, hook_exec_complete,
}

-- The functions whose addresses are stored.
pub data Function : Type 0 where
  sebsd_policy_init : Function
  sebsd_policy_initbsd : Function
  sebsd_policy_destroy : Function
  sebsd_vnode_check_open : Function
  sebsd_vnode_check_create : Function
  sebsd_vnode_check_unlink : Function
  sebsd_vnode_check_rename : Function
  sebsd_vnode_check_lookup : Function
  sebsd_vnode_check_readlink : Function
  sebsd_vnode_check_getattr : Function
  sebsd_vnode_check_setattrlist : Function
  sebsd_vnode_label_associate_extattr : Function
  sebsd_vnode_label_copy : Function
  sebsd_file_check_mmap : Function
  sebsd_file_check_library_validation : Function
  sebsd_proc_check_signal : Function
  sebsd_proc_check_fork : Function
  sebsd_proc_notify_exit : Function
  sebsd_socket_check_connect : Function
  sebsd_socket_check_create : Function
  sebsd_socket_check_listen : Function
  sebsd_pty_notify_grant : Function
  sebsd_spawn_check_exec : Function
  sebsd_spawn_notify_exec_complete : Function

pub record Ops : Type 0 where
  pub mpo_policy_init : Option Function
  pub mpo_policy_initbsd : Option Function
  pub mpo_policy_destroy : Option Function
  pub mpo_vnode_check_open : Option Function
  pub mpo_vnode_check_create : Option Function
  pub mpo_vnode_check_unlink : Option Function
  pub mpo_vnode_check_rename : Option Function
  pub mpo_vnode_check_lookup : Option Function
  pub mpo_vnode_check_readlink : Option Function
  pub mpo_vnode_check_getattr : Option Function
  pub mpo_vnode_check_setattrlist : Option Function
  pub mpo_vnode_label_associate_extattr : Option Function
  pub mpo_vnode_label_copy : Option Function
  pub mpo_file_check_mmap : Option Function
  pub mpo_file_check_library_validation : Option Function
  pub mpo_proc_check_signal : Option Function
  pub mpo_proc_check_fork : Option Function
  pub mpo_proc_notify_exit : Option Function
  pub mpo_socket_check_connect : Option Function
  pub mpo_socket_check_create : Option Function
  pub mpo_socket_check_listen : Option Function
  pub mpo_pty_notify_grant : Option Function
  pub mpo_vnode_check_exec : Option Function
  pub mpo_proc_notify_exec_complete : Option Function

-- The vector in .data before anything is stored.
abbrev pub zeroed : Ops
zeroed = record {
  mpo_policy_init = none;
  mpo_policy_initbsd = none;
  mpo_policy_destroy = none;
  mpo_vnode_check_open = none;
  mpo_vnode_check_create = none;
  mpo_vnode_check_unlink = none;
  mpo_vnode_check_rename = none;
  mpo_vnode_check_lookup = none;
  mpo_vnode_check_readlink = none;
  mpo_vnode_check_getattr = none;
  mpo_vnode_check_setattrlist = none;
  mpo_vnode_label_associate_extattr = none;
  mpo_vnode_label_copy = none;
  mpo_file_check_mmap = none;
  mpo_file_check_library_validation = none;
  mpo_proc_check_signal = none;
  mpo_proc_check_fork = none;
  mpo_proc_notify_exit = none;
  mpo_socket_check_connect = none;
  mpo_socket_check_create = none;
  mpo_socket_check_listen = none;
  mpo_pty_notify_grant = none;
  mpo_vnode_check_exec = none;
  mpo_proc_notify_exec_complete = none;
}

-- `(mask & BIT) ? function : NULL`
abbrev pub select : ℕ → ℕ → Function → Option Function
select mask bit f = if bit_and mask bit == 0 then none else some f

unfoldable pub install_lifecycle : Ops → Ops
install_lifecycle ops = record ops {
  mpo_policy_init = some sebsd_policy_init;
  mpo_policy_initbsd = some sebsd_policy_initbsd;
  mpo_policy_destroy = some sebsd_policy_destroy;
}

unfoldable pub install_hooks : Ops → ℕ → Ops
install_hooks ops mask = record ops {
  mpo_vnode_check_open = select mask hook_vnode_open sebsd_vnode_check_open;
  mpo_vnode_check_create = select mask hook_vnode_create sebsd_vnode_check_create;
  mpo_vnode_check_unlink = select mask hook_vnode_unlink sebsd_vnode_check_unlink;
  mpo_vnode_check_rename = select mask hook_vnode_rename sebsd_vnode_check_rename;
  mpo_vnode_check_lookup = select mask hook_vnode_lookup sebsd_vnode_check_lookup;
  mpo_vnode_check_readlink = select mask hook_vnode_readlink sebsd_vnode_check_readlink;
  mpo_vnode_check_getattr = select mask hook_vnode_getattr sebsd_vnode_check_getattr;
  mpo_vnode_check_setattrlist = select mask hook_vnode_setattrlist sebsd_vnode_check_setattrlist;
  mpo_vnode_label_associate_extattr =
      select mask hook_vnode_lbl_extattr sebsd_vnode_label_associate_extattr;
  mpo_vnode_label_copy = select mask hook_vnode_lbl_copy sebsd_vnode_label_copy;
  mpo_file_check_mmap = select mask hook_file_mmap sebsd_file_check_mmap;
  mpo_file_check_library_validation =
      select mask hook_file_libval sebsd_file_check_library_validation;
  mpo_proc_check_signal = select mask hook_proc_signal sebsd_proc_check_signal;
  mpo_proc_check_fork = select mask hook_proc_fork sebsd_proc_check_fork;
  mpo_proc_notify_exit = select mask hook_proc_exit sebsd_proc_notify_exit;
  mpo_socket_check_connect = select mask hook_socket_connect sebsd_socket_check_connect;
  mpo_socket_check_create = select mask hook_socket_create sebsd_socket_check_create;
  mpo_socket_check_listen = select mask hook_socket_listen sebsd_socket_check_listen;
  mpo_pty_notify_grant = select mask hook_pty_grant sebsd_pty_notify_grant;
  mpo_vnode_check_exec = select mask hook_exec_check sebsd_spawn_check_exec;
  mpo_proc_notify_exec_complete = select mask hook_exec_complete sebsd_spawn_notify_exec_complete;
}
