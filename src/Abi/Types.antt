-- ===== src/Abi/Types.antt =====
-- The types of the hooks: the `mpo_*_t` typedefs of include/sedarwin/sebsd_mac.h, which the members of
-- the ops vector are declared with, and the prototypes of kext/kernel.h.
use sedarwin.Prelude.{List, [], ◌∷◌}
use sedarwin.Abi.{
  Member, mpo_policy_init, mpo_policy_initbsd, mpo_policy_destroy, mpo_vnode_check_open,
  mpo_vnode_check_create, mpo_vnode_check_unlink, mpo_vnode_check_rename, mpo_vnode_check_lookup,
  mpo_vnode_check_readlink, mpo_vnode_check_getattr, mpo_vnode_check_setattrlist,
  mpo_vnode_label_associate_extattr, mpo_vnode_label_copy, mpo_file_check_mmap,
  mpo_file_check_library_validation, mpo_proc_check_signal, mpo_proc_check_fork,
  mpo_proc_notify_exit, mpo_socket_check_connect, mpo_socket_check_create, mpo_socket_check_listen,
  mpo_pty_notify_grant, mpo_vnode_check_exec, mpo_proc_notify_exec_complete,
}
use sedarwin.Ops.{
  Function, sebsd_policy_init, sebsd_policy_initbsd, sebsd_policy_destroy, sebsd_vnode_check_open,
  sebsd_vnode_check_create, sebsd_vnode_check_unlink, sebsd_vnode_check_rename,
  sebsd_vnode_check_lookup, sebsd_vnode_check_readlink, sebsd_vnode_check_getattr,
  sebsd_vnode_check_setattrlist, sebsd_vnode_label_associate_extattr, sebsd_vnode_label_copy,
  sebsd_file_check_mmap, sebsd_file_check_library_validation, sebsd_proc_check_signal,
  sebsd_proc_check_fork, sebsd_proc_notify_exit, sebsd_socket_check_connect,
  sebsd_socket_check_create, sebsd_socket_check_listen, sebsd_pty_notify_grant,
  sebsd_spawn_check_exec, sebsd_spawn_notify_exec_complete,
}

-- The tags of the structures that the hooks are given pointers to.
pub data Tag : Type 0 where
  proc fileglob label mac_policy_conf tty sockaddr vnode componentname vnode_attr attrlist mount :
      Tag

-- A type as it is spelled; a typedef of the kernel is opaque.
pub data CType : Type 0 where
  int off_t user_long_t size_t kauth_cred_t uint64_t void proc_ident_t proc_t dev_t socket_t : CType
  int_ptr u_int_ptr void_ptr : CType
  struct_ptr : Tag → CType

-- The type of a function, without the names of its parameters.
pub data Signature : Type 0 where
  signature : (result : CType) (parameters : List CType) → Signature

-- The type of a member of `struct mac_policy_ops`, a pointer to such a function.
abbrev pub member_type : Member → Signature
member_type mpo_policy_init = signature void (struct_ptr mac_policy_conf ∷ [])
member_type mpo_policy_initbsd = signature void (struct_ptr mac_policy_conf ∷ [])
member_type mpo_policy_destroy = signature void (struct_ptr mac_policy_conf ∷ [])
member_type mpo_vnode_check_open =
    signature int (kauth_cred_t ∷ struct_ptr vnode ∷ struct_ptr label ∷ int ∷ [])
member_type mpo_vnode_check_create = signature int (
    kauth_cred_t
    ∷ struct_ptr vnode
    ∷ struct_ptr label
    ∷ struct_ptr componentname
    ∷ struct_ptr vnode_attr
    ∷ [])
member_type mpo_vnode_check_unlink = signature int (
    kauth_cred_t
    ∷ struct_ptr vnode
    ∷ struct_ptr label
    ∷ struct_ptr vnode
    ∷ struct_ptr label
    ∷ struct_ptr componentname
    ∷ [])
member_type mpo_vnode_check_rename = signature int (
    kauth_cred_t
    ∷ struct_ptr vnode
    ∷ struct_ptr label
    ∷ struct_ptr vnode
    ∷ struct_ptr label
    ∷ struct_ptr componentname
    ∷ struct_ptr vnode
    ∷ struct_ptr label
    ∷ struct_ptr vnode
    ∷ struct_ptr label
    ∷ struct_ptr componentname
    ∷ [])
member_type mpo_vnode_check_lookup =
    signature int
      (kauth_cred_t ∷ struct_ptr vnode ∷ struct_ptr label ∷ struct_ptr componentname ∷ [])
member_type mpo_vnode_check_readlink =
    signature int (kauth_cred_t ∷ struct_ptr vnode ∷ struct_ptr label ∷ [])
member_type mpo_vnode_check_getattr =
    signature int (
      kauth_cred_t
      ∷ kauth_cred_t
      ∷ struct_ptr vnode
      ∷ struct_ptr label
      ∷ struct_ptr vnode_attr
      ∷ [])
member_type mpo_vnode_check_setattrlist =
    signature int (kauth_cred_t ∷ struct_ptr vnode ∷ struct_ptr label ∷ struct_ptr attrlist ∷ [])
member_type mpo_vnode_label_associate_extattr =
    signature int (struct_ptr mount ∷ struct_ptr label ∷ struct_ptr vnode ∷ struct_ptr label ∷ [])
member_type mpo_vnode_label_copy = signature void (struct_ptr label ∷ struct_ptr label ∷ [])
member_type mpo_file_check_mmap =
    signature int
      (kauth_cred_t ∷ struct_ptr fileglob ∷ struct_ptr label ∷ int ∷ int ∷ uint64_t ∷ int_ptr ∷ [])
member_type mpo_file_check_library_validation =
    signature int (struct_ptr proc ∷ struct_ptr fileglob ∷ off_t ∷ user_long_t ∷ size_t ∷ [])
member_type mpo_proc_check_signal =
    signature int (kauth_cred_t ∷ proc_ident_t ∷ proc_ident_t ∷ int ∷ [])
member_type mpo_proc_check_fork = signature int (kauth_cred_t ∷ struct_ptr proc ∷ [])
member_type mpo_proc_notify_exit = signature void (struct_ptr proc ∷ [])
member_type mpo_socket_check_connect =
    signature int (kauth_cred_t ∷ socket_t ∷ struct_ptr label ∷ struct_ptr sockaddr ∷ [])
member_type mpo_socket_check_create = signature int (kauth_cred_t ∷ int ∷ int ∷ int ∷ [])
member_type mpo_socket_check_listen =
    signature int (kauth_cred_t ∷ socket_t ∷ struct_ptr label ∷ [])
member_type mpo_pty_notify_grant =
    signature void (proc_t ∷ struct_ptr tty ∷ dev_t ∷ struct_ptr label ∷ [])
member_type mpo_vnode_check_exec = signature int (
    kauth_cred_t
    ∷ struct_ptr vnode
    ∷ struct_ptr vnode
    ∷ struct_ptr label
    ∷ struct_ptr label
    ∷ struct_ptr label
    ∷ struct_ptr componentname
    ∷ u_int_ptr
    ∷ void_ptr
    ∷ size_t
    ∷ [])
member_type mpo_proc_notify_exec_complete = signature void (struct_ptr proc ∷ [])

-- The declared type of an implementation.
abbrev pub prototype : Function → Signature
prototype sebsd_policy_init = signature void (struct_ptr mac_policy_conf ∷ [])
prototype sebsd_policy_initbsd = signature void (struct_ptr mac_policy_conf ∷ [])
prototype sebsd_policy_destroy = signature void (struct_ptr mac_policy_conf ∷ [])
prototype sebsd_vnode_check_open =
    signature int (kauth_cred_t ∷ struct_ptr vnode ∷ struct_ptr label ∷ int ∷ [])
prototype sebsd_vnode_check_create = signature int (
    kauth_cred_t
    ∷ struct_ptr vnode
    ∷ struct_ptr label
    ∷ struct_ptr componentname
    ∷ struct_ptr vnode_attr
    ∷ [])
prototype sebsd_vnode_check_unlink = signature int (
    kauth_cred_t
    ∷ struct_ptr vnode
    ∷ struct_ptr label
    ∷ struct_ptr vnode
    ∷ struct_ptr label
    ∷ struct_ptr componentname
    ∷ [])
prototype sebsd_vnode_check_rename = signature int (
    kauth_cred_t
    ∷ struct_ptr vnode
    ∷ struct_ptr label
    ∷ struct_ptr vnode
    ∷ struct_ptr label
    ∷ struct_ptr componentname
    ∷ struct_ptr vnode
    ∷ struct_ptr label
    ∷ struct_ptr vnode
    ∷ struct_ptr label
    ∷ struct_ptr componentname
    ∷ [])
prototype sebsd_vnode_check_lookup =
    signature int
      (kauth_cred_t ∷ struct_ptr vnode ∷ struct_ptr label ∷ struct_ptr componentname ∷ [])
prototype sebsd_vnode_check_readlink =
    signature int (kauth_cred_t ∷ struct_ptr vnode ∷ struct_ptr label ∷ [])
prototype sebsd_vnode_check_getattr =
    signature int (
      kauth_cred_t
      ∷ kauth_cred_t
      ∷ struct_ptr vnode
      ∷ struct_ptr label
      ∷ struct_ptr vnode_attr
      ∷ [])
prototype sebsd_vnode_check_setattrlist =
    signature int (kauth_cred_t ∷ struct_ptr vnode ∷ struct_ptr label ∷ struct_ptr attrlist ∷ [])
prototype sebsd_vnode_label_associate_extattr =
    signature int (struct_ptr mount ∷ struct_ptr label ∷ struct_ptr vnode ∷ struct_ptr label ∷ [])
prototype sebsd_vnode_label_copy = signature void (struct_ptr label ∷ struct_ptr label ∷ [])
prototype sebsd_file_check_mmap =
    signature int
      (kauth_cred_t ∷ struct_ptr fileglob ∷ struct_ptr label ∷ int ∷ int ∷ uint64_t ∷ int_ptr ∷ [])
prototype sebsd_file_check_library_validation =
    signature int (struct_ptr proc ∷ struct_ptr fileglob ∷ off_t ∷ user_long_t ∷ size_t ∷ [])
prototype sebsd_proc_check_signal =
    signature int (kauth_cred_t ∷ proc_ident_t ∷ proc_ident_t ∷ int ∷ [])
prototype sebsd_proc_check_fork = signature int (kauth_cred_t ∷ struct_ptr proc ∷ [])
prototype sebsd_proc_notify_exit = signature void (struct_ptr proc ∷ [])
prototype sebsd_socket_check_connect =
    signature int (kauth_cred_t ∷ socket_t ∷ struct_ptr label ∷ struct_ptr sockaddr ∷ [])
prototype sebsd_socket_check_create = signature int (kauth_cred_t ∷ int ∷ int ∷ int ∷ [])
prototype sebsd_socket_check_listen =
    signature int (kauth_cred_t ∷ socket_t ∷ struct_ptr label ∷ [])
prototype sebsd_pty_notify_grant =
    signature void (proc_t ∷ struct_ptr tty ∷ dev_t ∷ struct_ptr label ∷ [])
prototype sebsd_spawn_check_exec = signature int (
    kauth_cred_t
    ∷ struct_ptr vnode
    ∷ struct_ptr vnode
    ∷ struct_ptr label
    ∷ struct_ptr label
    ∷ struct_ptr label
    ∷ struct_ptr componentname
    ∷ u_int_ptr
    ∷ void_ptr
    ∷ size_t
    ∷ [])
prototype sebsd_spawn_notify_exec_complete = signature void (struct_ptr proc ∷ [])
