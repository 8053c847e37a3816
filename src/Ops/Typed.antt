-- ===== src/Ops/Typed.antt =====
-- Whatever runs, the ops vector holds only functions of the type that the member is declared with.
use sedarwin.Prelude.{none, some, ℕ, ◌≡◌, refl, some, Option, bit_and, ◌==◌, Bool-cases, inl, inr}
use sedarwin.Abi.{
  Member, mpo_policy_init, mpo_policy_initbsd, mpo_policy_destroy, mpo_vnode_check_open,
  mpo_vnode_check_create, mpo_vnode_check_unlink, mpo_vnode_check_rename, mpo_vnode_check_lookup,
  mpo_vnode_check_readlink, mpo_vnode_check_getattr, mpo_vnode_check_setattrlist,
  mpo_vnode_label_associate_extattr, mpo_vnode_label_copy, mpo_file_check_mmap,
  mpo_file_check_library_validation, mpo_proc_check_signal, mpo_proc_check_fork,
  mpo_proc_notify_exit, mpo_socket_check_connect, mpo_socket_check_create, mpo_socket_check_listen,
  mpo_pty_notify_grant, mpo_vnode_check_exec, mpo_proc_notify_exec_complete,
}
use sedarwin.Abi.Types.{Signature, member_type, prototype}
use sedarwin.Mask.{
  hook_exec_check, hook_exec_complete, hook_file_libval, hook_file_mmap, hook_proc_exit,
  hook_proc_fork, hook_proc_signal, hook_pty_grant, hook_socket_connect, hook_socket_create,
  hook_socket_listen, hook_vnode_create, hook_vnode_getattr, hook_vnode_lbl_copy,
  hook_vnode_lbl_extattr, hook_vnode_lookup, hook_vnode_open, hook_vnode_readlink,
  hook_vnode_rename, hook_vnode_setattrlist, hook_vnode_unlink,
}
use sedarwin.Ops.{
  sebsd_file_check_library_validation, sebsd_file_check_mmap, sebsd_proc_check_fork,
  sebsd_proc_check_signal, sebsd_proc_notify_exit, sebsd_pty_notify_grant,
  sebsd_socket_check_connect, sebsd_socket_check_create, sebsd_socket_check_listen,
  sebsd_spawn_check_exec, sebsd_spawn_notify_exec_complete, sebsd_vnode_check_create,
  sebsd_vnode_check_getattr, sebsd_vnode_check_lookup, sebsd_vnode_check_open,
  sebsd_vnode_check_readlink, sebsd_vnode_check_rename, sebsd_vnode_check_setattrlist,
  sebsd_vnode_check_unlink, sebsd_vnode_label_associate_extattr, sebsd_vnode_label_copy, Ops,
  Function, select, install_hooks, install_lifecycle,
}

-- What a member of the vector holds.
abbrev pub held : Member → Ops → Option Function
held mpo_policy_init ops = ops.mpo_policy_init
held mpo_policy_initbsd ops = ops.mpo_policy_initbsd
held mpo_policy_destroy ops = ops.mpo_policy_destroy
held mpo_vnode_check_open ops = ops.mpo_vnode_check_open
held mpo_vnode_check_create ops = ops.mpo_vnode_check_create
held mpo_vnode_check_unlink ops = ops.mpo_vnode_check_unlink
held mpo_vnode_check_rename ops = ops.mpo_vnode_check_rename
held mpo_vnode_check_lookup ops = ops.mpo_vnode_check_lookup
held mpo_vnode_check_readlink ops = ops.mpo_vnode_check_readlink
held mpo_vnode_check_getattr ops = ops.mpo_vnode_check_getattr
held mpo_vnode_check_setattrlist ops = ops.mpo_vnode_check_setattrlist
held mpo_vnode_label_associate_extattr ops = ops.mpo_vnode_label_associate_extattr
held mpo_vnode_label_copy ops = ops.mpo_vnode_label_copy
held mpo_file_check_mmap ops = ops.mpo_file_check_mmap
held mpo_file_check_library_validation ops = ops.mpo_file_check_library_validation
held mpo_proc_check_signal ops = ops.mpo_proc_check_signal
held mpo_proc_check_fork ops = ops.mpo_proc_check_fork
held mpo_proc_notify_exit ops = ops.mpo_proc_notify_exit
held mpo_socket_check_connect ops = ops.mpo_socket_check_connect
held mpo_socket_check_create ops = ops.mpo_socket_check_create
held mpo_socket_check_listen ops = ops.mpo_socket_check_listen
held mpo_pty_notify_grant ops = ops.mpo_pty_notify_grant
held mpo_vnode_check_exec ops = ops.mpo_vnode_check_exec
held mpo_proc_notify_exec_complete ops = ops.mpo_proc_notify_exec_complete

-- The address of a function that is stored has the type of the member.
abbrev pub HasType : Option Function → Signature → Type 0
HasType none t = Unit {0}
HasType (some f) t = prototype f ≡ t

abbrev pub IsTyped : Ops → Type 0
IsTyped ops = (m : Member) → HasType (held m ops) (member_type m)

select-HasType :
    (mask bit : ℕ) (f : Function) (t : Signature) → prototype f ≡ t → HasType (select mask bit f) t
select-HasType mask bit f t e = elim (Bool-cases (bit_and mask bit == 0)) [
  | inl off ↦ rw off tt
  | inr on ↦ rw on e
]

pub held-install_hooks : (ops : Ops) (mask : ℕ) → IsTyped ops → IsTyped (install_hooks ops mask)
unfolding install_hooks
held-install_hooks ops mask typed mpo_policy_init = typed mpo_policy_init
held-install_hooks ops mask typed mpo_policy_initbsd = typed mpo_policy_initbsd
held-install_hooks ops mask typed mpo_policy_destroy = typed mpo_policy_destroy
held-install_hooks ops mask typed mpo_vnode_check_open =
    select-HasType mask hook_vnode_open sebsd_vnode_check_open (member_type mpo_vnode_check_open)
      refl
held-install_hooks ops mask typed mpo_vnode_check_create =
    select-HasType mask hook_vnode_create sebsd_vnode_check_create
      (member_type mpo_vnode_check_create) refl
held-install_hooks ops mask typed mpo_vnode_check_unlink =
    select-HasType mask hook_vnode_unlink sebsd_vnode_check_unlink
      (member_type mpo_vnode_check_unlink) refl
held-install_hooks ops mask typed mpo_vnode_check_rename =
    select-HasType mask hook_vnode_rename sebsd_vnode_check_rename
      (member_type mpo_vnode_check_rename) refl
held-install_hooks ops mask typed mpo_vnode_check_lookup =
    select-HasType mask hook_vnode_lookup sebsd_vnode_check_lookup
      (member_type mpo_vnode_check_lookup) refl
held-install_hooks ops mask typed mpo_vnode_check_readlink =
    select-HasType mask hook_vnode_readlink sebsd_vnode_check_readlink
      (member_type mpo_vnode_check_readlink) refl
held-install_hooks ops mask typed mpo_vnode_check_getattr =
    select-HasType mask hook_vnode_getattr sebsd_vnode_check_getattr
      (member_type mpo_vnode_check_getattr) refl
held-install_hooks ops mask typed mpo_vnode_check_setattrlist =
    select-HasType mask hook_vnode_setattrlist sebsd_vnode_check_setattrlist
      (member_type mpo_vnode_check_setattrlist) refl
held-install_hooks ops mask typed mpo_vnode_label_associate_extattr =
    select-HasType mask hook_vnode_lbl_extattr sebsd_vnode_label_associate_extattr
      (member_type mpo_vnode_label_associate_extattr) refl
held-install_hooks ops mask typed mpo_vnode_label_copy =
    select-HasType mask hook_vnode_lbl_copy sebsd_vnode_label_copy
      (member_type mpo_vnode_label_copy) refl
held-install_hooks ops mask typed mpo_file_check_mmap =
    select-HasType mask hook_file_mmap sebsd_file_check_mmap (member_type mpo_file_check_mmap) refl
held-install_hooks ops mask typed mpo_file_check_library_validation =
    select-HasType mask hook_file_libval sebsd_file_check_library_validation
      (member_type mpo_file_check_library_validation) refl
held-install_hooks ops mask typed mpo_proc_check_signal =
    select-HasType mask hook_proc_signal sebsd_proc_check_signal (member_type mpo_proc_check_signal)
      refl
held-install_hooks ops mask typed mpo_proc_check_fork =
    select-HasType mask hook_proc_fork sebsd_proc_check_fork (member_type mpo_proc_check_fork) refl
held-install_hooks ops mask typed mpo_proc_notify_exit =
    select-HasType mask hook_proc_exit sebsd_proc_notify_exit (member_type mpo_proc_notify_exit)
      refl
held-install_hooks ops mask typed mpo_socket_check_connect =
    select-HasType mask hook_socket_connect sebsd_socket_check_connect
      (member_type mpo_socket_check_connect) refl
held-install_hooks ops mask typed mpo_socket_check_create =
    select-HasType mask hook_socket_create sebsd_socket_check_create
      (member_type mpo_socket_check_create) refl
held-install_hooks ops mask typed mpo_socket_check_listen =
    select-HasType mask hook_socket_listen sebsd_socket_check_listen
      (member_type mpo_socket_check_listen) refl
held-install_hooks ops mask typed mpo_pty_notify_grant =
    select-HasType mask hook_pty_grant sebsd_pty_notify_grant (member_type mpo_pty_notify_grant)
      refl
held-install_hooks ops mask typed mpo_vnode_check_exec =
    select-HasType mask hook_exec_check sebsd_spawn_check_exec (member_type mpo_vnode_check_exec)
      refl
held-install_hooks ops mask typed mpo_proc_notify_exec_complete =
    select-HasType mask hook_exec_complete sebsd_spawn_notify_exec_complete
      (member_type mpo_proc_notify_exec_complete) refl

pub held-install_lifecycle : (ops : Ops) → IsTyped ops → IsTyped (install_lifecycle ops)
unfolding install_lifecycle
held-install_lifecycle ops typed mpo_policy_init = refl
held-install_lifecycle ops typed mpo_policy_initbsd = refl
held-install_lifecycle ops typed mpo_policy_destroy = refl
held-install_lifecycle ops typed mpo_vnode_check_open = typed mpo_vnode_check_open
held-install_lifecycle ops typed mpo_vnode_check_create = typed mpo_vnode_check_create
held-install_lifecycle ops typed mpo_vnode_check_unlink = typed mpo_vnode_check_unlink
held-install_lifecycle ops typed mpo_vnode_check_rename = typed mpo_vnode_check_rename
held-install_lifecycle ops typed mpo_vnode_check_lookup = typed mpo_vnode_check_lookup
held-install_lifecycle ops typed mpo_vnode_check_readlink = typed mpo_vnode_check_readlink
held-install_lifecycle ops typed mpo_vnode_check_getattr = typed mpo_vnode_check_getattr
held-install_lifecycle ops typed mpo_vnode_check_setattrlist = typed mpo_vnode_check_setattrlist
held-install_lifecycle ops typed mpo_vnode_label_associate_extattr =
    typed mpo_vnode_label_associate_extattr
held-install_lifecycle ops typed mpo_vnode_label_copy = typed mpo_vnode_label_copy
held-install_lifecycle ops typed mpo_file_check_mmap = typed mpo_file_check_mmap
held-install_lifecycle ops typed mpo_file_check_library_validation =
    typed mpo_file_check_library_validation
held-install_lifecycle ops typed mpo_proc_check_signal = typed mpo_proc_check_signal
held-install_lifecycle ops typed mpo_proc_check_fork = typed mpo_proc_check_fork
held-install_lifecycle ops typed mpo_proc_notify_exit = typed mpo_proc_notify_exit
held-install_lifecycle ops typed mpo_socket_check_connect = typed mpo_socket_check_connect
held-install_lifecycle ops typed mpo_socket_check_create = typed mpo_socket_check_create
held-install_lifecycle ops typed mpo_socket_check_listen = typed mpo_socket_check_listen
held-install_lifecycle ops typed mpo_pty_notify_grant = typed mpo_pty_notify_grant
held-install_lifecycle ops typed mpo_vnode_check_exec = typed mpo_vnode_check_exec
held-install_lifecycle ops typed mpo_proc_notify_exec_complete = typed mpo_proc_notify_exec_complete
