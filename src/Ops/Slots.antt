-- ===== src/Ops/Slots.antt =====
-- Which members of the ops vector a mask fills, hook by hook.
use sedarwin.Prelude.{
  ℕ, ◌≡◌, ◌∙◌, refl, Option, none, some, ◌==◌, if◌then◌else◌, arith, nth_bit, nth_bit-lt, weight,
  bit_and-weight, dec_lt, zero, suc, ◌<◌,
}
use sedarwin.Ops.{
  Ops, Function, install_hooks, select, sebsd_vnode_check_open, sebsd_vnode_check_create,
  sebsd_vnode_check_unlink, sebsd_vnode_check_rename, sebsd_vnode_check_lookup,
  sebsd_vnode_check_readlink, sebsd_vnode_check_getattr, sebsd_vnode_check_setattrlist,
  sebsd_vnode_label_associate_extattr, sebsd_vnode_label_copy, sebsd_file_check_mmap,
  sebsd_file_check_library_validation, sebsd_proc_check_signal, sebsd_proc_check_fork,
  sebsd_proc_notify_exit, sebsd_socket_check_connect, sebsd_socket_check_create,
  sebsd_socket_check_listen, sebsd_pty_notify_grant, sebsd_spawn_check_exec,
  sebsd_spawn_notify_exec_complete,
}

-- The per-event hooks: the table in README.md.
pub data Hook : Type 0 where
  vnode_check_open : Hook
  vnode_check_create : Hook
  vnode_check_unlink : Hook
  vnode_check_rename : Hook
  vnode_check_lookup : Hook
  vnode_check_readlink : Hook
  vnode_check_getattr : Hook
  vnode_check_setattrlist : Hook
  vnode_label_associate_extattr : Hook
  vnode_label_copy : Hook
  file_check_mmap : Hook
  file_check_library_validation : Hook
  proc_check_signal : Hook
  proc_check_fork : Hook
  proc_notify_exit : Hook
  socket_check_connect : Hook
  socket_check_create : Hook
  socket_check_listen : Hook
  pty_notify_grant : Hook
  vnode_check_exec : Hook
  proc_notify_exec_complete : Hook

-- The bit of a hook in the mask, by that table.
abbrev pub bit_of : Hook → ℕ
bit_of vnode_check_open = 0
bit_of vnode_check_create = 1
bit_of vnode_check_unlink = 2
bit_of vnode_check_rename = 3
bit_of vnode_check_lookup = 4
bit_of vnode_check_readlink = 5
bit_of vnode_check_getattr = 6
bit_of vnode_check_setattrlist = 7
bit_of vnode_label_associate_extattr = 8
bit_of vnode_label_copy = 9
bit_of file_check_mmap = 10
bit_of file_check_library_validation = 11
bit_of proc_check_signal = 12
bit_of proc_check_fork = 13
bit_of proc_notify_exit = 14
bit_of socket_check_connect = 15
bit_of socket_check_create = 16
bit_of socket_check_listen = 17
bit_of pty_notify_grant = 18
bit_of vnode_check_exec = 19
bit_of proc_notify_exec_complete = 20

-- The member that the framework reads for a hook.
abbrev pub slot : Hook → Ops → Option Function
slot vnode_check_open ops = ops.mpo_vnode_check_open
slot vnode_check_create ops = ops.mpo_vnode_check_create
slot vnode_check_unlink ops = ops.mpo_vnode_check_unlink
slot vnode_check_rename ops = ops.mpo_vnode_check_rename
slot vnode_check_lookup ops = ops.mpo_vnode_check_lookup
slot vnode_check_readlink ops = ops.mpo_vnode_check_readlink
slot vnode_check_getattr ops = ops.mpo_vnode_check_getattr
slot vnode_check_setattrlist ops = ops.mpo_vnode_check_setattrlist
slot vnode_label_associate_extattr ops = ops.mpo_vnode_label_associate_extattr
slot vnode_label_copy ops = ops.mpo_vnode_label_copy
slot file_check_mmap ops = ops.mpo_file_check_mmap
slot file_check_library_validation ops = ops.mpo_file_check_library_validation
slot proc_check_signal ops = ops.mpo_proc_check_signal
slot proc_check_fork ops = ops.mpo_proc_check_fork
slot proc_notify_exit ops = ops.mpo_proc_notify_exit
slot socket_check_connect ops = ops.mpo_socket_check_connect
slot socket_check_create ops = ops.mpo_socket_check_create
slot socket_check_listen ops = ops.mpo_socket_check_listen
slot pty_notify_grant ops = ops.mpo_pty_notify_grant
slot vnode_check_exec ops = ops.mpo_vnode_check_exec
slot proc_notify_exec_complete ops = ops.mpo_proc_notify_exec_complete

-- The implementation that belongs in it.
abbrev pub implementation : Hook → Function
implementation vnode_check_open = sebsd_vnode_check_open
implementation vnode_check_create = sebsd_vnode_check_create
implementation vnode_check_unlink = sebsd_vnode_check_unlink
implementation vnode_check_rename = sebsd_vnode_check_rename
implementation vnode_check_lookup = sebsd_vnode_check_lookup
implementation vnode_check_readlink = sebsd_vnode_check_readlink
implementation vnode_check_getattr = sebsd_vnode_check_getattr
implementation vnode_check_setattrlist = sebsd_vnode_check_setattrlist
implementation vnode_label_associate_extattr = sebsd_vnode_label_associate_extattr
implementation vnode_label_copy = sebsd_vnode_label_copy
implementation file_check_mmap = sebsd_file_check_mmap
implementation file_check_library_validation = sebsd_file_check_library_validation
implementation proc_check_signal = sebsd_proc_check_signal
implementation proc_check_fork = sebsd_proc_check_fork
implementation proc_notify_exit = sebsd_proc_notify_exit
implementation socket_check_connect = sebsd_socket_check_connect
implementation socket_check_create = sebsd_socket_check_create
implementation socket_check_listen = sebsd_socket_check_listen
implementation pty_notify_grant = sebsd_pty_notify_grant
implementation vnode_check_exec = sebsd_spawn_check_exec
implementation proc_notify_exec_complete = sebsd_spawn_notify_exec_complete

weight-pos : (k : ℕ) → 0 < weight k
unfolding weight
weight-pos zero = omega arith
weight-pos (suc k) = omega (arith, weight-pos k)

select-weight :
    (k mask : ℕ) (f : Function)
    → select mask (weight k) f ≡ (if nth_bit k mask == 1 then some f else none)
select-weight k mask f = elim (dec_lt 0 (nth_bit k mask)) [
  | yes p ↦
      let one : nth_bit k mask ≡ 1 = omega (arith, nth_bit-lt k mask) in
      rw (bit_and-weight k mask, one) (ground (arith, weight-pos k))
  | no p ↦
      let none_set : nth_bit k mask ≡ 0 = omega arith in
      rw (bit_and-weight k mask, none_set) (ground arith)
]

slot-select :
    (h : Hook) (ops : Ops) (mask : ℕ)
    → slot h (install_hooks ops mask) ≡ select mask (weight (bit_of h)) (implementation h)
unfolding install_hooks weight
slot-select vnode_check_open ops mask = refl
slot-select vnode_check_create ops mask = refl
slot-select vnode_check_unlink ops mask = refl
slot-select vnode_check_rename ops mask = refl
slot-select vnode_check_lookup ops mask = refl
slot-select vnode_check_readlink ops mask = refl
slot-select vnode_check_getattr ops mask = refl
slot-select vnode_check_setattrlist ops mask = refl
slot-select vnode_label_associate_extattr ops mask = refl
slot-select vnode_label_copy ops mask = refl
slot-select file_check_mmap ops mask = refl
slot-select file_check_library_validation ops mask = refl
slot-select proc_check_signal ops mask = refl
slot-select proc_check_fork ops mask = refl
slot-select proc_notify_exit ops mask = refl
slot-select socket_check_connect ops mask = refl
slot-select socket_check_create ops mask = refl
slot-select socket_check_listen ops mask = refl
slot-select pty_notify_grant ops mask = refl
slot-select vnode_check_exec ops mask = refl
slot-select proc_notify_exec_complete ops mask = refl

-- After `sebsd_install_hooks` each hook's member is its implementation if the hook's bit is set in
-- the mask and NULL if not, whatever stood there before; the three lifecycle members are unchanged.
pub slot-install_hooks :
    (h : Hook) (ops : Ops) (mask : ℕ)
    → (slot h (install_hooks ops mask)
        ≡ (if nth_bit (bit_of h) mask == 1 then some (implementation h) else none))
      × ((install_hooks ops mask).mpo_policy_init ≡ ops.mpo_policy_init)
      × ((install_hooks ops mask).mpo_policy_initbsd ≡ ops.mpo_policy_initbsd)
      × ((install_hooks ops mask).mpo_policy_destroy ≡ ops.mpo_policy_destroy)
unfolding install_hooks
slot-install_hooks h ops mask =
    (slot-select h ops mask ∙ select-weight (bit_of h) mask (implementation h), refl, refl, refl)
