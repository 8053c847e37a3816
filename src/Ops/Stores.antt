-- ===== src/Ops/Stores.antt =====
-- `sebsd_install_hooks` of kext/main.c one store at a time.
use sedarwin.Prelude.{ℕ, List, [], ◌∷◌, Option, ◌≡◌, refl, ◌==◌, if◌then◌else◌, arith}
use sedarwin.Mask.{
  hook_vnode_open, hook_vnode_create, hook_vnode_unlink, hook_vnode_rename, hook_vnode_lookup,
  hook_vnode_readlink, hook_vnode_getattr, hook_vnode_setattrlist, hook_vnode_lbl_extattr,
  hook_vnode_lbl_copy, hook_file_mmap, hook_file_libval, hook_proc_signal, hook_proc_fork,
  hook_proc_exit, hook_socket_connect, hook_socket_create, hook_socket_listen, hook_pty_grant,
  hook_exec_check, hook_exec_complete,
}
use sedarwin.Ops.{Ops, Function, select, install_hooks}
use sedarwin.Ops.Slots.{
  Hook, vnode_check_open, vnode_check_create, vnode_check_unlink, vnode_check_rename,
  vnode_check_lookup, vnode_check_readlink, vnode_check_getattr, vnode_check_setattrlist,
  vnode_label_associate_extattr, vnode_label_copy, file_check_mmap, file_check_library_validation,
  proc_check_signal, proc_check_fork, proc_notify_exit, socket_check_connect, socket_check_create,
  socket_check_listen, pty_notify_grant, vnode_check_exec, proc_notify_exec_complete, bit_of, slot,
  implementation,
}

-- One store into a hook's member.
abbrev pub store : Hook → Option Function → Ops → Ops
store vnode_check_open v ops = record ops { mpo_vnode_check_open = v }
store vnode_check_create v ops = record ops { mpo_vnode_check_create = v }
store vnode_check_unlink v ops = record ops { mpo_vnode_check_unlink = v }
store vnode_check_rename v ops = record ops { mpo_vnode_check_rename = v }
store vnode_check_lookup v ops = record ops { mpo_vnode_check_lookup = v }
store vnode_check_readlink v ops = record ops { mpo_vnode_check_readlink = v }
store vnode_check_getattr v ops = record ops { mpo_vnode_check_getattr = v }
store vnode_check_setattrlist v ops = record ops { mpo_vnode_check_setattrlist = v }
store vnode_label_associate_extattr v ops = record ops { mpo_vnode_label_associate_extattr = v }
store vnode_label_copy v ops = record ops { mpo_vnode_label_copy = v }
store file_check_mmap v ops = record ops { mpo_file_check_mmap = v }
store file_check_library_validation v ops = record ops { mpo_file_check_library_validation = v }
store proc_check_signal v ops = record ops { mpo_proc_check_signal = v }
store proc_check_fork v ops = record ops { mpo_proc_check_fork = v }
store proc_notify_exit v ops = record ops { mpo_proc_notify_exit = v }
store socket_check_connect v ops = record ops { mpo_socket_check_connect = v }
store socket_check_create v ops = record ops { mpo_socket_check_create = v }
store socket_check_listen v ops = record ops { mpo_socket_check_listen = v }
store pty_notify_grant v ops = record ops { mpo_pty_notify_grant = v }
store vnode_check_exec v ops = record ops { mpo_vnode_check_exec = v }
store proc_notify_exec_complete v ops = record ops { mpo_proc_notify_exec_complete = v }

-- The constant that the statement for a hook tests the mask with.
abbrev pub flag_of : Hook → ℕ
flag_of vnode_check_open = hook_vnode_open
flag_of vnode_check_create = hook_vnode_create
flag_of vnode_check_unlink = hook_vnode_unlink
flag_of vnode_check_rename = hook_vnode_rename
flag_of vnode_check_lookup = hook_vnode_lookup
flag_of vnode_check_readlink = hook_vnode_readlink
flag_of vnode_check_getattr = hook_vnode_getattr
flag_of vnode_check_setattrlist = hook_vnode_setattrlist
flag_of vnode_label_associate_extattr = hook_vnode_lbl_extattr
flag_of vnode_label_copy = hook_vnode_lbl_copy
flag_of file_check_mmap = hook_file_mmap
flag_of file_check_library_validation = hook_file_libval
flag_of proc_check_signal = hook_proc_signal
flag_of proc_check_fork = hook_proc_fork
flag_of proc_notify_exit = hook_proc_exit
flag_of socket_check_connect = hook_socket_connect
flag_of socket_check_create = hook_socket_create
flag_of socket_check_listen = hook_socket_listen
flag_of pty_notify_grant = hook_pty_grant
flag_of vnode_check_exec = hook_exec_check
flag_of proc_notify_exec_complete = hook_exec_complete

-- What the statement for a hook stores.
abbrev pub chosen : ℕ → Hook → Option Function
chosen mask h = select mask (flag_of h) (implementation h)

-- The statements, in order.
abbrev pub statements : List Hook
statements =
    vnode_check_open ∷ vnode_check_create ∷ vnode_check_unlink ∷ vnode_check_rename
    ∷ vnode_check_lookup ∷ vnode_check_readlink ∷ vnode_check_getattr ∷ vnode_check_setattrlist
    ∷ vnode_label_associate_extattr ∷ vnode_label_copy ∷ file_check_mmap
    ∷ file_check_library_validation ∷ proc_check_signal ∷ proc_check_fork ∷ proc_notify_exit
    ∷ socket_check_connect ∷ socket_check_create ∷ socket_check_listen ∷ pty_notify_grant
    ∷ vnode_check_exec ∷ proc_notify_exec_complete ∷ []

abbrev pub store_all : ℕ → List Hook → Ops → Ops
store_all mask [] ops = ops
store_all mask (h ∷ hs) ops = store_all mask hs (store h (chosen mask h) ops)

pub store_all-statements :
    (mask : ℕ) (ops : Ops) → store_all mask statements ops ≡ install_hooks ops mask
unfolding install_hooks
store_all-statements mask ops = refl

pub slot-store :
    (h g : Hook) (v : Option Function) (ops : Ops)
    → slot h (store g v ops) ≡ (if bit_of h == bit_of g then v else slot h ops)
slot-store h g v ops = ground arith

-- After a statement each hook's member has what the mask asks for it, or what it had.
pub slot-store-chosen :
    (h g : Hook) (mask : ℕ) (ops : Ops)
    → slot h (store g (chosen mask g) ops)
      ≡ (if bit_of h == bit_of g then chosen mask h else slot h ops)
slot-store-chosen h g mask ops = ground arith

-- The members of the lifecycle hooks.
abbrev pub lifecycle : Ops → Option Function × Option Function × Option Function
lifecycle ops = (ops.mpo_policy_init, ops.mpo_policy_initbsd, ops.mpo_policy_destroy)

pub lifecycle-store :
    (h : Hook) (v : Option Function) (ops : Ops) → lifecycle (store h v ops) ≡ lifecycle ops
lifecycle-store h v ops = ground arith
