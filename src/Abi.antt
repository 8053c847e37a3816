-- ===== src/Abi.antt =====
-- The hand-declared interface of the MAC framework (include/sedarwin/sebsd_mac.h): the policy
-- descriptor and the order of the 335 slots of the ops vector, from which the offsets follow.
mod Slots
pub mod Offsets
pub mod Types
use Prim.Native.String.{String}
use text.Mathlib.Text.{◌==◌}
use mathlib.Core.Option
use sedarwin.Prelude.{ℕ, suc, ◌*◌, Option, none, some, List, [], ◌∷◌, ◌++◌, if◌then◌else◌, length}
use Slots.{head_slots, middle_slots, tail_slots}

-- `struct mac_policy_conf`, with the members that point into the kernel as plain numbers.
pub record Conf : Type 0 where
  pub mpc_name : String
  pub mpc_fullname : String
  pub mpc_labelnames : Option ℕ
  pub mpc_labelname_count : ℕ
  pub mpc_ops : ℕ
  pub mpc_loadtime_flags : ℕ
  pub mpc_field_off : Option ℕ
  pub mpc_runtime_flags : ℕ
  pub mpc_list : Option ℕ
  pub mpc_data : Option ℕ

-- `struct mac_policy_ops`: the names of its members in order. Each is one pointer.
unfoldable pub ops_slots : List String
unfolding head_slots middle_slots tail_slots
ops_slots = head_slots ++ (middle_slots ++ tail_slots)

abbrev pub pointer_size : ℕ
pointer_size = 8

-- `sizeof(struct mac_policy_ops)`
unfoldable pub sizeof_ops : ℕ
unfolding ops_slots
sizeof_ops = pointer_size * length ops_slots

-- The members that have a type of their own, and so an implementation in this policy.
pub data Member : Type 0 where
  mpo_policy_init : Member
  mpo_policy_initbsd : Member
  mpo_policy_destroy : Member
  mpo_vnode_check_open : Member
  mpo_vnode_check_create : Member
  mpo_vnode_check_unlink : Member
  mpo_vnode_check_rename : Member
  mpo_vnode_check_lookup : Member
  mpo_vnode_check_readlink : Member
  mpo_vnode_check_getattr : Member
  mpo_vnode_check_setattrlist : Member
  mpo_vnode_label_associate_extattr : Member
  mpo_vnode_label_copy : Member
  mpo_file_check_mmap : Member
  mpo_file_check_library_validation : Member
  mpo_proc_check_signal : Member
  mpo_proc_check_fork : Member
  mpo_proc_notify_exit : Member
  mpo_socket_check_connect : Member
  mpo_socket_check_create : Member
  mpo_socket_check_listen : Member
  mpo_pty_notify_grant : Member
  mpo_vnode_check_exec : Member
  mpo_proc_notify_exec_complete : Member

abbrev pub member_name : Member → String
member_name mpo_policy_init = "mpo_policy_init"
member_name mpo_policy_initbsd = "mpo_policy_initbsd"
member_name mpo_policy_destroy = "mpo_policy_destroy"
member_name mpo_vnode_check_open = "mpo_vnode_check_open"
member_name mpo_vnode_check_create = "mpo_vnode_check_create"
member_name mpo_vnode_check_unlink = "mpo_vnode_check_unlink"
member_name mpo_vnode_check_rename = "mpo_vnode_check_rename"
member_name mpo_vnode_check_lookup = "mpo_vnode_check_lookup"
member_name mpo_vnode_check_readlink = "mpo_vnode_check_readlink"
member_name mpo_vnode_check_getattr = "mpo_vnode_check_getattr"
member_name mpo_vnode_check_setattrlist = "mpo_vnode_check_setattrlist"
member_name mpo_vnode_label_associate_extattr = "mpo_vnode_label_associate_extattr"
member_name mpo_vnode_label_copy = "mpo_vnode_label_copy"
member_name mpo_file_check_mmap = "mpo_file_check_mmap"
member_name mpo_file_check_library_validation = "mpo_file_check_library_validation"
member_name mpo_proc_check_signal = "mpo_proc_check_signal"
member_name mpo_proc_check_fork = "mpo_proc_check_fork"
member_name mpo_proc_notify_exit = "mpo_proc_notify_exit"
member_name mpo_socket_check_connect = "mpo_socket_check_connect"
member_name mpo_socket_check_create = "mpo_socket_check_create"
member_name mpo_socket_check_listen = "mpo_socket_check_listen"
member_name mpo_pty_notify_grant = "mpo_pty_notify_grant"
member_name mpo_vnode_check_exec = "mpo_vnode_check_exec"
member_name mpo_proc_notify_exec_complete = "mpo_proc_notify_exec_complete"

pub index_of : String → List String → Option ℕ
index_of s [] = none
index_of s (t ∷ ts) = if t == s then some 0 else Option.map suc (index_of s ts)

-- `offsetof(struct mac_policy_ops, member)`
unfoldable pub offset : Member → Option ℕ
unfolding index_of ops_slots
offset m = Option.map (◌*◌ pointer_size) (index_of (member_name m) ops_slots)

-- The layout guards at the end of the header: the size, and the offsets that it asserts; and those of
-- two hooks that the kernel was seen to read, which it gives at its head.
abbrev pub asserted_size : ℕ
asserted_size = 2680

abbrev pub guarded : Member → Option ℕ
guarded mpo_policy_destroy = some 0x390
guarded mpo_policy_init = some 0x398
guarded mpo_policy_initbsd = some 0x3a0
guarded mpo_vnode_check_open = some 0x858
guarded mpo_vnode_label_associate_extattr = some 0x8f0
guarded _ = none
