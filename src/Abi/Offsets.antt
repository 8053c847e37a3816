-- ===== src/Abi/Offsets.antt =====
-- The offsets of the typed members follow from the order of the slots, as the static assertions
-- at the end of include/sedarwin/sebsd_mac.h demand.
use sedarwin.Prelude.{
  ℕ, ◌+◌, ◌%◌, ◌≤◌, ◌≡◌, ◌∙◌, sym, refl, Option, none, some, ◌==◌, if◌then◌else◌, arith,
}
use sedarwin.Abi.{
  Member, offset, sizeof_ops, asserted_size, guarded, mpo_policy_init, mpo_policy_initbsd,
  mpo_policy_destroy, mpo_vnode_check_open, mpo_vnode_check_create, mpo_vnode_check_unlink,
  mpo_vnode_check_rename, mpo_vnode_check_lookup, mpo_vnode_check_readlink, mpo_vnode_check_getattr,
  mpo_vnode_check_setattrlist, mpo_vnode_label_associate_extattr, mpo_vnode_label_copy,
  mpo_file_check_mmap, mpo_file_check_library_validation, mpo_proc_check_signal,
  mpo_proc_check_fork, mpo_proc_notify_exit, mpo_socket_check_connect, mpo_socket_check_create,
  mpo_socket_check_listen, mpo_pty_notify_grant, mpo_vnode_check_exec,
  mpo_proc_notify_exec_complete,
}

abbrev place : Member → ℕ
place mpo_policy_init = 0x398
place mpo_policy_initbsd = 0x3a0
place mpo_policy_destroy = 0x390
place mpo_vnode_check_open = 0x858
place mpo_vnode_check_create = 0x7f8
place mpo_vnode_check_unlink = 0x8d8
place mpo_vnode_check_rename = 0x3c0
place mpo_vnode_check_lookup = 0x850
place mpo_vnode_check_readlink = 0x870
place mpo_vnode_check_getattr = 0x7a8
place mpo_vnode_check_setattrlist = 0x898
place mpo_vnode_label_associate_extattr = 0x8f0
place mpo_vnode_label_copy = 0x928
place mpo_file_check_mmap = 0x120
place mpo_file_check_library_validation = 0x200
place mpo_proc_check_signal = 0x548
place mpo_proc_check_fork = 0x4f0
place mpo_proc_notify_exit = 0x798
place mpo_socket_check_connect = 0x580
place mpo_socket_check_create = 0x588
place mpo_socket_check_listen = 0x5a8
place mpo_pty_notify_grant = 0xa30
place mpo_vnode_check_exec = 0x810
place mpo_proc_notify_exec_complete = 0x3d0

-- The kernel reads each typed member at the offset that it is known to have.
pub offset_lem : (m : Member) → offset m ≡ some (place m)
unfolding offset
offset_lem mpo_policy_init = refl
offset_lem mpo_policy_initbsd = refl
offset_lem mpo_policy_destroy = refl
offset_lem mpo_vnode_check_open = refl
offset_lem mpo_vnode_check_create = refl
offset_lem mpo_vnode_check_unlink = refl
offset_lem mpo_vnode_check_rename = refl
offset_lem mpo_vnode_check_lookup = refl
offset_lem mpo_vnode_check_readlink = refl
offset_lem mpo_vnode_check_getattr = refl
offset_lem mpo_vnode_check_setattrlist = refl
offset_lem mpo_vnode_label_associate_extattr = refl
offset_lem mpo_vnode_label_copy = refl
offset_lem mpo_file_check_mmap = refl
offset_lem mpo_file_check_library_validation = refl
offset_lem mpo_proc_check_signal = refl
offset_lem mpo_proc_check_fork = refl
offset_lem mpo_proc_notify_exit = refl
offset_lem mpo_socket_check_connect = refl
offset_lem mpo_socket_check_create = refl
offset_lem mpo_socket_check_listen = refl
offset_lem mpo_pty_notify_grant = refl
offset_lem mpo_vnode_check_exec = refl
offset_lem mpo_proc_notify_exec_complete = refl

member_at : ℕ → Option Member
member_at n =
    if n == 0x398
    then some mpo_policy_init
    else if n == 0x3a0
    then some mpo_policy_initbsd
    else if n == 0x390
    then some mpo_policy_destroy
    else if n == 0x858
    then some mpo_vnode_check_open
    else if n == 0x7f8
    then some mpo_vnode_check_create
    else if n == 0x8d8
    then some mpo_vnode_check_unlink
    else if n == 0x3c0
    then some mpo_vnode_check_rename
    else if n == 0x850
    then some mpo_vnode_check_lookup
    else if n == 0x870
    then some mpo_vnode_check_readlink
    else if n == 0x7a8
    then some mpo_vnode_check_getattr
    else if n == 0x898
    then some mpo_vnode_check_setattrlist
    else if n == 0x8f0
    then some mpo_vnode_label_associate_extattr
    else if n == 0x928
    then some mpo_vnode_label_copy
    else if n == 0x120
    then some mpo_file_check_mmap
    else if n == 0x200
    then some mpo_file_check_library_validation
    else if n == 0x548
    then some mpo_proc_check_signal
    else if n == 0x4f0
    then some mpo_proc_check_fork
    else if n == 0x798
    then some mpo_proc_notify_exit
    else if n == 0x580
    then some mpo_socket_check_connect
    else if n == 0x588
    then some mpo_socket_check_create
    else if n == 0x5a8
    then some mpo_socket_check_listen
    else if n == 0xa30
    then some mpo_pty_notify_grant
    else if n == 0x810
    then some mpo_vnode_check_exec
    else if n == 0x3d0
    then some mpo_proc_notify_exec_complete
    else none

member_at-place : (m : Member) → member_at (place m) ≡ some m
unfolding member_at
member_at-place mpo_policy_init = refl
member_at-place mpo_policy_initbsd = refl
member_at-place mpo_policy_destroy = refl
member_at-place mpo_vnode_check_open = refl
member_at-place mpo_vnode_check_create = refl
member_at-place mpo_vnode_check_unlink = refl
member_at-place mpo_vnode_check_rename = refl
member_at-place mpo_vnode_check_lookup = refl
member_at-place mpo_vnode_check_readlink = refl
member_at-place mpo_vnode_check_getattr = refl
member_at-place mpo_vnode_check_setattrlist = refl
member_at-place mpo_vnode_label_associate_extattr = refl
member_at-place mpo_vnode_label_copy = refl
member_at-place mpo_file_check_mmap = refl
member_at-place mpo_file_check_library_validation = refl
member_at-place mpo_proc_check_signal = refl
member_at-place mpo_proc_check_fork = refl
member_at-place mpo_proc_notify_exit = refl
member_at-place mpo_socket_check_connect = refl
member_at-place mpo_socket_check_create = refl
member_at-place mpo_socket_check_listen = refl
member_at-place mpo_pty_notify_grant = refl
member_at-place mpo_vnode_check_exec = refl
member_at-place mpo_proc_notify_exec_complete = refl

place_bounds : (m : Member) → (place m + 8 ≤ 2680) × (place m % 8 ≡ 0)
place_bounds mpo_policy_init = omega arith
place_bounds mpo_policy_initbsd = omega arith
place_bounds mpo_policy_destroy = omega arith
place_bounds mpo_vnode_check_open = omega arith
place_bounds mpo_vnode_check_create = omega arith
place_bounds mpo_vnode_check_unlink = omega arith
place_bounds mpo_vnode_check_rename = omega arith
place_bounds mpo_vnode_check_lookup = omega arith
place_bounds mpo_vnode_check_readlink = omega arith
place_bounds mpo_vnode_check_getattr = omega arith
place_bounds mpo_vnode_check_setattrlist = omega arith
place_bounds mpo_vnode_label_associate_extattr = omega arith
place_bounds mpo_vnode_label_copy = omega arith
place_bounds mpo_file_check_mmap = omega arith
place_bounds mpo_file_check_library_validation = omega arith
place_bounds mpo_proc_check_signal = omega arith
place_bounds mpo_proc_check_fork = omega arith
place_bounds mpo_proc_notify_exit = omega arith
place_bounds mpo_socket_check_connect = omega arith
place_bounds mpo_socket_check_create = omega arith
place_bounds mpo_socket_check_listen = omega arith
place_bounds mpo_pty_notify_grant = omega arith
place_bounds mpo_vnode_check_exec = omega arith
place_bounds mpo_proc_notify_exec_complete = omega arith

place-injective : (a b : Member) → place a ≡ place b → a ≡ b
place-injective a b e = cc (member_at-place a, member_at-place b)

size : sizeof_ops ≡ 2680
unfolding sizeof_ops
size = refl

guarded-place : (m : Member) (g : ℕ) → guarded m ≡ some g → place m ≡ g
guarded-place m g e = ground arith

-- The guards of include/sedarwin/sebsd_mac.h hold of the order in which it declares the members: the
-- vector has 2680 bytes, and a member whose offset is asserted or documented there, as those of the
-- lifecycle hooks are that the kernel reads at registration, lies there. Each typed member lies,
-- aligned, within the vector, and no two share a slot.
pub offset_bounds :
    (a b : Member) {n : ℕ}
    → offset a ≡ some n
    → (sizeof_ops ≡ asserted_size)
      × ((g : ℕ) → guarded a ≡ some g → n ≡ g)
      × (n + 8 ≤ sizeof_ops)
      × (n % 8 ≡ 0)
      × (offset b ≡ some n → a ≡ b)
offset_bounds a b {n} e =
    let here : place a ≡ n = cc (e, offset_lem a) in
    (
      size,
      (λ g e'. sym here ∙ guarded-place a g e'),
      ground (arith, size, here, place_bounds a),
      ground (arith, here, place_bounds a),
      (λ f. place-injective a b (cc (here, f, offset_lem b))),
    )
