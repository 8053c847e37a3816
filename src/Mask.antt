-- ===== src/Mask.antt =====
-- The hook masks of include/sedarwin/sebsd.h: one bit for each hook, the quarantined bit, and the
-- groups. A mask is the 32-bit pattern of a C `int`.
pub mod Digits
use sedarwin.Prelude.{ℕ, ◌%◌, ◌-◌, ◌^◌, bit_or}

abbrev pub hook_vnode_open : ℕ
hook_vnode_open = 0x0000_0001

abbrev pub hook_vnode_create : ℕ
hook_vnode_create = 0x0000_0002

abbrev pub hook_vnode_unlink : ℕ
hook_vnode_unlink = 0x0000_0004

abbrev pub hook_vnode_rename : ℕ
hook_vnode_rename = 0x0000_0008

abbrev pub hook_vnode_lookup : ℕ
hook_vnode_lookup = 0x0000_0010

abbrev pub hook_vnode_readlink : ℕ
hook_vnode_readlink = 0x0000_0020

abbrev pub hook_vnode_getattr : ℕ
hook_vnode_getattr = 0x0000_0040

abbrev pub hook_vnode_setattrlist : ℕ
hook_vnode_setattrlist = 0x0000_0080

abbrev pub hook_vnode_lbl_extattr : ℕ
hook_vnode_lbl_extattr = 0x0000_0100

abbrev pub hook_vnode_lbl_copy : ℕ
hook_vnode_lbl_copy = 0x0000_0200

abbrev pub hook_file_mmap : ℕ
hook_file_mmap = 0x0000_0400

abbrev pub hook_file_libval : ℕ
hook_file_libval = 0x0000_0800

abbrev pub hook_proc_signal : ℕ
hook_proc_signal = 0x0000_1000

abbrev pub hook_proc_fork : ℕ
hook_proc_fork = 0x0000_2000

abbrev pub hook_proc_exit : ℕ
hook_proc_exit = 0x0000_4000

abbrev pub hook_socket_connect : ℕ
hook_socket_connect = 0x0000_8000

abbrev pub hook_socket_create : ℕ
hook_socket_create = 0x0001_0000

abbrev pub hook_socket_listen : ℕ
hook_socket_listen = 0x0002_0000

abbrev pub hook_pty_grant : ℕ
hook_pty_grant = 0x0004_0000

abbrev pub hook_exec_check : ℕ
hook_exec_check = 0x0008_0000

abbrev pub hook_exec_complete : ℕ
hook_exec_complete = 0x0010_0000

abbrev pub hook_unsafe : ℕ
hook_unsafe = hook_vnode_lookup

-- The convenience groups. The vnode group leaves the quarantined bit out.
abbrev pub hook_vnode_check : ℕ
hook_vnode_check =
    bit_or
      (bit_or (bit_or hook_vnode_open hook_vnode_create)
        (bit_or hook_vnode_unlink hook_vnode_rename))
      (bit_or hook_vnode_readlink (bit_or hook_vnode_getattr hook_vnode_setattrlist))

abbrev pub hook_vnode_label : ℕ
hook_vnode_label = bit_or hook_vnode_lbl_extattr hook_vnode_lbl_copy

abbrev pub hook_file : ℕ
hook_file = bit_or hook_file_mmap hook_file_libval

abbrev pub hook_proc : ℕ
hook_proc = bit_or hook_proc_signal (bit_or hook_proc_fork hook_proc_exit)

abbrev pub hook_socket : ℕ
hook_socket = bit_or hook_socket_connect (bit_or hook_socket_create hook_socket_listen)

abbrev pub hook_pty : ℕ
hook_pty = hook_pty_grant

abbrev pub hook_exec : ℕ
hook_exec = bit_or hook_exec_check hook_exec_complete

abbrev pub hook_all : ℕ
hook_all =
    bit_or (bit_or (bit_or hook_vnode_check hook_vnode_label) (bit_or hook_file hook_proc))
      (bit_or hook_socket (bit_or hook_pty hook_exec))

abbrev pub hook_default : ℕ
hook_default = 0

-- `~m` of a 32-bit mask.
abbrev pub complement : ℕ → ℕ
complement m = 0xffff_ffff - m % 2 ^ 32
