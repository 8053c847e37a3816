-- ===== src/Hooks.antt =====
-- The per-event hooks that keep no state of their own, behind one dispatch: what the framework asks
-- (`Event`, declared in kext/kernel.h and implemented in vnode.c, file.c, proc.c, net.c, tty.c and
-- spawn.c) and what the policy answers.
pub mod Calls
pub mod Gate
pub mod Owed
pub mod Subjects
pub mod Flags
pub mod Loud
pub mod Hushed
pub mod Grants
use sedarwin.Prelude.{ℕ, List, Option}
use sedarwin.Kernel.{Kernel, Hooked, pure, ◌>>=◌}
use sedarwin.Trace.{Flag, ComponentName}
use sedarwin.Vnode.{
  vnode_check_open, vnode_check_create, vnode_check_unlink, vnode_check_rename,
  vnode_check_readlink, vnode_check_getattr, vnode_check_setattrlist, vnode_label_associate_extattr,
  vnode_label_copy,
}
use sedarwin.File.{file_check_mmap, file_check_library_validation}
use sedarwin.Proc.{proc_check_signal, proc_check_fork, proc_notify_exit}
use sedarwin.Net.{SockAddr, socket_check_create, socket_check_connect, socket_check_listen}
use sedarwin.Tty.{pty_notify_grant}
use sedarwin.Spawn.{spawn_check_exec, spawn_notify_exec_complete}

-- A call of a hook, with the arguments that it reads.
pub data Event : Type 0 where
  open_vnode : (cred acc_mode : ℕ) → Event
  create : (cred : ℕ) (cnp : Option ComponentName) → Event
  unlink : (cred : ℕ) (cnp : Option ComponentName) → Event
  rename : (cred : ℕ) (fcnp tcnp : Option ComponentName) → Event
  readlink : Event
  getattr : Event
  setattrlist : Event
  label_associate_extattr : Event
  label_copy : Event
  mmap : (cred prot : ℕ) → Event
  library_validation : (p : ℕ) → Event
  signal : (cred : ℕ) (instigator target : Option ℕ) (signum : ℕ) → Event
  fork : (cred p : ℕ) → Event
  exit : (p : ℕ) → Event
  socket_create : (cred domain kind protocol : ℕ) → Event
  connect : (cred : ℕ) (addr : Option SockAddr) → Event
  listen : (cred : ℕ) → Event
  pty_grant : (p dev : ℕ) → Event
  exec : (cred : ℕ) (csflags : Option ℕ) → Event
  exec_complete : Event

-- A check returns an `int`, a notification nothing.
pub data Answer : Type 0 where
  returned : ℕ → Answer
  notified : Answer

abbrev pub check : Hooked ℕ → Hooked Answer
check m = m >>= λ n. pure (returned n)

abbrev pub notify : Hooked (Unit {0}) → Hooked Answer
notify m = m >>= λ _. pure notified

unfoldable pub handle : Kernel → Flag → Event → Hooked Answer
unfolding vnode_check_open vnode_check_create vnode_check_unlink vnode_check_rename
    vnode_check_readlink vnode_check_getattr vnode_check_setattrlist vnode_label_associate_extattr
    vnode_label_copy file_check_mmap file_check_library_validation proc_check_signal proc_check_fork
    proc_notify_exit socket_check_create socket_check_connect socket_check_listen pty_notify_grant
    spawn_check_exec spawn_notify_exec_complete
handle k trace (open_vnode cred acc_mode) = check (vnode_check_open k trace cred acc_mode)
handle k trace (create cred cnp) = check (vnode_check_create k trace cred cnp)
handle k trace (unlink cred cnp) = check (vnode_check_unlink k trace cred cnp)
handle k trace (rename cred fcnp tcnp) = check (vnode_check_rename k trace cred fcnp tcnp)
handle k trace readlink = check vnode_check_readlink
handle k trace getattr = check vnode_check_getattr
handle k trace setattrlist = check vnode_check_setattrlist
handle k trace label_associate_extattr = check vnode_label_associate_extattr
handle k trace label_copy = notify vnode_label_copy
handle k trace (mmap cred prot) = check (file_check_mmap k trace cred prot)
handle k trace (library_validation p) = check (file_check_library_validation k trace p)
handle k trace (signal cred instigator target signum) =
    check (proc_check_signal k trace cred instigator target signum)
handle k trace (fork cred p) = check (proc_check_fork k trace cred p)
handle k trace (exit p) = notify (proc_notify_exit k trace p)
handle k trace (socket_create cred domain kind protocol) =
    check (socket_check_create k trace domain kind protocol)
handle k trace (connect cred addr) = check (socket_check_connect k trace cred addr)
handle k trace (listen cred) = check (socket_check_listen k trace cred)
handle k trace (pty_grant p dev) = notify (pty_notify_grant k trace p dev)
handle k trace (exec cred csflags) = check (spawn_check_exec k trace cred csflags)
handle k trace exec_complete = notify (spawn_notify_exec_complete k trace)
