-- ===== src/Dispatch.antt =====
-- The policy behind the framework: the kernel reads the member of the ops vector that an event has,
-- and calls the function of kext/vnode.c, file.c, proc.c, net.c, tty.c or spawn.c that stands there.
-- The framework itself is a parameter, with what kext/main.c relies on.
pub mod Answers
use sedarwin.Prelude.{ℕ, Bool, [], Option, none, some, ◌≡◌, ◌==◌, not, ◌&&◌, if◌then◌else◌, nth_bit}
use sedarwin.Kernel.{Kernel, Hooked, pure, ◌>>=◌}
use sedarwin.Trace.{unchanged, trace_name_max, ComponentName}
use sedarwin.Trace.Component.{IsReadable}
use sedarwin.Ops.{Function}
use sedarwin.Ops.Slots.{Hook, slot, bit_of, implementation}
use sedarwin.Hooks.{
  Event, open_vnode, create, unlink, rename, readlink, getattr, setattrlist,
  label_associate_extattr, label_copy, mmap, library_validation, signal, fork, exit, socket_create,
  connect, listen, pty_grant, exec, exec_complete, handle, Answer, returned,
}
use sedarwin.Hooks.Calls.{granted, IsSound}
use sedarwin.Policy.{Kext}
use sedarwin.Lookup.{vnode_check_lookup}

-- What the kernel can ask: an event of a hook that keeps no state, or a lookup.
pub data Ask : Type 0 where
  event : Event → Ask
  lookup : (dvp dlabel : ℕ) → Option ComponentName → Ask

abbrev pub hook_of : Event → Hook
hook_of (open_vnode cred acc_mode) = Hook.vnode_check_open
hook_of (create cred cnp) = Hook.vnode_check_create
hook_of (unlink cred cnp) = Hook.vnode_check_unlink
hook_of (rename cred fcnp tcnp) = Hook.vnode_check_rename
hook_of readlink = Hook.vnode_check_readlink
hook_of getattr = Hook.vnode_check_getattr
hook_of setattrlist = Hook.vnode_check_setattrlist
hook_of label_associate_extattr = Hook.vnode_label_associate_extattr
hook_of label_copy = Hook.vnode_label_copy
hook_of (mmap cred prot) = Hook.file_check_mmap
hook_of (library_validation p) = Hook.file_check_library_validation
hook_of (signal cred instigator target signum) = Hook.proc_check_signal
hook_of (fork cred p) = Hook.proc_check_fork
hook_of (exit p) = Hook.proc_notify_exit
hook_of (socket_create cred domain kind protocol) = Hook.socket_check_create
hook_of (connect cred addr) = Hook.socket_check_connect
hook_of (listen cred) = Hook.socket_check_listen
hook_of (pty_grant p dev) = Hook.pty_notify_grant
hook_of (exec cred csflags) = Hook.vnode_check_exec
hook_of exec_complete = Hook.proc_notify_exec_complete

abbrev pub asked_hook : Ask → Hook
asked_hook (event e) = hook_of e
asked_hook (lookup dvp dlabel cnp) = Hook.vnode_check_lookup

-- The code behind the address of a function, run on the arguments of an event: what it answers and
-- the variables that it leaves.
abbrev pub body : Kernel → Ask → Kext → Hooked (Answer × Kext)
body k (event e) s = handle k (unchanged s.trace_enabled) e >>= λ a. pure (a, s)
body k (lookup dvp dlabel cnp) s =
    vnode_check_lookup k (unchanged s.trace_enabled) dvp dlabel cnp s >>= λ r.
    pure (returned r.0, r.1)

-- The framework's dispatch, which reads the member anew on each event: NULL is "no opinion", and
-- the function that belongs into the member is called.
pub record Dispatcher (k : Kernel) : Type 0 where
  pub call : Kext → Ask → Hooked (Option Answer × Kext)
  pub on_null :
      (s : Kext) (a : Ask) → slot (asked_hook a) s.ops ≡ none → call s a ≡ some ((none, s), [])
  pub on_function :
      (s : Kext) (a : Ask)
      → slot (asked_hook a) s.ops ≡ some (implementation (asked_hook a))
      → call s a ≡ (body k a s >>= λ r. pure (some r.0, r.1))
