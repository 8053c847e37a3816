-- ===== src/Hooks/Flags.antt =====
-- What the hooks make of the values of `sebsd_trace_enabled`.
use sedarwin.Prelude.{ℕ, false, none, some, ◌≡◌, refl, ◌==◌}
use sedarwin.Net.{trace_connect}
use sedarwin.Kernel.{Kernel}
use sedarwin.Trace.{Flag, tracing, log_debug}
use sedarwin.Hooks.{
  Event, open_vnode, create, unlink, rename, readlink, getattr, setattrlist,
  label_associate_extattr, label_copy, mmap, library_validation, signal, fork, exit, socket_create,
  connect, listen, pty_grant, exec, exec_complete, handle,
}

-- Any value of the flag but 0 at the gate does what 1 does, and so where a line is printed.
pub handle_flag :
    (k : Kernel) (trace : Flag) (c : ℕ)
    → (trace.at_gate == 0) ≡ false
    → (trace.at_line == 0) ≡ (c == 0)
    → (e : Event) → handle k trace e ≡ handle k (record { at_gate = 1; at_line = c }) e
unfolding handle trace_connect tracing log_debug
handle_flag k trace c on same (open_vnode cred acc_mode) = rw (on, same) refl
handle_flag k trace c on same (create cred cnp) = rw (on, same) refl
handle_flag k trace c on same (unlink cred cnp) = rw (on, same) refl
handle_flag k trace c on same (rename cred fcnp tcnp) = rw (on, same) refl
handle_flag k trace c on same (mmap cred prot) = rw (on, same) refl
handle_flag k trace c on same (library_validation p) = rw (on, same) refl
handle_flag k trace c on same (signal cred instigator target signum) = rw (on, same) refl
handle_flag k trace c on same (fork cred p) = rw (on, same) refl
handle_flag k trace c on same (exit p) = rw (on, same) refl
handle_flag k trace c on same (socket_create cred domain kind protocol) = rw (on, same) refl
handle_flag k trace c on same (connect cred none) = rw on refl
handle_flag k trace c on same (connect cred (some addr)) = rw (on, same) refl
handle_flag k trace c on same (listen cred) = rw (on, same) refl
handle_flag k trace c on same (pty_grant p dev) = rw (on, same) refl
handle_flag k trace c on same (exec cred csflags) = rw (on, same) refl
handle_flag k trace c on same exec_complete = rw (on, same) refl
handle_flag k trace c on same readlink = refl
handle_flag k trace c on same getattr = refl
handle_flag k trace c on same setattrlist = refl
handle_flag k trace c on same label_associate_extattr = refl
handle_flag k trace c on same label_copy = refl
