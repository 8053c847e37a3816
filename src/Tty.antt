-- ===== src/Tty.antt =====
-- The pty hook of kext/tty.c.
use sedarwin.Prelude.{ℕ, ◌+◌}
use sedarwin.Kernel.{Kernel, Line, Hooked, pure, ◌>>=◌, when}
use sedarwin.Trace.{Flag, tracing, log_debug, pid_of, proc_name}

module _ (k : Kernel) where
  unfoldable pub pty_notify_grant : Flag → ℕ → ℕ → Hooked (Unit {0})
  pty_notify_grant trace p dev = when (tracing trace) (do
    named ← pid_of k p
    pname ← proc_name k named (k.maxcomlen + 1)
    log_debug trace
        (do pid ← pid_of k p; pure (Line.pty_grant pname pid (k.major dev) (k.minor dev))))
