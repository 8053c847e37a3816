-- ===== src/File.antt =====
-- The file hooks of kext/file.c.
use sedarwin.Prelude.{ℕ, ◌+◌}
use sedarwin.Kernel.{Kernel, Line, Hooked, pure, ◌>>=◌, ◌>>◌, when}
use sedarwin.Trace.{Flag, tracing, log_debug, cur_name, cur_pid, uid_of, pid_of, proc_name}

module _ (k : Kernel) where
  open k use {maxcomlen}

  unfoldable pub file_check_mmap : Flag → ℕ → ℕ → Hooked ℕ
  file_check_mmap trace cred prot = do
    when (tracing trace) (do
      pname ← cur_name k (maxcomlen + 1)
      log_debug trace
          (do pid ← cur_pid k; uid ← uid_of k cred; pure (Line.mmap pname pid prot uid)))
    pure 0

  unfoldable pub file_check_library_validation : Flag → ℕ → Hooked ℕ
  file_check_library_validation trace p = do
    when (tracing trace) (do
      named ← pid_of k p
      pname ← proc_name k named (maxcomlen + 1)
      log_debug trace (do pid ← pid_of k p; pure (Line.library_validation pname pid)))
    pure 0
