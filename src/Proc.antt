-- ===== src/Proc.antt =====
-- The process hooks of kext/proc.c. A `proc_ident_t` may be NULL; a pid is the pattern of an `int`.
use sedarwin.Prelude.{ℕ, ◌+◌, Bool, List, Option, none, some, not, ◌&&◌, ◌==◌}
use sedarwin.Bytes.{strlcpy, c_string}
use sedarwin.Kernel.{Kernel, Line, Call, Hooked, pure, ◌>>=◌, ◌>>◌, call, lift, when}
use sedarwin.Trace.{Flag, codes, tracing, log_debug, cur_name, uid_of, pid_of, proc_name}

-- The pattern of -1.
abbrev pub minus_one : ℕ
minus_one = 0xffff_ffff

module _ (k : Kernel) where
  open k use {maxcomlen, local_array, proc_find_ident, current_proc}

  -- A placeholder in the buffer, and no pid.
  unfoldable pub unnamed : List ℕ → ℕ → Hooked (List ℕ × ℕ)
  unnamed text size = do
    buf ← lift (strlcpy (local_array size) text size)
    pure (c_string buf, minus_one)

  unfoldable pub found : Option ℕ → ℕ → Hooked (List ℕ × ℕ)
  unfolding unnamed
  found none size = unnamed (codes "<exited>") size
  found (some p) size = do
    pid ← pid_of k p
    name ← proc_name k pid size
    call (Call.proc_rele p)
    pure (name, pid)

  -- `sebsd_ident_name(ident, buf, size)`: the name and the pid.
  unfoldable pub ident_name : Option ℕ → ℕ → Hooked (List ℕ × ℕ)
  unfolding found unnamed
  ident_name none size = unnamed (codes "<kernel>") size
  ident_name (some ident) size = do
    call (Call.proc_find_ident ident)
    found (proc_find_ident ident) size

  -- The signals that are traced.
  unfoldable pub watched : ℕ → Bool
  watched signum = not (
      not (signum == k.sigkill)
      && (not (signum == k.sigsegv)
          && (not (signum == k.sigbus)
              && (not (signum == k.sigill)
                  && (not (signum == k.sigabrt) && not (signum == k.sigterm))))))

  unfoldable pub trace_signal : Flag → ℕ → Option ℕ → Option ℕ → ℕ → Hooked (Unit {0})
  unfolding ident_name
  trace_signal trace cred instigator target signum = do
    (iname, ipid) ← ident_name instigator (maxcomlen + 1)
    (tname, tpid) ← ident_name target (maxcomlen + 1)
    log_debug trace (do uid ← uid_of k cred; pure (Line.signal iname ipid tname tpid signum uid))

  unfoldable pub proc_check_signal : Flag → ℕ → Option ℕ → Option ℕ → ℕ → Hooked ℕ
  unfolding trace_signal watched
  proc_check_signal trace cred instigator target signum = do
    when (tracing trace && watched signum) (trace_signal trace cred instigator target signum)
    pure 0

  unfoldable pub proc_check_fork : Flag → ℕ → ℕ → Hooked ℕ
  proc_check_fork trace cred p = do
    when (tracing trace) (do
      pname ← cur_name k (maxcomlen + 1)
      log_debug trace (do
        pid ← pid_of k p
        ppid ← pid_of k current_proc
        uid ← uid_of k cred
        pure (Line.fork pname pid ppid uid)))
    pure 0

  unfoldable pub proc_notify_exit : Flag → ℕ → Hooked (Unit {0})
  proc_notify_exit trace p = when (tracing trace) (do
    named ← pid_of k p
    pname ← proc_name k named (maxcomlen + 1)
    log_debug trace (do pid ← pid_of k p; pure (Line.exit pname pid)))
