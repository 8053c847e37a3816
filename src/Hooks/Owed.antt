-- ===== src/Hooks/Owed.antt =====
-- What the tracing of kext/vnode.c, file.c, proc.c, net.c, tty.c and spawn.c owes to an event: the
-- line with its values, apart from the buffers and the calls that it takes to make it.
use sedarwin.Prelude.{is_among, ℕ, ◌+◌, List, [], ◌∷◌, Option, none, some, if◌then◌else◌, take}
use sedarwin.Kernel.{Kernel, Line}
use sedarwin.Trace.{trace_name_max, ComponentName, codes}
use sedarwin.Trace.Component.{shown}
use sedarwin.Proc.{minus_one}
use sedarwin.Net.{host_text}
use sedarwin.Spawn.{csflag_table}
use sedarwin.Spawn.Letters.{letters, joined}
use sedarwin.Hooks.{
  Event, open_vnode, create, unlink, rename, mmap, library_validation, signal, fork, exit,
  socket_create, connect, listen, pty_grant, exec, exec_complete,
}

module _ (k : Kernel) where
  open k use {maxcomlen, current_proc}

  -- The name of the running process, and its pid.
  abbrev pub self_name : List ℕ
  self_name = k.proc_selfname (maxcomlen + 1)

  abbrev pub self_pid : ℕ
  self_pid = k.proc_pid current_proc

  abbrev pub uid : ℕ → ℕ
  uid cred = k.kauth_cred_getuid cred

  -- The name and the pid of a process that was looked up, or a placeholder and -1.
  abbrev looked_up : Option ℕ → List ℕ × ℕ
  looked_up none = (take maxcomlen (codes "<exited>"), minus_one)
  looked_up (some p) = (k.proc_name (k.proc_pid p) (maxcomlen + 1), k.proc_pid p)

  -- What a `proc_ident_t` stands for.
  abbrev pub identity : Option ℕ → List ℕ × ℕ
  identity none = (take maxcomlen (codes "<kernel>"), minus_one)
  identity (some id) = looked_up (k.proc_find_ident id)

  abbrev pub component_line : List ℕ → ℕ → Option ComponentName → Line
  component_line op cred cnp =
      Line.vnode_component op self_name self_pid (shown cnp trace_name_max) (uid cred)

  abbrev pub rename_line : ℕ → Option ComponentName → Option ComponentName → Line
  rename_line cred fcnp tcnp =
      Line.vnode_rename self_name self_pid (shown fcnp trace_name_max) (shown tcnp trace_name_max)
        (uid cred)

  abbrev pub connect_line : ℕ → List ℕ → Line
  connect_line cred host = Line.connect self_name self_pid host (uid cred)

  abbrev pub signal_line : ℕ → List ℕ × ℕ → List ℕ × ℕ → ℕ → Line
  signal_line cred from to signum = Line.signal from.0 from.1 to.0 to.1 signum (uid cred)

  -- The signals that a kill is traced for.
  abbrev pub fatal_signals : List ℕ
  fatal_signals = k.sigkill ∷ k.sigterm ∷ k.sigabrt ∷ k.sigsegv ∷ k.sigbus ∷ k.sigill ∷ []

  abbrev connect_lines : ℕ → Option (List ℕ) → List Line
  connect_lines cred none = []
  connect_lines cred (some host) = connect_line cred host ∷ []

  -- The letters of all flags that are set stand in the line.
  abbrev pub exec_line : ℕ → ℕ → Line
  exec_line cred flags =
      Line.exec self_name self_pid (uid cred) flags (joined (letters flags (csflag_table k)))

  -- The lines that an event owes while tracing is on.
  abbrev pub owed : Event → List Line
  owed (open_vnode cred acc_mode) = Line.vnode_open self_name self_pid (uid cred) acc_mode ∷ []
  owed (create cred cnp) = component_line (codes "create") cred cnp ∷ []
  owed (unlink cred cnp) = component_line (codes "unlink") cred cnp ∷ []
  owed (rename cred fcnp tcnp) = rename_line cred fcnp tcnp ∷ []
  owed (mmap cred prot) = Line.mmap self_name self_pid prot (uid cred) ∷ []
  owed (library_validation p) =
      Line.library_validation (k.proc_name (k.proc_pid p) (maxcomlen + 1)) (k.proc_pid p) ∷ []
  owed (signal cred instigator target signum) =
      if is_among signum fatal_signals
      then signal_line cred (identity instigator) (identity target) signum ∷ []
      else []
  owed (fork cred p) = Line.fork self_name (k.proc_pid p) self_pid (uid cred) ∷ []
  owed (exit p) = Line.exit (k.proc_name (k.proc_pid p) (maxcomlen + 1)) (k.proc_pid p) ∷ []
  owed (socket_create cred domain kind protocol) =
      Line.socket_create self_name self_pid domain kind protocol ∷ []
  owed (connect cred none) = []
  owed (connect cred (some addr)) = connect_lines cred (host_text addr)
  owed (listen cred) = Line.listen self_name self_pid (uid cred) ∷ []
  owed (pty_grant p dev) =
      Line.pty_grant (k.proc_name (k.proc_pid p) (maxcomlen + 1)) (k.proc_pid p) (k.major dev)
        (k.minor dev)
      ∷ []
  owed (exec cred csflags) = exec_line cred (elim csflags [ none ↦ 0 | some flags ↦ flags ]) ∷ []
  owed exec_complete = Line.exec_complete self_name self_pid ∷ []
  owed _ = []
