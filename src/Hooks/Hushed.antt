-- ===== src/Hooks/Hushed.antt =====
-- The hooks when tracing is turned off between the gate and the line: they grant without a line, and
-- still release what they took.
use sedarwin.Prelude.{
  is_among, ℕ, ◌+◌, [], ◌∷◌, ◌++◌, Option, none, some, ◌≡◌, ◌∙◌, refl, arith, inl, inr, Bool-cases,
  list_laws,
}
use sedarwin.Kernel.{Kernel, Call}
use sedarwin.Trace.{Flag, tracing, log_debug, cur_name, cur_pid, uid_of, pid_of, proc_name}
use sedarwin.Hooks.Owed.{fatal_signals}
use sedarwin.Proc.{proc_check_signal, trace_signal}
use sedarwin.Spawn.{spawn_check_exec, trace_exec}
use sedarwin.Spawn.Flags.{csflag_bits-Named}
use sedarwin.Hooks.{
  Event, open_vnode, create, unlink, rename, readlink, getattr, setattrlist,
  label_associate_extattr, label_copy, mmap, library_validation, signal, fork, exit, socket_create,
  connect, listen, pty_grant, exec, exec_complete, handle,
}
use sedarwin.Hooks.Calls.{granted, IsSound}
use sedarwin.Hooks.Subjects.{watched_lem, handle_connect_hushed, name-Named, ident-Resolved}
use sedarwin.Hooks.Loud.{Granted, straight}

abbrev turned_off : Flag
turned_off = record { at_gate = 1; at_line = 0 }

module _ (k : Kernel) where
  open k use {maxcomlen, local_array}

  -- A hook that has asked for the running process's name.
  named_only :
      (e : Event)
      → handle k turned_off e ≡ some (granted e, Call.proc_selfname (maxcomlen + 1) ∷ [])
      → Granted k 0 e (handle k turned_off e)
  named_only e returns = straight k 0 e _ returns refl refl (λ _. refl)

  exec_hushed :
      (cred : ℕ) (csflags : Option ℕ)
      → Granted k 0 (exec cred csflags) (handle k turned_off (exec cred csflags))
  unfolding handle spawn_check_exec trace_exec tracing log_debug cur_name
  exec_hushed cred csflags =
      let flags : ℕ = elim csflags [ none ↦ 0 | some given ↦ given ] in
      let named =
        csflag_bits-Named k flags (local_array 32) 32 (omega arith)
          (omega (arith, k.length-local_array 32)) in
      named_only (exec cred csflags) (rw named.written refl)

  signal_hushed :
      (cred : ℕ) (instigator target : Option ℕ) (signum : ℕ)
      → Granted k 0
          (signal cred instigator target signum)
          (handle k turned_off (signal cred instigator target signum))
  unfolding handle proc_check_signal trace_signal tracing log_debug
  signal_hushed cred instigator target signum =
      elim (Bool-cases (is_among signum (fatal_signals k))) [
        | inr off ↦
            straight k 0 (signal cred instigator target signum) []
              (rw (watched_lem k signum, off) refl) refl refl (λ h. cc)
        | inl on ↦
            let from = ident-Resolved k instigator in
            let to = ident-Resolved k target in
            straight k 0 (signal cred instigator target signum) (from.calls ++ (to.calls ++ []))
              (rw (watched_lem k signum, on, from.runs, to.runs) (simp list_laws))
              (from.quiet _ ∙ to.quiet _) (from.level _ 0 ∙ to.level _ 0) (λ h. cc)
      ]

  pub hushed : (e : Event) → IsSound e → Granted k 0 e (handle k turned_off e)
  unfolding handle tracing log_debug cur_name cur_pid uid_of pid_of proc_name
  hushed (open_vnode cred acc_mode) s = named_only (open_vnode cred acc_mode) refl
  hushed (mmap cred prot) s = named_only (mmap cred prot) refl
  hushed (socket_create cred domain kind protocol) s =
      named_only (socket_create cred domain kind protocol) refl
  hushed (listen cred) s = named_only (listen cred) refl
  hushed (fork cred p) s = named_only (fork cred p) refl
  hushed exec_complete s = named_only exec_complete refl
  hushed readlink s = straight k 0 readlink _ refl refl refl (λ _. refl)
  hushed getattr s = straight k 0 getattr _ refl refl refl (λ _. refl)
  hushed setattrlist s = straight k 0 setattrlist _ refl refl refl (λ _. refl)
  hushed label_associate_extattr s =
      straight k 0 label_associate_extattr _ refl refl refl (λ _. refl)
  hushed label_copy s = straight k 0 label_copy _ refl refl refl (λ _. refl)
  hushed (connect cred none) s = straight k 0 (connect cred none) _ refl refl refl (λ _. refl)
  hushed (library_validation p) s = straight k 0 (library_validation p) _ refl refl refl (λ h. cc)
  hushed (exit p) s = straight k 0 (exit p) _ refl refl refl (λ h. cc)
  hushed (pty_grant p dev) s = straight k 0 (pty_grant p dev) _ refl refl refl (λ h. cc)
  hushed (create cred cnp) s =
      let named = name-Named k cnp s in named_only (create cred cnp) (rw named.written refl)
  hushed (unlink cred cnp) s =
      let named = name-Named k cnp s in named_only (unlink cred cnp) (rw named.written refl)
  hushed (rename cred fcnp tcnp) s =
      let from = name-Named k fcnp s.0 in
      let to = name-Named k tcnp s.1 in
      named_only (rename cred fcnp tcnp) (rw (from.written, to.written) refl)
  hushed (connect cred (some addr)) s =
      named_only (connect cred (some addr))
        (handle_connect_hushed k turned_off refl refl cred addr s)
  hushed (exec cred csflags) s = exec_hushed cred csflags
  hushed (signal cred instigator target signum) s = signal_hushed cred instigator target signum
