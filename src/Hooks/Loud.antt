-- ===== src/Hooks/Loud.antt =====
-- With tracing on the hooks still grant, and what they call is in order.
use sedarwin.Hooks.Subjects.{
  watched_lem, self_calls, handle_connect, name-Named, ident-Resolved, signal_calls,
}
use sedarwin.Prelude.{
  is_among, ℕ, true, List, [], ◌∷◌, Option, none, some, ◌≡◌, ◌∙◌, refl, arith, inl, inr, Bool-cases,
  ◌==◌, list_laws, take-all, if◌then◌else◌,
}
use sedarwin.Kernel.{Kernel, Call, Line, Hooked}
use sedarwin.Trace.{
  unchanged, tracing, log_debug, cur_name, cur_pid, uid_of, pid_of, proc_name, codes,
}
use sedarwin.Spawn.Flags.{csflag_bits-Named}
use sedarwin.Spawn.Decoded.{all_letters}
use sedarwin.Spawn.Letters.{letters, joined}
use sedarwin.Proc.{proc_check_signal, trace_signal}
use sedarwin.Spawn.{csflag_table, spawn_check_exec, trace_exec}
use sedarwin.Net.Address.{host_text_bounds}
use sedarwin.Hooks.{
  Event, open_vnode, create, unlink, rename, readlink, getattr, setattrlist,
  label_associate_extattr, label_copy, mmap, library_validation, signal, fork, exit, socket_create,
  connect, listen, pty_grant, exec, exec_complete, handle, Answer,
}
use sedarwin.Hooks.Owed.{
  fatal_signals, owed, component_line, rename_line, connect_line, exec_line, identity, signal_line,
}
use sedarwin.Hooks.Calls.{granted, said, locked, references, of_current, IsSound}

-- The hook returned, and its calls are in order. `at_line` is what it read of the flag where it would
-- print.
pub record Granted (k : Kernel) (at_line : ℕ) (e : Event) (o : Hooked Answer) : Type 0 where
  pub calls : List Call
  pub returns : o ≡ some (granted e, calls)
  pub prints : said calls ≡ (if at_line == 0 then [] else owed k e)
  pub balanced : references k calls 0 ≡ some 0
  pub lock_free : of_current e ≡ true → locked calls ≡ 0

module _ (k : Kernel) where
  open k use {maxcomlen, local_array}

  -- A hook that makes the calls for a line about the running process.
  self_Granted :
      (e : Event) (cred : ℕ) (line : Line)
      → handle k (unchanged 1) e ≡ some (granted e, self_calls k cred line)
      → line ∷ [] ≡ owed k e
      → Granted k 1 e (handle k (unchanged 1) e)
  self_Granted e cred line returns prints = record {
    calls = self_calls k cred line;
    returns = returns;
    prints = prints;
    balanced = refl;
    lock_free = λ _. refl;
  }

  exec_Granted :
      (cred : ℕ) (csflags : Option ℕ)
      → Granted k 1 (exec cred csflags) (handle k (unchanged 1) (exec cred csflags))
  unfolding handle spawn_check_exec trace_exec tracing log_debug cur_name cur_pid uid_of
  exec_Granted cred csflags =
      let flags : ℕ = elim csflags [ none ↦ 0 | some given ↦ given ] in
      let named =
        csflag_bits-Named k flags (local_array 32) 32 (omega arith)
          (omega (arith, k.length-local_array 32)) in
      let whole = take-all 31 (joined (letters flags (csflag_table k))) (all_letters k flags) in
      self_Granted (exec cred csflags) cred (exec_line k cred flags)
        (rw (named.written, named.prints, whole) refl) refl

  signal_Granted :
      (cred : ℕ) (instigator target : Option ℕ) (signum : ℕ)
      → Granted k 1
          (signal cred instigator target signum)
          (handle k (unchanged 1) (signal cred instigator target signum))
  unfolding handle proc_check_signal trace_signal tracing log_debug uid_of
  signal_Granted cred instigator target signum =
      elim (Bool-cases (is_among signum (fatal_signals k))) [
        | inr off ↦ record {
          calls = [];
          returns = rw (watched_lem k signum, off) refl;
          prints = rw off refl;
          balanced = refl;
          lock_free = λ h. cc;
        }
        | inl on ↦
            let from = ident-Resolved k instigator in
            let to = ident-Resolved k target in
            let line = signal_line k cred (identity k instigator) (identity k target) signum in
            record {
              calls = signal_calls k cred from.calls to.calls line;
              returns = rw (watched_lem k signum, on, from.runs, to.runs) (simp list_laws);
              prints = rw on (from.quiet _ ∙ to.quiet _);
              balanced = from.level _ 0 ∙ to.level _ 0;
              lock_free = λ h. cc;
            }
      ]

  -- What is to be shown of a hook.
  pub straight :
      (at_line : ℕ) (e : Event) (calls : List Call) {o : Hooked Answer}
      → o ≡ some (granted e, calls)
      → said calls ≡ (if at_line == 0 then [] else owed k e)
      → references k calls 0 ≡ some 0
      → (of_current e ≡ true → locked calls ≡ 0)
      → Granted k at_line e o
  straight at_line e calls returns prints balanced lock_free = record {
    calls = calls;
    returns = returns;
    prints = prints;
    balanced = balanced;
    lock_free = lock_free;
  }

  pub grants : (e : Event) → IsSound e → Granted k 1 e (handle k (unchanged 1) e)
  unfolding handle tracing log_debug cur_name cur_pid uid_of pid_of proc_name
  grants (open_vnode cred acc_mode) s =
      straight 1 (open_vnode cred acc_mode) _ refl refl refl (λ _. refl)
  grants (mmap cred prot) s = straight 1 (mmap cred prot) _ refl refl refl (λ _. refl)
  grants (socket_create cred domain kind protocol) s =
      straight 1 (socket_create cred domain kind protocol) _ refl refl refl (λ _. refl)
  grants (listen cred) s = straight 1 (listen cred) _ refl refl refl (λ _. refl)
  grants (fork cred p) s = straight 1 (fork cred p) _ refl refl refl (λ _. refl)
  grants exec_complete s = straight 1 exec_complete _ refl refl refl (λ _. refl)
  grants readlink s = straight 1 readlink _ refl refl refl (λ _. refl)
  grants getattr s = straight 1 getattr _ refl refl refl (λ _. refl)
  grants setattrlist s = straight 1 setattrlist _ refl refl refl (λ _. refl)
  grants label_associate_extattr s = straight 1 label_associate_extattr _ refl refl refl (λ _. refl)
  grants label_copy s = straight 1 label_copy _ refl refl refl (λ _. refl)
  grants (connect cred none) s = straight 1 (connect cred none) _ refl refl refl (λ _. refl)
  grants (library_validation p) s = straight 1 (library_validation p) _ refl refl refl (λ h. cc)
  grants (exit p) s = straight 1 (exit p) _ refl refl refl (λ h. cc)
  grants (pty_grant p dev) s = straight 1 (pty_grant p dev) _ refl refl refl (λ h. cc)
  grants (create cred cnp) s =
      let named = name-Named k cnp s in
      self_Granted (create cred cnp) cred (component_line k (codes "create") cred cnp)
        (rw (named.written, named.prints) refl) refl
  grants (unlink cred cnp) s =
      let named = name-Named k cnp s in
      self_Granted (unlink cred cnp) cred (component_line k (codes "unlink") cred cnp)
        (rw (named.written, named.prints) refl) refl
  grants (rename cred fcnp tcnp) s =
      let from = name-Named k fcnp s.0 in
      let to = name-Named k tcnp s.1 in
      self_Granted (rename cred fcnp tcnp) cred (rename_line k cred fcnp tcnp)
        (rw (from.written, from.prints, to.written, to.prints) refl) refl
  grants (connect cred (some addr)) s =
      let (text, made, is_text, short) = host_text_bounds addr s in
      self_Granted (connect cred (some addr)) cred (connect_line k cred text)
        (handle_connect k (unchanged 1) refl refl cred addr s made) (rw made refl)
  grants (exec cred csflags) s = exec_Granted cred csflags
  grants (signal cred instigator target signum) s = signal_Granted cred instigator target signum
