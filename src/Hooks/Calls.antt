-- ===== src/Hooks/Calls.antt =====
-- What is to be said of the calls that a hook makes, and of the answer that it owes.
use sedarwin.Prelude.{ℕ, zero, suc, Bool, true, false, List, [], ◌∷◌, Option, none, some}
use sedarwin.Kernel.{Kernel, Call, Line}
use sedarwin.Trace.{trace_name_max}
use sedarwin.Trace.Component.{IsReadable}
use sedarwin.Net.{SockAddr}
use sedarwin.Net.Address.{IsAddress}
use sedarwin.Hooks.{
  Event, create, unlink, rename, label_copy, library_validation, signal, exit, connect, pty_grant,
  exec_complete, Answer, returned, notified,
}

-- Access is granted.
abbrev pub granted : Event → Answer
granted label_copy = notified
granted (exit p) = notified
granted (pty_grant p dev) = notified
granted exec_complete = notified
granted _ = returned 0

-- The lines that the calls print.
abbrev pub said : List Call → List Line
said [] = []
said (Call.printf line ∷ cs) = line ∷ said cs
said (_ ∷ cs) = said cs

-- The calls that take `proc_list_lock`.
abbrev pub locked : List Call → ℕ
locked [] = 0
locked (Call.proc_name pid size ∷ cs) = suc (locked cs)
locked (Call.proc_find_ident ident ∷ cs) = suc (locked cs)
locked (_ ∷ cs) = locked cs

module _ (k : Kernel) where
  -- The process references held after the calls, from `n` on; `none` if one is released that is
  -- not held. A successful `proc_find_ident` takes one.
  abbrev pub references : List Call → ℕ → Option ℕ
  references [] n = some n
  references (Call.proc_find_ident ident ∷ cs) n = elim (k.proc_find_ident ident) [
    | none ↦ references cs n
    | some p ↦ references cs (suc n)
  ]
  references (Call.proc_rele p ∷ cs) zero = none
  references (Call.proc_rele p ∷ cs) (suc n) = references cs n
  references (_ ∷ cs) n = references cs n

-- The events whose subject is the running process.
abbrev pub of_current : Event → Bool
of_current (library_validation p) = false
of_current (signal cred instigator target signum) = false
of_current (exit p) = false
of_current (pty_grant p dev) = false
of_current _ = true

abbrev pub IsPeer : Option SockAddr → Type 0
IsPeer none = Unit {0}
IsPeer (some addr) = IsAddress addr

-- What the pointers among the arguments must point to.
abbrev pub IsSound : Event → Type 0
IsSound (create cred cnp) = IsReadable cnp trace_name_max
IsSound (unlink cred cnp) = IsReadable cnp trace_name_max
IsSound (rename cred fcnp tcnp) = IsReadable fcnp trace_name_max × IsReadable tcnp trace_name_max
IsSound (connect cred addr) = IsPeer addr
IsSound _ = Unit {0}
