-- ===== src/Lookup/Outside.antt =====
-- A call of the lookup hook of kext/vnode.c by a thread that is not inside it.
use sedarwin.Prelude.{
  ℕ, ◌+◌, List, [], ◌∷◌, Option, none, some, ◌≡◌, ◌≢◌, refl, inl, inr, ◌==◌, if◌then◌else◌,
  ==_false, Bool-cases,
}
use sedarwin.Kernel.{Kernel, Line, Call, Hooked}
use sedarwin.Trace.{Flag, tracing, log_debug, cur_name, cur_pid, trace_name_max, ComponentName}
use sedarwin.Trace.Component.{IsReadable, shown}
use sedarwin.Hooks.Calls.{said, references}
use sedarwin.Hooks.Owed.{self_name, self_pid}
use sedarwin.Hooks.Subjects.{name-Named}
use sedarwin.Policy.{Kext, blow_lookup_fuse}
use sedarwin.Lookup.{
  increment, lookup_enter, lookup_burn, lookup_leave, trace_lookup, vnode_check_lookup,
}

-- What a call leaves if its thread is not inside.
abbrev pub passed : ℕ → Kext → Kext
passed self s = lookup_leave (lookup_burn (lookup_enter self s).lookup_count (lookup_enter self s))

-- What a call leaves that is made as one step.
abbrev pub at_once : ℕ → Kext → Kext
at_once self s =
    if s.lookup_owner == self
    then blow_lookup_fuse (record s { lookup_recursed = 1 })
    else passed self s

-- The line that a lookup owes while tracing is on: it has the number of the dispatch.
abbrev pub lookup_line : Kernel → Kext → ℕ → ℕ → Option ComponentName → Line
lookup_line k s dvp dlabel cnp =
    Line.lookup (increment s.lookup_count) (self_name k) (self_pid k) (shown cnp trace_name_max)
      (elim cnp [ none ↦ 0 | some c ↦ c.cn_nameiop ]) (elim cnp [ none ↦ 0 | some c ↦ c.cn_flags ])
      dvp dlabel k.current_thread

abbrev lookup_calls : Kernel → Line → List Call
lookup_calls k line =
    Call.current_thread
    ∷ Call.proc_selfname (k.maxcomlen + 1)
    ∷ Call.proc_pid k.current_proc
    ∷ Call.current_thread
    ∷ Call.printf line
    ∷ []

-- The lines of a call from outside: none if tracing is off at the gate, or where it would print.
abbrev pub lookup_lines : Kernel → Kext → Flag → ℕ → ℕ → Option ComponentName → List Line
lookup_lines k s trace dvp dlabel cnp =
    if trace.at_gate == 0
    then []
    else if trace.at_line == 0
    then []
    else lookup_line k s dvp dlabel cnp ∷ []

-- A call that its thread makes from outside returns 0, and prints the lines that it owes; if tracing is
-- off at its gate it asks for its own thread and calls nothing else. It holds no process reference.
pub record Passed (k : Kernel) (trace : Flag) (dvp dlabel : ℕ) (cnp : Option ComponentName)
    (s : Kext) (o : Hooked (ℕ × Kext)) : Type 0 where
  pub calls : List Call
  pub returns : o ≡ some ((0, passed k.current_thread s), calls)
  pub prints : said calls ≡ lookup_lines k s trace dvp dlabel cnp
  pub quiet :
      (if trace.at_gate == 0 then calls else Call.current_thread ∷ []) ≡ Call.current_thread ∷ []
  pub balanced : references k calls 0 ≡ some 0

pub vnode_check_lookup-Passed :
    (k : Kernel) (trace : Flag) (dvp dlabel : ℕ) (cnp : Option ComponentName) (s : Kext)
    → IsReadable cnp trace_name_max
    → s.lookup_owner ≢ k.current_thread
    → Passed k trace dvp dlabel cnp s (vnode_check_lookup k trace dvp dlabel cnp s)
unfolding vnode_check_lookup lookup_enter trace_lookup tracing log_debug cur_name cur_pid
vnode_check_lookup-Passed k trace dvp dlabel cnp s readable outside =
    let named = name-Named k cnp readable in
    let away = ==_false s.lookup_owner k.current_thread outside in
    elim (Bool-cases (trace.at_gate == 0)) [
      | inl off ↦ record {
        calls = Call.current_thread ∷ [];
        returns = rw (away, off) refl;
        prints = rw off refl;
        quiet = rw off refl;
        balanced = refl;
      }
      | inr on ↦ elim (Bool-cases (trace.at_line == 0)) [
        | inl hushed ↦ record {
          calls = Call.current_thread ∷ Call.proc_selfname (k.maxcomlen + 1) ∷ [];
          returns = rw (away, on, named.written, hushed) refl;
          prints = rw (on, hushed) refl;
          quiet = rw on refl;
          balanced = refl;
        }
        | inr loud ↦ record {
          calls = lookup_calls k (lookup_line k s dvp dlabel cnp);
          returns = rw (away, on, loud, named.written, named.prints) refl;
          prints = rw (on, loud) refl;
          quiet = rw on refl;
          balanced = refl;
        }
      ]
    ]
