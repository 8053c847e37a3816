-- ===== src/Hooks/Grants.antt =====
-- With tracing on at the gate the hooks still grant, and what they call is in order.
use sedarwin.Prelude.{ℕ, false, ◌≡◌, ◌∙◌, inl, inr, Bool-cases, ◌==◌}
use sedarwin.Kernel.{Kernel}
use sedarwin.Trace.{Flag}
use sedarwin.Hooks.{Event, handle}
use sedarwin.Hooks.Calls.{IsSound}
use sedarwin.Hooks.Loud.{Granted, grants}
use sedarwin.Hooks.Hushed.{hushed}
use sedarwin.Hooks.Flags.{handle_flag}

-- A hook that finds tracing on at its gate returns and grants access: a check returns 0, a
-- notification ends. If tracing is still on where the hook prints, it prints the line that the event
-- owes and no other, with the values of its format: the subject's name, pid and uid, a component's
-- name cut to the 63 bytes that fit, the peer's address whole, the letters of all code-signing flags
-- that are set, and for a watched signal both parties' names and pids, with a placeholder and -1 for a
-- party that is the kernel or has exited. The silent hooks, a signal that is not watched and a
-- connection without an address owe none. If tracing was turned off meanwhile, it prints none. In
-- both cases the hook releases each process reference that it takes and no other, and one whose
-- subject is the running process never takes the process list's lock. The pointers among the
-- arguments must point to what they are declared to.
pub handle_grants :
    (k : Kernel) (trace : Flag)
    → (trace.at_gate == 0) ≡ false
    → (e : Event) → IsSound e
    → Granted k trace.at_line e (handle k trace e)
handle_grants k trace on e s = elim (Bool-cases (trace.at_line == 0)) [
  | inl off ↦ told 0 off (hushed k e s)
  | inr loud ↦ told 1 loud (grants k e s)
]
  where
    told :
        (c : ℕ)
        → (trace.at_line == 0) ≡ (c == 0)
        → Granted k c e (handle k (record { at_gate = 1; at_line = c }) e)
        → Granted k trace.at_line e (handle k trace e)
    told c same g =
        let runs = handle_flag k trace c on same e in
        record {
          calls = g.calls;
          returns = runs ∙ g.returns;
          prints = rw same g.prints;
          balanced = g.balanced;
          lock_free = g.lock_free;
        }
