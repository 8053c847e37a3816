-- ===== src/Tests/Dispatch.antt =====
-- A framework's dispatch over the loaded policy, at a concrete history.
use sedarwin.Prelude.{[], Option, none, some, ◌≡◌, refl}
use sedarwin.Kernel.{Hooked, ◌>>=◌, pure}
use sedarwin.Ops.Slots.{slot, implementation}
use sedarwin.Hooks.{signal, Answer}
use sedarwin.Policy.{Kext, loaded, policy_register, sysctl_hooks_handler}
use sedarwin.Policy.Agreement.{Life, Whole}
use sedarwin.Dispatch.{Ask, event, asked_hook, body, Dispatcher}
use sedarwin.Dispatch.Answers.{Answered, life-Answered}
use sedarwin.Tests.Setting.{kernel, framework, write}

abbrev pub read_and_call : Kext → Ask → Hooked (Option Answer × Kext)
read_and_call s a = elim (slot (asked_hook a) s.ops) [
  | none ↦ pure (none, s)
  | some f ↦ body kernel a s >>= λ r. pure (some r.0, r.1)
]

pub dispatcher-null :
    (s : Kext) (a : Ask)
    → slot (asked_hook a) s.ops ≡ none
    → read_and_call s a ≡ some ((none, s), [])
dispatcher-null s a e = rw (e, read_and_call) refl

pub dispatcher-function :
    (s : Kext) (a : Ask)
    → slot (asked_hook a) s.ops ≡ some (implementation (asked_hook a))
    → read_and_call s a ≡ (body kernel a s >>= λ r. pure (some r.0, r.1))
dispatcher-function s a e = rw (e, read_and_call) refl

abbrev pub dispatcher : Dispatcher kernel
dispatcher = record {
  call = read_and_call;
  on_null = dispatcher-null;
  on_function = dispatcher-function;
}

-- Opens and signals are hooked, and traced.
abbrev hooked : Kext
hooked =
    (sysctl_hooks_handler framework (write 0x1001) (policy_register framework loaded).left).left

abbrev traced : Kext
traced = record hooked { trace_enabled = 1 }

abbrev history : Life framework traced
history =
    Life.goes_on (Life.goes_on Life.loads (Whole.write_hooks (write 0x1001))) (Whole.write_trace 1)

-- SIGKILL, from an exited process to a live one.
abbrev kill : Ask
kill = event (signal 2 (some 5) (some 6) 9)

life-Answered_example : Answered kernel framework traced kill (read_and_call traced kill)
life-Answered_example = life-Answered dispatcher history kill tt
