-- ===== src/Threads/Dispatched.antt =====
-- What the framework gets from the hooks of kext/ while calls of kext/main.c and kext/vnode.c are on the
-- way on other processors.
use sedarwin.Prelude.{
  List, [], Option, none, some, ◌≡◌, ◌∙◌, refl, inl, inr, ◌==◌, if◌then◌else◌, list_laws, arith,
}
use sedarwin.Kernel.{Kernel, Line, Call, Hooked}
use sedarwin.Ops.{Function}
use sedarwin.Ops.Slots.{slot}
use sedarwin.Hooks.{Answer}
use sedarwin.Hooks.Calls.{said, references}
use sedarwin.Policy.{Kext, Framework, loaded, policy_register}
use sedarwin.Dispatch.{Ask, asked_hook, Dispatcher}
use sedarwin.Dispatch.Answers.{IsSoundAsk, granted_ask, ask_owed, left_by, asking, ask-Ran}
use sedarwin.Threads.{Machine, Reach}
use sedarwin.Threads.Slots.{IsOwn, reach-IsOwn}

-- What a member's value gives for an event: a grant, or no opinion.
abbrev pub opinion : Ask → Option Function → Option Answer
opinion a none = none
opinion a (some f) = some (granted_ask a)

-- The lines of a hook that is called, or not.
abbrev pub lines : Kernel → Kext → Ask → Option Function → List Line
lines k s a none = []
lines k s a (some f) = if s.trace_enabled == 0 then [] else ask_owed k s a

-- What a hook that is called, or not, calls with tracing off.
abbrev pub resting : Ask → Option Function → List Call
resting a none = []
resting a (some f) = asking a

pub record Granted (k : Kernel) (s : Kext) (a : Ask) (o : Hooked (Option Answer × Kext))
    : Type 0 where
  pub next : Kext
  pub calls : List Call
  pub returns : o ≡ some ((opinion a (slot (asked_hook a) s.ops), next), calls)
  pub prints : said calls ≡ lines k s a (slot (asked_hook a) s.ops)
  pub quiet :
      (if s.trace_enabled == 0 then calls else resting a (slot (asked_hook a) s.ops))
      ≡ resting a (slot (asked_hook a) s.ops)
  pub balanced : references k calls 0 ≡ some 0

own-Granted :
    {k : Kernel} {s : Kext} (d : Dispatcher k) (a : Ask)
    → IsSoundAsk a
    → IsOwn (asked_hook a) (slot (asked_hook a) s.ops)
    → Granted k s a (d.call s a)
own-Granted {k} {s} d a sound (inl empty) = record {
  next = s;
  calls = [];
  returns = d.on_null s a empty ∙ rw empty refl;
  prints = rw empty refl;
  quiet = rw empty (ground arith);
  balanced = refl;
}
own-Granted {k} {s} d a sound (inr full) =
    let ran = ask-Ran k s a sound in
    record {
      next = left_by k s a;
      calls = ran.calls;
      returns = d.on_function s a full ∙ rw (ran.returns, full) (simp list_laws);
      prints = ran.prints ∙ rw full refl;
      quiet = rw full ran.quiet;
      balanced = ran.balanced;
    }

-- From the load on, at every moment of every interleaving of requests, unloads and lookups by any
-- threads, also while a change of the mask is half done: an event is granted if its member is filled
-- at that moment, and meets no opinion if it is NULL; it is never denied, and nothing faults. The
-- hook prints the line that it owes just if it is called and tracing is on, calls nothing in the
-- kernel with tracing off but `current_thread` in the lookup hook, and holds no process reference at its end. The framework is to call what
-- stands in a member and to pass NULL over, and the pointers among the arguments are to point to what
-- they are declared to.
pub reach-Granted :
    {k : Kernel} {f : Framework} {m : Machine} (d : Dispatcher k)
    → Reach f (policy_register f loaded).left m
    → (a : Ask) → IsSoundAsk a
    → Granted k m.kext a (d.call m.kext a)
reach-Granted d r a sound = own-Granted d a sound (reach-IsOwn (asked_hook a) r)
