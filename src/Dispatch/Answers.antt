-- ===== src/Dispatch/Answers.antt =====
-- Whatever an operator writes to the oids of kext/main.c, the policy never denies and never faults, and
-- a hook whose bit is clear is not called.
use sedarwin.Prelude.{
  ℕ, Bool, true, List, [], ◌∷◌, Option, none, some, ◌≡◌, ◌∙◌, refl, inl, inr, not, ◌==◌, ◌&&◌,
  if◌then◌else◌, nth_bit, Bool-cases, ==_iff, ==_false, list_laws, arith, ℕ_discrete,
}
use sedarwin.Kernel.{Kernel, Line, Call, Hooked}
use sedarwin.Trace.{unchanged, trace_name_max, ComponentName}
use sedarwin.Trace.Component.{IsReadable}
use sedarwin.Ops.Slots.{bit_of}
use sedarwin.Hooks.{Event, handle, Answer, returned}
use sedarwin.Hooks.Calls.{granted, said, references, IsSound}
use sedarwin.Hooks.Owed.{owed}
use sedarwin.Hooks.Gate.{handle_untraced}
use sedarwin.Hooks.Grants.{handle_grants}
use sedarwin.Policy.{Kext, Framework}
use sedarwin.Policy.Agreement.{Life, Whole, life-IsConsistent}
use sedarwin.Lookup.{vnode_check_lookup}
use sedarwin.Lookup.Outside.{lookup_line, at_once, vnode_check_lookup-Passed}
use sedarwin.Dispatch.{Ask, event, lookup, asked_hook, body, Dispatcher}

abbrev pub IsSoundAsk : Ask → Type 0
IsSoundAsk (event e) = IsSound e
IsSoundAsk (lookup dvp dlabel cnp) = IsReadable cnp trace_name_max

abbrev pub granted_ask : Ask → Answer
granted_ask (event e) = granted e
granted_ask (lookup dvp dlabel cnp) = returned 0

-- The lines that are owed while tracing is on: a lookup that is made from inside the hook owes
-- none.
abbrev pub ask_owed : Kernel → Kext → Ask → List Line
ask_owed k s (event e) = owed k e
ask_owed k s (lookup dvp dlabel cnp) =
    if s.lookup_owner == k.current_thread then [] else lookup_line k s dvp dlabel cnp ∷ []

abbrev pub left_by : Kernel → Kext → Ask → Kext
left_by k s (event e) = s
left_by k s (lookup dvp dlabel cnp) = at_once k.current_thread s

-- What a hook calls before it tests the gate: the lookup hook asks for its own thread.
abbrev pub asking : Ask → List Call
asking (event e) = []
asking (lookup dvp dlabel cnp) = Call.current_thread ∷ []

-- A hook that is called returns and grants.
pub record Ran (k : Kernel) (s : Kext) (a : Ask) (o : Hooked (Answer × Kext)) : Type 0 where
  pub calls : List Call
  pub returns : o ≡ some ((granted_ask a, left_by k s a), calls)
  pub prints : said calls ≡ (if s.trace_enabled == 0 then [] else ask_owed k s a)
  pub quiet : (if s.trace_enabled == 0 then calls else asking a) ≡ asking a
  pub balanced : references k calls 0 ≡ some 0

event-Ran : (k : Kernel) (s : Kext) (e : Event) → IsSound e → Ran k s (event e) (body k (event e) s)
event-Ran k s e sound = elim (Bool-cases (s.trace_enabled == 0)) [
  | inl off ↦
      let runs : handle k (unchanged s.trace_enabled) e ≡ some (granted e, []) =
        handle_untraced k (unchanged s.trace_enabled) e off in
      record {
        calls = [];
        returns = rw runs refl;
        prints = rw off refl;
        quiet = rw off refl;
        balanced = refl;
      }
  | inr on ↦
      let g = handle_grants k (unchanged s.trace_enabled) on e sound in
      record {
        calls = g.calls;
        returns = rw g.returns (simp list_laws);
        prints = g.prints;
        quiet = rw on refl;
        balanced = g.balanced;
      }
]

lookup-Ran :
    (k : Kernel) (s : Kext) (dvp dlabel : ℕ) (cnp : Option ComponentName)
    → IsReadable cnp trace_name_max
    → Ran k s (lookup dvp dlabel cnp) (body k (lookup dvp dlabel cnp) s)
unfolding vnode_check_lookup
lookup-Ran k s dvp dlabel cnp readable = elim (ℕ_discrete s.lookup_owner k.current_thread) [
  | yes same ↦
      let inside : (s.lookup_owner == k.current_thread) ≡ true = (==_iff _ _).1 same in
      record {
        calls = Call.current_thread ∷ [];
        returns = rw inside refl;
        prints = ground arith;
        quiet = ground arith;
        balanced = refl;
      }
  | no other ↦
      let away = ==_false s.lookup_owner k.current_thread other in
      let p =
        vnode_check_lookup-Passed k (unchanged s.trace_enabled) dvp dlabel cnp s readable other in
      record {
        calls = p.calls;
        returns = rw (p.returns, away) (simp list_laws);
        prints = rw away (p.prints ∙ ground arith);
        quiet = p.quiet;
        balanced = p.balanced;
      }
]

pub ask-Ran : (k : Kernel) (s : Kext) (a : Ask) → IsSoundAsk a → Ran k s a (body k a s)
ask-Ran k s (event e) sound = event-Ran k s e sound
ask-Ran k s (lookup dvp dlabel cnp) sound = lookup-Ran k s dvp dlabel cnp sound

left_by-Life : {f : Framework} {s : Kext} (k : Kernel) (a : Ask) → Life f s → Life f (left_by k s a)
left_by-Life k (event e) r = r
left_by-Life k (lookup dvp dlabel cnp) r = Life.goes_on r (Whole.lookup k.current_thread)

-- The hook's bit is set in the mask that `sysctl sedarwin.hooks` shows.
abbrev pub enabled : Kext → Ask → Bool
enabled s a = nth_bit (bit_of (asked_hook a)) s.hooks_enabled == 1

-- What is called for an event that is not traced.
abbrev pub at_rest : Kext → Ask → List Call
at_rest s a = if enabled s a then asking a else []

-- An answer, and what goes with it.
pub record Answered (k : Kernel) (f : Framework) (s : Kext) (a : Ask)
    (o : Hooked (Option Answer × Kext)) : Type 0 where
  pub next : Kext
  pub calls : List Call
  pub returns : o ≡ some ((if enabled s a then some (granted_ask a) else none, next), calls)
  pub goes_on : Life f next
  pub prints :
      said calls ≡ (if enabled s a && not (s.trace_enabled == 0) then ask_owed k s a else [])
  pub quiet :
      (if enabled s a && not (s.trace_enabled == 0) then at_rest s a else calls) ≡ at_rest s a
  pub balanced : references k calls 0 ≡ some 0

-- From the load on, after any requests to the oids and any calls of the lookup hook, an event whose
-- hook has its bit set in the mask is granted, and one whose hook's bit is clear meets no opinion.
-- If the bit is clear no function of the kernel is called, and if tracing is off none but
-- `current_thread`, which the lookup hook calls first. If the bit is set and tracing is on the hook prints the
-- line that it owes, with its values, if it owes one, and no other, and it holds no process
-- reference at its end. A lookup's line has the number of the dispatch. The run can go on from
-- there. The framework is to call what stands in a member and to pass NULL over, and the pointers
-- among the arguments are to point to what they are declared to.
pub life-Answered :
    {k : Kernel} {f : Framework} {s : Kext} (d : Dispatcher k)
    → Life f s
    → (a : Ask) → IsSoundAsk a
    → Answered k f s a (d.call s a)
life-Answered {k} {f} {s} d r a sound =
    let held = life-IsConsistent r (asked_hook a) in
    elim (Bool-cases (enabled s a)) [
      | inl set ↦
          let ran = ask-Ran k s a sound in
          record {
            next = left_by k s a;
            calls = ran.calls;
            returns =
                d.on_function s a (held ∙ rw set refl) ∙ rw (ran.returns, set) (simp list_laws);
            goes_on = left_by-Life k a r;
            prints = ran.prints ∙ ground arith;
            quiet = ground (arith, ran.quiet);
            balanced = ran.balanced;
          }
      | inr clear ↦ record {
        next = s;
        calls = [];
        returns = d.on_null s a (held ∙ rw clear refl) ∙ rw clear refl;
        goes_on = r;
        prints = rw clear refl;
        quiet = rw clear refl;
        balanced = refl;
      }
    ]
