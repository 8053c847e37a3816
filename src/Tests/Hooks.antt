-- ===== src/Tests/Hooks.antt =====
-- The per-event hooks at concrete events.
use sedarwin.Prelude.{[], none, some, ◌≡◌, refl}
use sedarwin.Hooks.{Event, handle, Answer}
use sedarwin.Hooks.Gate.{handle_untraced}
use sedarwin.Hooks.Loud.{Granted}
use sedarwin.Hooks.Grants.{handle_grants}
use sedarwin.Trace.{Flag}
use sedarwin.Tests.Setting.{kernel, component}

-- Tracing is turned on, or off, while a hook runs.
abbrev turned_on : Flag
turned_on = record { at_gate = 0; at_line = 1 }

abbrev turned_off : Flag
turned_off = record { at_gate = 1; at_line = 0 }

handle_untraced_example :
    handle kernel turned_on (Event.create 1 (some component)) ≡ some (Answer.returned 0, [])
handle_untraced_example = handle_untraced kernel turned_on (Event.create 1 (some component)) refl

-- SIGKILL to a live process: the reference that is taken is released though no line is printed.
abbrev kill : Event
kill = Event.signal 1 none (some 6) 9

handle_grants_example : Granted kernel 0 kill (handle kernel turned_off kill)
handle_grants_example = handle_grants kernel turned_off refl kill tt
