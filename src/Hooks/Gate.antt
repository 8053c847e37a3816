-- ===== src/Hooks/Gate.antt =====
-- With tracing off the hooks do nothing but test the gate.
use sedarwin.Prelude.{[], some, ◌≡◌, refl, ◌==◌, true}
use sedarwin.Kernel.{Kernel}
use sedarwin.Trace.{Flag, tracing}
use sedarwin.Hooks.{
  Event, open_vnode, readlink, getattr, setattrlist, label_associate_extattr, label_copy, handle,
}
use sedarwin.Hooks.Calls.{granted}

-- A hook that reads 0 in `sedarwin.trace` at its gate grants and calls nothing in the kernel, whatever
-- its arguments point to and whatever is written to the oid meanwhile: no name is resolved, no lock
-- taken and no line printed.
pub handle_untraced :
    (k : Kernel) (trace : Flag) (e : Event)
    → (trace.at_gate == 0) ≡ true
    → handle k trace e ≡ some (granted e, [])
unfolding handle tracing
handle_untraced k trace (open_vnode cred acc_mode) off = rw off refl
handle_untraced k trace readlink off = refl
handle_untraced k trace getattr off = refl
handle_untraced k trace setattrlist off = refl
handle_untraced k trace label_associate_extattr off = refl
handle_untraced k trace label_copy off = refl
handle_untraced k trace _ off = rw off refl
