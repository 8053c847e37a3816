-- ===== src/Threads/Serial.antt =====
-- Changes of the mask and the ops vector of kext/main.c that do not overlap.
use sedarwin.Prelude.{◌≤◌, false, Option, ◌≡◌, refl, ap, subst, arith}
use sedarwin.Policy.{Kext, Framework}
use sedarwin.Policy.Mask.{IsConsistent}
use sedarwin.Threads.{Task, handling, unloading, looking, Machine, Stores, Moves, Reach, IsStart}
use sedarwin.Threads.Single.{writing, writers, writer, writers-none}
use sedarwin.Threads.Change.{State, IsKept, goes-State}

-- The move is not an access of an unload.
abbrev pub IsKeeping : {f : Framework} {a b : Machine} → Moves f a b → Type 0
IsKeeping (Moves.goes s xs ys t) = IsKept t
IsKeeping _ = Unit {0}

-- In no state of the run are two calls in the middle of a change, and no unload makes an access.
abbrev pub IsSerial : {f : Framework} {root : Kext} {a : Machine} → Reach f root a → Type 0
IsSerial Reach.here = Unit {0}
IsSerial (Reach.moved {b} r m) = (writers b.tasks ≤ 1) × IsKeeping m × IsSerial r

IsSerial-few :
    {f : Framework} {root : Kext} {a : Machine} (r : Reach f root a)
    → IsSerial r
    → writers a.tasks ≤ 1
IsSerial-few Reach.here serial = omega arith
IsSerial-few (Reach.moved r m) serial = serial.0

IsStart-idle : (t : Task) → IsStart t → writing t ≡ false
IsStart-idle (handling req p) e = ap (λ q. writing (handling req q)) e
IsStart-idle (unloading p) e = refl
IsStart-idle (looking self p) e = ap (λ q. writing (looking self q)) e

Stores-State :
    {s s' : Kext} (w : Option Task)
    → Stores s s'
    → State w s.ops s.hooks_enabled
    → State w s'.ops s'.hooks_enabled
Stores-State w (Stores.write_trace v) held = held
Stores-State w (Stores.write_unsafe v) held = held
Stores-State w (Stores.write_fuse v) held = held
Stores-State w (Stores.write_maxdepth v) held = held
Stores-State w (Stores.write_recursed v) held = held
Stores-State w (Stores.write_count v) held = held

reach-State :
    {f : Framework} {root : Kext} {a : Machine}
    → IsConsistent root
    → (r : Reach f root a) → IsSerial r
    → State (writer a.tasks) a.kext.ops a.kext.hooks_enabled
reach-State c Reach.here serial = c
reach-State c (Reach.moved r (Moves.starts s ts t first)) serial =
    rw (IsStart-idle t first) (reach-State c r serial.2)
reach-State {f} c (Reach.moved r (Moves.goes s xs ys t)) serial =
    goes-State f xs ys t s serial.1 (IsSerial-few r serial.2) serial.0 (reach-State c r serial.2)
reach-State c (Reach.moved r (Moves.stores s s' ts step)) serial =
    Stores-State (writer ts) step (reach-State c r serial.2)

-- If changes do not overlap, the mask tells what is installed: in every interleaving of requests and
-- lookups by any threads, without an unload, from a state in which each hook's member is what the
-- mask asks for, such that at no moment two calls are between their first and their last store to
-- the mask and the vector, this holds again at every moment at which no call is.
pub serial_writers :
    {f : Framework} {root : Kext} {a : Machine}
    → IsConsistent root
    → (r : Reach f root a) → IsSerial r
    → writers a.tasks ≡ 0
    → IsConsistent a.kext
serial_writers {a} c r serial nobody =
    subst (λ w. State w a.kext.ops a.kext.hooks_enabled) (writers-none a.tasks nobody)
      (reach-State c r serial)
