-- ===== src/Threads.antt =====
-- The policy on several processors at once: the handler of `sedarwin.hooks` and the unload entry of
-- kext/main.c, one access to a shared variable at a time, beside the calls of the lookup hook. The
-- oids are CTLFLAG_LOCKED: the kernel leaves locking to the handler, and it takes none.
pub mod Alone
pub mod Writes
pub mod Slots
pub mod Dispatched
pub mod Quarantine
pub mod Steady
pub mod Schedules
pub mod Writers
pub mod Rearmed
pub mod Single
pub mod Change
pub mod Serial
pub mod Ends
pub mod Cleared
pub mod Teardown
use sedarwin.Prelude.{
  ℕ, Bool, List, [], ◌∷◌, ◌++◌, Option, none, some, bit_and, bit_or, not, ◌==◌, ◌||◌, ◌≡◌,
  if◌then◌else◌,
}
use sedarwin.Mask.{hook_all, hook_unsafe, complement}
use sedarwin.Ops.{Ops}
use sedarwin.Ops.Slots.{Hook}
use sedarwin.Ops.Stores.{store, chosen, statements}
use sedarwin.Policy.{
  Kext, Request, Framework, Effect, refusing_hooks, hooks_now, mac_policy_unregister,
  unregister_failed, unregistered, sysctl_unregister,
}
use sedarwin.Lookup.Steps.{Point, load_owner, advance}

-- Where a call of `sebsd_sysctl_hooks_handler` stands, with its local `value`.
pub data Handling : Type 0 where
  load_hooks : Handling
  load_unsafe : (value : ℕ) → Handling
  store_hooks : (value : ℕ) → Handling
  -- `sebsd_install_hooks`, with the statements that are left
  install : (value : ℕ) (left : List Hook) → Handling

-- Where a call of `sebsd_mac_policy_unregister` stands.
pub data Unloading : Type 0 where
  load_registered : Unloading
  clear : (left : List Hook) → Unloading
  unregister : Unloading
  store_registered : Unloading

-- What follows an access: another one, or the return, with the effects before it.
pub data Next (P : Type 0) : Type 0 where
  on : P → Next P
  returned : (value : ℕ) (effects : List Effect) → Next P

-- The handler after `sysctl_handle_int`, up to its next access.
unfoldable pub judge : Framework → Request → ℕ × ℕ → Next Handling
judge f req (error, value) =
    if not (error == 0) || (req.newptr == 0)
    then Next.returned error []
    else if not (bit_and value (complement (bit_or hook_all hook_unsafe)) == 0)
    then Next.returned f.einval []
    else if not (bit_and value hook_unsafe == 0)
    then Next.on (load_unsafe value)
    else Next.on (store_hooks value)

unfoldable pub handle_access : Framework → Request → Handling → Kext → Kext × Next Handling
unfolding judge
handle_access f req load_hooks s = (s, judge f req (f.sysctl_handle_int req s.hooks_enabled))
handle_access f req (load_unsafe value) s = (
  s,
  if s.unsafe_enabled == 0
      then Next.returned f.eperm (refusing_hooks (bit_and value hook_unsafe) ∷ [])
      else Next.on (store_hooks value),
)
handle_access f req (store_hooks value) s =
    (record s { hooks_enabled = value }, Next.on (install value statements))
handle_access f req (install value []) s = (s, Next.returned 0 (hooks_now value ∷ []))
handle_access f req (install value (h ∷ hs)) s =
    (record s { ops = store h (chosen value h) s.ops }, Next.on (install value hs))

unfoldable pub unload_access : Framework → Unloading → Kext → Kext × Next Unloading
unload_access f load_registered s =
    (s, if s.registered == 0 then Next.returned f.kern_success [] else Next.on (clear statements))
unload_access f (clear (h ∷ hs)) s =
    (record s { ops = store h (chosen 0 h) s.ops }, Next.on (clear hs))
unload_access f (clear []) s = (s, Next.on unregister)
unload_access f unregister s =
    let error : ℕ = f.mac_policy_unregister s.handle in
    (
      s,
      if error == 0
          then Next.on store_registered
          else Next.returned f.kern_failure
              (mac_policy_unregister s.handle ∷ unregister_failed error ∷ []),
    )
unload_access f store_registered s = (
  record s { registered = 0 },
  Next.returned f.kern_success
      (mac_policy_unregister s.handle ∷ (sysctl_unregister ++ (unregistered ∷ []))),
)

-- A call on the way.
pub data Task : Type 0 where
  handling : (req : Request) (at : Handling) → Task
  unloading : (at : Unloading) → Task
  looking : (self : ℕ) (at : Point) → Task

abbrev pub goes_on : {P : Type 0} → (P → Task) → Next P → List Task
goes_on task (Next.on p) = task p ∷ []
goes_on task (Next.returned value effects) = []

abbrev pub looks_on : ℕ → Option Point → List Task
looks_on self none = []
looks_on self (some p) = looking self p ∷ []

-- One access of a call: the variables after it, and the call if it has not returned.
abbrev pub access : Framework → Task → Kext → Kext × List Task
access f (handling req p) s =
    ((handle_access f req p s).0, goes_on (handling req) (handle_access f req p s).1)
access f (unloading p) s = ((unload_access f p s).0, goes_on unloading (unload_access f p s).1)
access f (looking self p) s = ((advance self p s).0, looks_on self (advance self p s).1)

pub record Machine : Type 0 where
  pub kext : Kext
  pub tasks : List Task

-- The start of a call.
abbrev pub IsStart : Task → Type 0
IsStart (handling req p) = p ≡ load_hooks
IsStart (unloading p) = p ≡ load_registered
IsStart (looking self p) = p ≡ load_owner

-- A request to one of the other oids: `sysctl_handle_int` stores an `int`.
pub data Stores (s : Kext) : Kext → Type 0 where
  write_trace : (v : ℕ) → Stores s (record s { trace_enabled = v })
  write_unsafe : (v : ℕ) → Stores s (record s { unsafe_enabled = v })
  write_fuse : (v : ℕ) → Stores s (record s { lookup_fuse = v })
  write_maxdepth : (v : ℕ) → Stores s (record s { lookup_maxdepth = v })
  write_recursed : (v : ℕ) → Stores s (record s { lookup_recursed = v })
  write_count : (v : ℕ) → Stores s (record s { lookup_count = v })

module _ (f : Framework) where
  -- A call starts, or one of the calls makes its next access, or an `int` is stored.
  pub data Moves : Machine → Machine → Type 0 where
    starts :
        (s : Kext) (ts : List Task) (t : Task)
        → IsStart t
        → Moves (record { kext = s; tasks = ts }) (record { kext = s; tasks = t ∷ ts })
    goes :
        (s : Kext) (xs ys : List Task) (t : Task)
        → Moves
            (record { kext = s; tasks = xs ++ (t ∷ ys) })
            (record { kext = (access f t s).0; tasks = xs ++ ((access f t s).1 ++ ys) })
    stores :
        (s s' : Kext) (ts : List Task)
        → Stores s s'
        → Moves (record { kext = s; tasks = ts }) (record { kext = s'; tasks = ts })

  -- What can be reached when no call is on the way at first.
  pub data Reach (root : Kext) : Machine → Type 0 where
    here : Reach root (record { kext = root; tasks = [] })
    moved : {a b : Machine} → Reach root a → Moves a b → Reach root b
