-- ===== src/Lookup.antt =====
-- The quarantined hook `sebsd_vnode_check_lookup` of kext/vnode.c, which keeps a count, a fuse and the
-- thread that is inside. An `unsigned int` wraps around at 2 ^ 32.
pub mod Outside
pub mod Fused
pub mod Fuse
pub mod Steps
pub mod Frames
pub mod Ends
pub mod Spent
pub mod Peak
pub mod LostPeak
pub mod Crowd
pub mod Window
pub mod Overshoot
pub mod Inside
pub mod Reentry
use sedarwin.Prelude.{
  ℕ, ◌+◌, ◌-◌, ◌%◌, ◌^◌, Bool, true, false, List, [], ◌∷◌, Option, none, some, ltb, leb, ◌==◌, ◌&&◌,
  if◌then◌else◌,
}
use sedarwin.Bytes.{c_string}
use sedarwin.Kernel.{Kernel, Line, Call, Hooked, pure, ◌>>=◌, ◌>>◌, lift, when, call}
use sedarwin.Trace.{
  Flag, unchanged, tracing, log_debug, cur_name, cur_pid, trace_name_max, ComponentName, cnp_name,
}
use sedarwin.Ops.{Ops}
use sedarwin.Policy.{Kext, blow_lookup_fuse}

-- `__atomic_add_fetch(&x, 1)` and `__atomic_sub_fetch(&x, 1)`
abbrev pub increment : ℕ → ℕ
increment x = (x + 1) % 2 ^ 32

abbrev pub decrement : ℕ → ℕ
decrement x = (x + (2 ^ 32 - 1)) % 2 ^ 32

-- The peak of the depth.
abbrev pub raised : ℕ → ℕ → ℕ
raised depth maxdepth = if ltb maxdepth depth then depth else maxdepth

-- From the store of the owner to the count.
unfoldable pub lookup_enter : ℕ → Kext → Kext
lookup_enter self s =
    let depth = increment s.lookup_depth in
    record s {
      lookup_owner = self;
      lookup_depth = depth;
      lookup_maxdepth = raised depth s.lookup_maxdepth;
      lookup_count = increment s.lookup_count;
    }

-- `sebsd_lookup_fuse > 0`, of an `int`.
abbrev pub positive : ℕ → Bool
positive fuse = ltb 0 fuse && ltb fuse (2 ^ 31)

-- `sebsd_lookup_fuse > 0 && n >= (unsigned int)sebsd_lookup_fuse`
abbrev pub burned : ℕ → ℕ → Bool
burned fuse n = positive fuse && leb fuse n

unfoldable pub lookup_burn : ℕ → Kext → Kext
unfolding blow_lookup_fuse
lookup_burn n s = if burned s.lookup_fuse n then blow_lookup_fuse s else s

unfoldable pub lookup_leave : Kext → Kext
lookup_leave s = record s { lookup_depth = decrement s.lookup_depth; lookup_owner = 0 }

module _ (k : Kernel) where
  open k use {maxcomlen, local_array, current_thread}

  -- `sebsd_trace_lookup`
  unfoldable pub trace_lookup : Flag → ℕ → ℕ → ℕ → Option ComponentName → Hooked (Unit {0})
  trace_lookup trace n dvp dlabel cnp = do
    pname ← cur_name k (maxcomlen + 1)
    name ← lift (cnp_name cnp (local_array trace_name_max) trace_name_max)
    log_debug trace (do
      pid ← cur_pid k
      call Call.current_thread
      pure (
          Line.lookup n pname pid (c_string name) (elim cnp [ none ↦ 0 | some c ↦ c.cn_nameiop ])
            (elim cnp [ none ↦ 0 | some c ↦ c.cn_flags ]) dvp dlabel current_thread))

  -- `sebsd_vnode_check_lookup`: what it returns and the variables that it leaves.
  unfoldable pub vnode_check_lookup : Flag → ℕ → ℕ → Option ComponentName → Kext → Hooked (ℕ × Kext)
  unfolding trace_lookup lookup_enter lookup_burn lookup_leave blow_lookup_fuse
  vnode_check_lookup trace dvp dlabel cnp s =
      call Call.current_thread
      >> (if s.lookup_owner == current_thread
          then pure (0, blow_lookup_fuse (record s { lookup_recursed = 1 }))
          else let entered : Kext = lookup_enter current_thread s in
            let n : ℕ = entered.lookup_count in
            (when (tracing trace) (trace_lookup trace n dvp dlabel cnp)
              >> pure (0, lookup_leave (lookup_burn n entered))))
