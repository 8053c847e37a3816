-- ===== src/Spawn.antt =====
-- The exec hooks of kext/spawn.c, with the rendering of the code-signing flags.
pub mod Letters
pub mod Writing
pub mod Flags
pub mod Decoded
use sedarwin.Prelude.{
  ℕ, suc, ◌+◌, ◌-◌, Bool, true, false, List, [], ◌∷◌, Option, none, some, bit_and, ltb, ◌==◌,
  if◌then◌else◌,
}
use sedarwin.Bytes.{store, c_string}
use sedarwin.Kernel.{Kernel, Line, Hooked, pure, ◌>>=◌, ◌>>◌, lift, when}
use sedarwin.Trace.{Flag, tracing, log_debug, cur_name, cur_pid, uid_of}

-- The locals of `sebsd_csflag_bits`: the buffer, the index of `p` in it, `left` and `first`.
pub record Cursor : Type 0 where
  pub buf : List ℕ
  pub p : ℕ
  pub left : ℕ
  pub first : Bool

-- `if (left > 1) { *p++ = c; left--; }`
unfoldable pub put : ℕ → Cursor → Option Cursor
put c s =
    if ltb 1 s.left
    then elim (store s.buf s.p c) [
      | none ↦ none
      | some buf' ↦ some (record s { buf = buf'; p = s.p + 1; left = s.left - 1 })
    ]
    else some s

-- The comma before every name but the first.
unfoldable pub put_comma : Bool → Cursor → Option Cursor
put_comma true s = some s
put_comma false s = put b',' s

unfoldable pub put_name : ℕ → Cursor → Option Cursor
put_name name s = elim (put name s) [ none ↦ none | some s' ↦ some (record s' { first = false }) ]

-- `CSFLAG_BIT(mask, name)`
unfoldable pub csflag_bit : ℕ → ℕ → ℕ → Cursor → Option Cursor
csflag_bit flags mask name s =
    if bit_and flags mask == 0
    then some s
    else elim (put_comma s.first s) [ none ↦ none | some s' ↦ put_name name s' ]

unfoldable pub csflag_each : ℕ → List (ℕ × ℕ) → Cursor → Option Cursor
csflag_each flags [] s = some s
csflag_each flags ((mask, name) ∷ rest) s = elim (csflag_bit flags mask name s) [
  | none ↦ none
  | some s' ↦ csflag_each flags rest s'
]

-- The uses of the macro, in order.
abbrev pub csflag_table : Kernel → List (ℕ × ℕ)
csflag_table k =
    (k.cs_valid, b'V')
    ∷ (k.cs_adhoc, b'A')
    ∷ (k.cs_signed, b'S')
    ∷ (k.cs_hard, b'H')
    ∷ (k.cs_kill, b'K')
    ∷ (k.cs_runtime, b'R')
    ∷ (k.cs_restrict, b'T')
    ∷ (k.cs_debugged, b'D')
    ∷ (k.cs_platform_binary, b'P')
    ∷ (k.cs_installer, b'I')
    ∷ []

unfoldable pub csflag_finish : Option Cursor → Option (List ℕ)
csflag_finish none = none
csflag_finish (some s) = store s.buf s.p 0

unfoldable pub csflag_render : ℕ → List (ℕ × ℕ) → List ℕ → ℕ → Option (List ℕ)
csflag_render flags table buf len = elim (store buf 0 0) [
  | none ↦ none
  | some cleared ↦
      csflag_finish
        (csflag_each flags table (record { buf = cleared; p = 0; left = len; first = true }))
]

-- `sebsd_csflag_bits(flags, buf, len)`: the buffer that it leaves.
unfoldable pub csflag_bits : Kernel → ℕ → List ℕ → ℕ → Option (List ℕ)
unfolding csflag_render
csflag_bits k flags buf len = csflag_render flags (csflag_table k) buf len

module _ (k : Kernel) where
  open k use {maxcomlen, local_array}

  unfoldable pub trace_exec : Flag → ℕ → ℕ → Hooked (Unit {0})
  unfolding csflag_bits
  trace_exec trace cred flags = do
    pname ← cur_name k (maxcomlen + 1)
    sig ← lift (csflag_bits k flags (local_array 32) 32)
    log_debug trace (do
      pid ← cur_pid k
      uid ← uid_of k cred
      pure (Line.exec pname pid uid flags (c_string sig)))

  -- `csflags` may be NULL.
  unfoldable pub spawn_check_exec : Flag → ℕ → Option ℕ → Hooked ℕ
  unfolding trace_exec
  spawn_check_exec trace cred csflags = do
    when (tracing trace) (trace_exec trace cred (elim csflags [ none ↦ 0 | some flags ↦ flags ]))
    pure 0

  unfoldable pub spawn_notify_exec_complete : Flag → Hooked (Unit {0})
  spawn_notify_exec_complete trace = when (tracing trace) (do
    pname ← cur_name k (maxcomlen + 1)
    log_debug trace (do pid ← cur_pid k; pure (Line.exec_complete pname pid)))
